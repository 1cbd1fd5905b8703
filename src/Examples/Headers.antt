-- ===== src/Examples/Headers.antt =====
-- Headers and names: the theorems on the `If` header, Clark notation and methods.
use rshs.Common.{
  Bytes, [], all, and-eq-true_iff, any, arith, bytes_eq, bytes_key, codes, eqb, false, not, refl,
  retain, some, true, ℕ, ◌==◌, ◌↔◌, ◌∷◌, ◌≡◌,
}
use rshs.Examples.{exclusive_lock, one_header, token_t}
use rshs.FilePath.{path_key}
use rshs.Headers.Clark.{IsFreeOf}
use rshs.Http.{HeaderMap, header_text}
use rshs.IfHeader.{IfList, eval_if, negated, no_lock, state_token}
use rshs.IfHeader.Fuel.{parse_fuel, rounds}
use rshs.IfHeader.Laws.{Demands, eval_if_iff}
use rshs.IfHeader.Parse.{
  list_step, lists_step, parse_if_header, parse_lists, read_list, skip_ws, tagged_loop, tagged_step,
}
use rshs.IfHeader.RoundTrip.{HeaderIsWritable, parse_if_header-print, print_lists}
use rshs.Lock.{active_slice, is_expired}
use rshs.Map.{nat_key}

-- </d/f> (<opaquelocktoken:t> Not <DAV:no-lock>)
abbrev tagged_list : IfList
tagged_list = record {
  resource_tag = some (codes "/d/f");
  conditions = state_token token_t ∷ negated (state_token no_lock) ∷ [];
}

eval_if_iff_example :
    (eval_if 6 (tagged_list ∷ []) (exclusive_lock ∷ []) (codes "/d/f") ≡ true)
    ↔ Demands 6 (tagged_list ∷ []) (exclusive_lock ∷ []) (codes "/d/f")
eval_if_iff_example = eval_if_iff 6 (tagged_list ∷ []) (exclusive_lock ∷ []) (codes "/d/f")

other_token : (codes "urn:x" == no_lock) ≡ false
unfolding bytes_eq
other_token = refl

absent_token : any (λ l. l.token == codes "urn:x") (active_slice 6 (exclusive_lock ∷ [])) ≡ false
unfolding active_slice is_expired retain any bytes_eq
absent_token = refl

abbrev if_header : HeaderMap
if_header = one_header (codes "if") (print_lists (tagged_list ∷ []))

IsFreeOf-decide : (b : ℕ) (s : Bytes) → all (λ c. not (eqb c b)) s ≡ true → IsFreeOf b s
unfolding all
IsFreeOf-decide b [] h = tt
IsFreeOf-decide b (c ∷ s) h =
    let (first, later) = (and-eq-true_iff (not (eqb c b)) (all (λ d. not (eqb d b)) s)).0 h in
    (ground arith, IsFreeOf-decide b s later)

tagged_writable : HeaderIsWritable (tagged_list ∷ [])
unfolding all
tagged_writable = (
  (IsFreeOf-decide b'>' token_t refl, (IsFreeOf-decide b'>' no_lock refl, tt)),
  (IsFreeOf-decide b'>' (codes "/d/f") refl, tt),
  tt,
)

if_header_text : header_text if_header (codes "if") ≡ some (print_lists (tagged_list ∷ []))
unfolding header_text bytes_eq
if_header_text = refl

parse_if_header-print_example : parse_if_header if_header ≡ tagged_list ∷ []
parse_if_header-print_example =
    parse_if_header-print if_header (tagged_list ∷ []) tagged_writable if_header_text

-- with other answers where a round more would be needed
parse_fuel_example :
    (rounds (λ again t. list_step again (skip_ws t)) (λ t. ([], codes "?")) 9 (codes "<t>)")
      ≡ read_list (codes "<t>)"))
    × (rounds (λ again t. tagged_step again (codes "/d") t) (λ t. ([], codes "?")) 9 (codes "<t>)")
        ≡ tagged_loop 5 (codes "/d") (codes "<t>)"))
    × (rounds (λ again t. lists_step again (skip_ws t)) (λ t. tagged_list ∷ []) 9 (codes "<t>)")
        ≡ parse_lists 5 (codes "<t>)"))
parse_fuel_example =
    parse_fuel 9 (codes "/d") (codes "<t>)") (λ t. ([], codes "?")) (λ t. ([], codes "?"))
      (λ t. tagged_list ∷ []) (omega arith)

namespace_free : IsFreeOf b'}' (codes "urn:x")
unfolding all
namespace_free = IsFreeOf-decide b'}' (codes "urn:x") refl
