-- ===== src/Http.antt =====
-- What the handlers share of HTTP: status codes, the headers of a request as the `http` crate
-- answers for them, and results that carry a status code as their error.
use rshs.Common.{Bool, Bytes, Option, inl, inr, is_some, none, refl, some, ◌≡◌, ◌⊎◌}

-- The status codes that the program answers with.
pub data StatusCode : Type 0 where
  status_ok status_created no_content multi_status : StatusCode
  bad_request unauthorized forbidden not_found method_not_allowed : StatusCode
  conflict precondition_failed unsupported_media_type locked : StatusCode
  internal_server_error not_implemented : StatusCode

-- `Result<T, StatusCode>`
pub data Result {ℓ} (A : Type ℓ) : Type ℓ where
  ok : A → Result A
  err : StatusCode → Result A

pub Result-cases {ℓ} :
    {A : Type ℓ} (r : Result A) → ((a : A) × (r ≡ ok a)) ⊎ ((code : StatusCode) × (r ≡ err code))
Result-cases (ok a) = inl (a, refl)
Result-cases (err code) = inr (code, refl)

abbrev pub map_ok {ℓ κ} : {A : Type ℓ} {B : Type κ} → (A → B) → Result A → Result B
map_ok f (ok a) = ok (f a)
map_ok f (err code) = err code

-- A header's value: its bytes, and the text that `to_str` gives if it is visible ASCII.
pub record HeaderValue : Type 0 where
  pub bytes : Bytes
  pub text : Option Bytes

-- `HeaderMap::get`
abbrev pub HeaderMap : Type 0
HeaderMap = Bytes → Option HeaderValue

-- `headers.get(name)?.to_str().ok()`
unfoldable pub header_text : HeaderMap → Bytes → Option Bytes
header_text headers name = elim (headers name) [ none ↦ none | some v ↦ v.text ]

-- `headers.contains_key(name)`
unfoldable pub contains_key : HeaderMap → Bytes → Bool
contains_key headers name = is_some (headers name)
