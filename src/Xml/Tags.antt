-- ===== src/Xml/Tags.antt =====
-- Documents in which every end tag closes the tag that was opened last.
use rshs.Chain.{◌>>=◌}
use rshs.Common.{
  Bool-cases, Bytes, List, Option, [], append_assoc, bytes_eq_refl, bytes_key, if◌then◌else◌, inl,
  inr, none, refl, some, ◌++◌, ◌==◌, ◌∙◌, ◌∷◌, ◌≡◌,
}
use rshs.FilePath.{path_key}
use rshs.Map.{nat_key}
use rshs.Xml.{Document, decl, each, empty_tag, end_tag, start_tag, text_node}

-- the tags that are open behind a document
unfoldable pub closes : List Bytes → Document → Option (List Bytes)
closes opened [] = some opened
closes opened (decl ∷ doc) = closes opened doc
closes opened (text_node t ∷ doc) = closes opened doc
closes opened (empty_tag name attrs ∷ doc) = closes opened doc
closes opened (start_tag name attrs ∷ doc) = closes (name ∷ opened) doc
closes [] (end_tag name ∷ doc) = none
closes (last ∷ opened) (end_tag name ∷ doc) =
    let rest = closes opened doc in if last == name then rest else none

pub record IsBalanced (doc : Document) : Type 0 where
  pub stays : (opened : List Bytes) → closes opened doc ≡ some opened

closes-append :
    (opened : List Bytes) (doc more : Document)
    → closes opened (doc ++ more) ≡ (closes opened doc >>= λ opened'. closes opened' more)
unfolding closes
closes-append opened [] more = refl
closes-append opened (decl ∷ doc) more = closes-append opened doc more
closes-append opened (text_node t ∷ doc) more = closes-append opened doc more
closes-append opened (empty_tag name attrs ∷ doc) more = closes-append opened doc more
closes-append opened (start_tag name attrs ∷ doc) more = closes-append (name ∷ opened) doc more
closes-append [] (end_tag name ∷ doc) more = refl
closes-append (last ∷ opened) (end_tag name ∷ doc) more = elim (Bool-cases (last == name)) [
  | inl same ↦ rw same (closes-append opened doc more)
  | inr other ↦ rw other refl
]

-- a balanced part leaves the open tags to what follows
pub part :
    {doc : Document}
    → IsBalanced doc
    → (opened : List Bytes) (more : Document) → closes opened (doc ++ more) ≡ closes opened more
part {doc} b opened more = rw (closes-append opened doc more, b.stays opened) refl

pub part_nested :
    {doc : Document}
    → IsBalanced doc
    → (opened : List Bytes) (more last : Document)
    → closes opened ((doc ++ more) ++ last) ≡ closes opened (more ++ last)
part_nested {doc} b opened more last =
    rw (append_assoc doc more last) (part b opened (more ++ last))

pub append-IsBalanced :
    {doc more : Document} → IsBalanced doc → IsBalanced more → IsBalanced (doc ++ more)
append-IsBalanced b c = record { stays = λ opened. part b opened _ ∙ c.stays opened }

pub each-IsBalanced {ℓ} :
    {A : Type ℓ} (write : A → Document)
    → ((a : A) → IsBalanced (write a))
    → (as' : List A) → IsBalanced (each write as')
unfolding each closes
each-IsBalanced write b [] = record { stays = λ opened. refl }
each-IsBalanced write b (a ∷ as') = append-IsBalanced (b a) (each-IsBalanced write b as')

-- an element with a balanced content
pub frame-IsBalanced :
    {content : Document} (name : Bytes) (attrs : List (Bytes × Bytes))
    → IsBalanced content
    → IsBalanced (start_tag name attrs ∷ content ++ end_tag name ∷ [])
unfolding closes
frame-IsBalanced name attrs b = record {
  stays = λ opened. part b (name ∷ opened) _ ∙ rw (bytes_eq_refl name) refl;
}

pub nil-IsBalanced : IsBalanced []
unfolding closes
nil-IsBalanced = record { stays = λ opened. refl }
