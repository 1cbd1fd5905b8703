-- ===== src/Xml/Sorted.antt =====
-- How `build_multistatus` of src/webdav/xml.rs sorts the requested names.
use rshs.Common.{
  Bool, Bool-cases, Bytes, List, [], any, any-append, arith, bytes_eq_iff, bytes_eq_refl, bytes_key,
  false≢true, if◌then◌else◌, inl, inr, refl, retain, true, ◌++◌, ◌==◌, ◌||◌, ◌∷◌, ◌≡◌, ◌⊎◌,
}
use rshs.FilePath.{path_key}
use rshs.Map.{nat_key}
use rshs.Map.Laws.{kept}
use rshs.Xml.{supported_props}
use rshs.Xml.Multistatus.{contains_name, local_of, partition}

pub contains_name-append :
    (names more : List Bytes) (n : Bytes)
    → contains_name (names ++ more) n ≡ (contains_name names n || contains_name more n)
unfolding contains_name
contains_name-append names more n = any-append (λ m. m == n) names more

-- A name that passes the test stays.
pub contains_name-retain :
    (p : Bytes → Bool) (names : List Bytes) (n : Bytes)
    → contains_name names n ≡ true
    → p n ≡ true
    → contains_name (retain p names) n ≡ true
unfolding contains_name any retain
contains_name-retain p [] n h keep = h
contains_name-retain p (m ∷ names) n h keep = elim (Bool-cases (m == n)) [
  | inl same ↦ let e : m ≡ n = (bytes_eq_iff m n).0 same in rw (e, keep, bytes_eq_refl n) refl
  | inr other ↦
      let later = contains_name-retain p names n (rw other at h) keep in
      elim (Bool-cases (p m)) [ inl kept ↦ rw (kept, other) later | inr gone ↦ rw gone later ]
]

-- What is found or missing stays so.
partition-found :
    (found missing names : List Bytes) (n : Bytes)
    → contains_name found n ≡ true
    → contains_name (partition found missing names).0 n ≡ true
unfolding partition
partition-found found missing [] n h = h
partition-found found missing (m ∷ names) n h =
    elim (Bool-cases (contains_name supported_props (local_of m))) [
      | inl supported ↦ rw supported (elim (Bool-cases (contains_name found (local_of m))) [
        | inl twice ↦ rw twice (partition-found found missing names n h)
        | inr once ↦ rw once (
            partition-found (found ++ local_of m ∷ []) missing names n
              (rw (contains_name-append found (local_of m ∷ []) n, h) refl))
      ])
      | inr other ↦ rw other (partition-found found (missing ++ m ∷ []) names n h)
    ]

partition-missing :
    (found missing names : List Bytes) (n : Bytes)
    → contains_name missing n ≡ true
    → contains_name (partition found missing names).1 n ≡ true
unfolding partition
partition-missing found missing [] n h = h
partition-missing found missing (m ∷ names) n h =
    elim (Bool-cases (contains_name supported_props (local_of m))) [
      | inl supported ↦ rw supported (elim (Bool-cases (contains_name found (local_of m))) [
        | inl twice ↦ rw twice (partition-missing found missing names n h)
        | inr once ↦ rw once (partition-missing (found ++ local_of m ∷ []) missing names n h)
      ])
      | inr other ↦ rw other (
          partition-missing found (missing ++ m ∷ []) names n
            (rw (contains_name-append missing (m ∷ []) n, h) refl))
    ]

pub contains_name_cons :
    (m : Bytes) (names : List Bytes) (n : Bytes)
    → contains_name (m ∷ names) n ≡ true
    → (m ≡ n) ⊎ (contains_name names n ≡ true)
unfolding contains_name any
contains_name_cons m names n h = elim (Bool-cases (m == n)) [
  | inl same ↦ inl ((bytes_eq_iff m n).0 same)
  | inr other ↦ inr (rw other at h)
]

contains_name-last : (names : List Bytes) (n : Bytes) → contains_name (names ++ n ∷ []) n ≡ true
unfolding contains_name any
contains_name-last names n =
    let found = contains_name-append names (n ∷ []) n in rw found (ground (arith, bytes_eq_refl n))

-- Where a requested name goes: a supported local name is found, any other is missing.
abbrev pub sorted_in : List Bytes × List Bytes → Bytes → Bool
sorted_in (found, missing) n =
    if contains_name supported_props (local_of n)
    then contains_name found (local_of n)
    else contains_name missing n

partition_one :
    (found missing names : List Bytes) (n : Bytes)
    → sorted_in (partition found missing (n ∷ names)) n ≡ true
unfolding partition
partition_one found missing names n =
    elim (Bool-cases (contains_name supported_props (local_of n))) [
      | inl supported ↦ rw supported (elim (Bool-cases (contains_name found (local_of n))) [
        | inl twice ↦ rw twice (partition-found found missing names (local_of n) twice)
        | inr once ↦ rw once (
            partition-found (found ++ local_of n ∷ []) missing names (local_of n)
              (contains_name-last found (local_of n)))
      ])
      | inr other ↦
          rw other
            (partition-missing found (missing ++ n ∷ []) names n (contains_name-last missing n))
    ]

partition_later :
    (found missing : List Bytes) (m : Bytes) (names : List Bytes) (n : Bytes)
    → ((found' missing' : List Bytes) → sorted_in (partition found' missing' names) n ≡ true)
    → sorted_in (partition found missing (m ∷ names)) n ≡ true
unfolding partition
partition_later found missing m names n rest =
    elim (Bool-cases (contains_name supported_props (local_of m))) [
      | inl supported ↦ rw supported (rest _ missing)
      | inr other ↦ rw other (rest found (missing ++ m ∷ []))
    ]

-- Every requested name is where it belongs.
pub partition_lem :
    (found missing names : List Bytes) (n : Bytes)
    → contains_name names n ≡ true
    → sorted_in (partition found missing names) n ≡ true
unfolding contains_name any
partition_lem found missing [] n h = absurd (false≢true h)
partition_lem found missing (m ∷ names) n h = elim (contains_name_cons m names n h) [
  | inl e ↦ rw e (partition_one found missing names n)
  | inr later ↦
      partition_later found missing m names n
        (λ found' missing'. partition_lem found' missing' names n later)
]
