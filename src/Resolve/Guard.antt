-- ===== src/Resolve/Guard.antt =====
-- Every path that a request is resolved to lies in the served root.
use rshs.App.{CanonicalCache, Platform}
use rshs.Common.{
  All, Bytes, Option-cases, [], any, ap, append_assoc, arith, false, inl, inr, is_empty, refl, some,
  sym, trim_start_matches, true, ◌++◌, ◌∙◌, ◌∷◌, ◌≡◌, ◌≢◌,
}
use rshs.FilePath.{
  FilePath, cur_dir, file_name, join, normal, parent_dir, parse_path, root_dir, split_slash,
  starts_with,
}
use rshs.LockStore.Ancestor.{IsName}
use rshs.Resolve.{
  canonical_parent, ends_with_slash, is_dots, panicked, parent_or, place, resolve_and_guard,
  resolve_existing, resolve_write_target, resolved,
}
use rshs.Resolve.Segments.{IsNamed, parse_path-IsNamed, trim_start_matches-IsRelativeText}

join-append : (p q : FilePath) → All IsName q → join p q ≡ p ++ q
unfolding join
join-append [] [] h = refl
join-append (a ∷ p) [] h = refl
join-append [] (normal s ∷ q) h = refl
join-append (a ∷ p) (normal s ∷ q) h = refl
join-append p (root_dir ∷ q) (h, _) = elim h [ ]
join-append p (cur_dir ∷ q) (h, _) = elim h [ ]
join-append p (parent_dir ∷ q) (h, _) = elim h [ ]

-- A write target is the root with at least one name behind it, whatever the request path decodes
-- to: no component is "." or "..", and none is absolute.
pub resolve_write_target_sound :
    (percent_decode : Bytes → Bytes) (root : FilePath) (request_path : Bytes) {p : FilePath}
    → resolve_write_target percent_decode root request_path ≡ some p
    → (names : FilePath) × (p ≡ root ++ names) × IsNamed names
unfolding resolve_write_target
resolve_write_target_sound percent_decode root request_path {p} h =
    let t = trim_start_matches b'/' (percent_decode request_path) in
    let full : is_empty t ≡ false = ground arith in
    let no_end : ends_with_slash t ≡ false = ground arith in
    let plain : any is_dots (split_slash t) ≡ false = ground arith in
    let named =
      parse_path-IsNamed t (trim_start_matches-IsRelativeText (percent_decode request_path)) full
        no_end plain in
    let place : join root (parse_path t) ≡ p = ground arith in
    (parse_path t, sym place ∙ join-append root (parse_path t) named.named, named)

file_name-last : (p : FilePath) (s : Bytes) → file_name (p ++ normal s ∷ []) ≡ some s
unfolding file_name
file_name-last [] s = refl
file_name-last (c ∷ []) s = refl
file_name-last (c ∷ d ∷ p) s = file_name-last (d ∷ p) s

module _ {Disk : Type 0} (sys : Platform Disk) where
  -- A path of a read request is inside the root.
  pub resolve_existing-inside :
      (root root_canonical : FilePath) (request_path : Bytes) (disk : Disk) {p : FilePath}
      → resolve_existing sys root root_canonical request_path disk ≡ some p
      → starts_with p root_canonical ≡ true
  unfolding resolve_existing
  resolve_existing-inside root root_canonical request_path disk h = ground arith

  -- What the guard has established of a write target.
  pub record IsGuarded (root_canonical p : FilePath) : Type 0 where
    pub folder : FilePath
    pub name : Bytes
    pub split : p ≡ folder ++ normal name ∷ []
    pub plain : IsName (normal name)
    pub inside : starts_with folder root_canonical ≡ true

  last-IsName :
      (folders : FilePath) (s : Bytes) → All IsName (folders ++ normal s ∷ []) → IsName (normal s)
  last-IsName [] s (h, _) = h
  last-IsName (c ∷ folders) s (_, h) = last-IsName folders s h

  place_sound :
      (root_canonical root parent_canonical : FilePath) (fs_path p : FilePath)
      → IsNamed fs_path
      → place root_canonical (root ++ fs_path) parent_canonical ≡ resolved p
      → IsGuarded root_canonical p
  unfolding place
  place_sound root_canonical root parent_canonical fs_path p named h =
      let last : file_name (root ++ fs_path) ≡ some named.name =
        ap (λ q. file_name (root ++ q)) named.split
        ∙ ap file_name (sym (append_assoc root named.folders (normal named.name ∷ [])))
        ∙ file_name-last (root ++ named.folders) named.name in
      let plain = last-IsName named.folders named.name (rw named.split at named.named) in
      let joined = join-append parent_canonical (normal named.name ∷ []) (plain, tt) in
      record {
        folder = parent_canonical;
        name = named.name;
        split = ground (arith, last, joined);
        plain = plain;
        inside = ground arith;
      }

  -- A path of a write request is a plain file name in a folder inside the root, so it is never the
  -- root itself or a path outside; this holds whatever the cache holds.
  pub resolve_and_guard_sound :
      (root root_canonical : FilePath) (request_path : Bytes) (disk : Disk) (cache : CanonicalCache)
      {p : FilePath}
      → (resolve_and_guard sys root root_canonical request_path disk cache).0 ≡ resolved p
      → IsGuarded root_canonical p
  unfolding resolve_and_guard
  resolve_and_guard_sound root root_canonical request_path disk cache {p} h =
      elim (Option-cases (resolve_write_target sys.percent_decode root request_path)) [
        | inl none_left ↦ ground arith
        | inr (fs_path, target) ↦
            let (names, split, named) =
              resolve_write_target_sound sys.percent_decode root request_path target in
            elim (Option-cases (canonical_parent sys (parent_or root fs_path) disk cache).0) [
              | inl unknown ↦ ground arith
              | inr (pc, found) ↦
                  place_sound root_canonical root pc names p named (ground (arith, split))
            ]
      ]

  -- The `unwrap` of the file name never panics.
  pub resolve_and_guard-ne-panicked :
      (root root_canonical : FilePath) (request_path : Bytes) (disk : Disk) (cache : CanonicalCache)
      → (resolve_and_guard sys root root_canonical request_path disk cache).0 ≢ panicked
  unfolding resolve_and_guard place
  resolve_and_guard-ne-panicked root root_canonical request_path disk cache h =
      elim (Option-cases (resolve_write_target sys.percent_decode root request_path)) [
        | inl none_left ↦ ground arith
        | inr (fs_path, target) ↦
            let (names, split, named) =
              resolve_write_target_sound sys.percent_decode root request_path target in
            let last : file_name fs_path ≡ some named.name =
              ap file_name (
                split
                ∙ ap (λ q. root ++ q) named.split
                ∙ sym (append_assoc root named.folders (normal named.name ∷ [])))
              ∙ file_name-last (root ++ named.folders) named.name in
            elim (Option-cases (canonical_parent sys (parent_or root fs_path) disk cache).0) [
              | inl unknown ↦ ground arith
              | inr (pc, found) ↦ ground (arith, last)
            ]
      ]
