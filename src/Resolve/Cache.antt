-- ===== src/Resolve/Cache.antt =====
-- The cache of canonical parents: while it agrees with the disk, it changes no answer.
use rshs.App.{CanonicalCache, Platform}
use rshs.Common.{
  Bool-cases, Bytes, Option-cases, [], ap, arith, bytes_key, inl, inr, refl, some, sym, ◌==◌, ◌∙◌,
  ◌≡◌,
}
use rshs.FilePath.{FilePath, path_eq_iff, path_key}
use rshs.Map.{get}
use rshs.Map.Laws.{get-insert}
use rshs.Resolve.{canonical_parent, guard_place, parent_or, resolve_and_guard, resolve_write_target}

module _ {Disk : Type 0} (sys : Platform Disk) where
  -- Every cached folder still has the canonical path that the disk would give.
  abbrev pub CacheAgrees : Disk → CanonicalCache → Type 0
  CacheAgrees disk cache =
      (dir pc : FilePath) → get cache dir ≡ some pc → sys.canonicalize disk dir ≡ some pc

  canonical_parent-eq :
      (dir : FilePath) (disk : Disk) (cache : CanonicalCache)
      → CacheAgrees disk cache
      → (canonical_parent sys dir disk cache).0 ≡ sys.canonicalize disk dir
  unfolding canonical_parent
  canonical_parent-eq dir disk cache agrees = elim (Option-cases (get cache dir)) [
    | inl missed ↦ ground arith
    | inr (pc, found) ↦ ground (arith, agrees dir pc found)
  ]

  canonical_parent-CacheAgrees :
      (dir : FilePath) (disk : Disk) (cache : CanonicalCache)
      → CacheAgrees disk cache
      → CacheAgrees disk (canonical_parent sys dir disk cache).1
  unfolding canonical_parent
  canonical_parent-CacheAgrees dir disk cache agrees other pc e =
      elim (Option-cases (get cache dir)) [
        | inr (old, found) ↦ agrees other pc (ground arith)
        | inl missed ↦ elim (Option-cases (sys.canonicalize disk dir)) [
          | inl gone ↦ agrees other pc (ground arith)
          | inr (fresh, there) ↦
              let stored = get-insert cache dir other fresh in
              elim (Bool-cases (dir == other)) [
                | inl same ↦ ground (arith, stored, path_eq_iff dir other)
                | inr differ ↦ agrees other pc (ground (arith, stored))
              ]
        ]
      ]

  empty_get : (d pc : FilePath) → get {V = FilePath} [] d ≡ some pc → ⊥
  unfolding get
  empty_get d pc e = cc

  -- With a cache that agrees with the disk, the guard answers as with an empty cache, and the cache
  -- that it leaves agrees with the disk too.
  pub resolve_and_guard-cache :
      (root root_canonical : FilePath) (request_path : Bytes) (disk : Disk) (cache : CanonicalCache)
      → CacheAgrees disk cache
      → ((resolve_and_guard sys root root_canonical request_path disk cache).0
          ≡ (resolve_and_guard sys root root_canonical request_path disk []).0)
        × CacheAgrees disk (resolve_and_guard sys root root_canonical request_path disk cache).1
  unfolding resolve_and_guard
  resolve_and_guard-cache root root_canonical request_path disk cache agrees =
      elim (Option-cases (resolve_write_target sys.percent_decode root request_path)) [
        | inl none_left ↦ rw (none_left, resolve_and_guard) (refl, agrees)
        | inr (fs_path, target) ↦
            let dir = parent_or root fs_path in
            let nothing : CacheAgrees disk [] = λ d pc e. absurd (empty_get d pc e) in
            rw (target, resolve_and_guard)
              (
                ap (guard_place sys root_canonical fs_path) (
                    canonical_parent-eq dir disk cache agrees
                    ∙ sym (canonical_parent-eq dir disk [] nothing)),
                canonical_parent-CacheAgrees dir disk cache agrees,
              )
      ]
