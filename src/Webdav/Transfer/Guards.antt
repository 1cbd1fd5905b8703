-- ===== src/Webdav/Transfer/Guards.antt =====
-- A COPY or MOVE of src/handlers/webdav.rs that is refused changes nothing.
use rshs.App.{AppState, Platform, Request, Response, answer, fail, or_status, proceed}
use rshs.Common.{
  Bool, List, Option, Option-cases, [], arith, inl, inr, none, refl, reverse, some, suc, zero, ℕ,
  ◌++◌, ◌∷◌, ◌≡◌, ◌≢◌,
}
use rshs.FileHandlers.{existing_target, metadata_of}
use rshs.FilePath.{FilePath}
use rshs.Headers.{parse_depth}
use rshs.Http.{Result, StatusCode, err, internal_server_error, ok}
use rshs.Lock.{Depth}
use rshs.Resolve.State.{
  guarded_target, state_resolve_and_guard, state_resolve_existing, state_resolve_write_target,
}
use rshs.Webdav.Transfer.{
  Transfer, called, clear_target, copy_dir, copy_entries, copy_file, copy_stack, do_move_or_copy,
  finish_transfer, ignored_call, transfer_at, transfer_data, transfer_guard, write_target_of,
}

-- All but the cache of canonical parents is as it was.
module _ {Disk : Type 0} where
  abbrev pub IsKept : AppState Disk → AppState Disk → Type 0
  IsKept s s' = record s' { canonical_cache = s.canonical_cache } ≡ s

  module _ (sys : Platform Disk) where
    pub transfer_guard-IsKept :
        (req : Request) (s : AppState Disk) → IsKept s (transfer_guard sys req s).1
    unfolding transfer_guard existing_target write_target_of guarded_target metadata_of fail answer
        or_status state_resolve_existing state_resolve_write_target state_resolve_and_guard
    transfer_guard-IsKept req s = ground arith

    -- The copy itself answers with no other error than 500.
    copy_stack-error :
        (fuel : ℕ) (stack : List (FilePath × FilePath)) (disk disk' : Disk) (code : StatusCode)
        → copy_stack sys fuel stack disk ≡ some (err code, disk')
        → code ≡ internal_server_error
    unfolding copy_stack
    copy_stack-error fuel [] disk disk' code h = cc
    copy_stack-error zero (dir ∷ stack) disk disk' code h = cc
    copy_stack-error (suc fuel) ((src_dir, dest_dir) ∷ stack) disk disk' code h =
        elim (Option-cases (sys.read_dir disk src_dir)) [
          | inl unread ↦ ground (arith, rw (unread, copy_stack) at h)
          | inr (entries, opened) ↦
              let (dirs, disk'') = copy_entries sys src_dir dest_dir entries disk in
              elim (Option-cases dirs) [
                | inl failed ↦ ground (arith, rw (opened, failed, copy_stack) at h)
                | inr (found, e) ↦
                    copy_stack-error fuel (reverse found ++ stack) disk'' disk' code
                      (rw (opened, e, copy_stack) at h)
              ]
        ]

    transfer_data-error :
        (fuel : ℕ) (is_move : Bool) (depth : Depth) (t : Transfer) (disk disk' : Disk)
        (code : StatusCode)
        → transfer_data sys fuel is_move depth t disk ≡ some (err code, disk')
        → code ≡ internal_server_error
    unfolding transfer_data copy_dir copy_file called
    transfer_data-error fuel is_move depth t disk disk' code h = ground (
      arith,
      copy_stack-error fuel ((t.src, t.dest) ∷ []) disk disk' code,
      copy_stack-error fuel ((t.src, t.dest) ∷ []) (sys.create_dir disk t.dest).1 disk' code,
    )

    clear_target-error :
        (t : Transfer) (s : AppState Disk) (code : StatusCode)
        → (clear_target sys t s).0 ≡ err code
        → code ≡ internal_server_error
    unfolding clear_target ignored_call answer
    clear_target-error t s code h = ground arith

    -- Behind the guards, every error is 500.
    transfer_at-error :
        (fuel : ℕ) (is_move : Bool) (depth : Depth) (t : Transfer) (s s' : AppState Disk)
        (code : StatusCode)
        → transfer_at sys fuel is_move depth t s ≡ some (err code, s')
        → code ≡ internal_server_error
    unfolding transfer_at finish_transfer
    transfer_at-error fuel is_move depth t s s' code h =
        by_result (transfer_data sys fuel is_move depth t s.disk) refl h
      where
        by_result :
            (o : Option (Result (Unit {0}) × Disk))
            → transfer_data sys fuel is_move depth t s.disk ≡ o
            → (elim o as (λ x. Option (Result Response × AppState Disk)) [
              | none ↦ none
              | some (ok u, disk') ↦
                  some (finish_transfer sys is_move t (record s { disk = disk' }))
              | some (err c, disk') ↦ some (err c, record s { disk = disk' })
            ])
              ≡ some (err code, s')
            → code ≡ internal_server_error
        by_result none e k = cc
        by_result (some (ok u, disk')) e k = ground arith
        by_result (some (err c, disk')) e k =
            let same : c ≡ code = ground arith in
            rw (← same) (transfer_data-error fuel is_move depth t s.disk disk' c e)

    -- A COPY or MOVE that answers with an error other than 500 changes neither the disk nor the dead
    -- properties nor the locks, and nothing else but the cache of canonical parents.
    pub do_move_or_copy-refused :
        (fuel : ℕ) (is_move : Bool) (req : Request) (s s' : AppState Disk) (code : StatusCode)
        → do_move_or_copy sys fuel is_move req s ≡ some (err code, s')
        → code ≢ internal_server_error
        → IsKept s s'
    unfolding do_move_or_copy
    do_move_or_copy-refused fuel is_move req s s' code h other =
        after (transfer_guard sys req s).0 (transfer_guard sys req s).1
          (transfer_guard-IsKept req s) h
      where
        cleared :
            (r : Result Transfer) (t : Transfer) (s1 s2 : AppState Disk)
            → (clear_target sys t s1).0 ≡ r
            → (elim r as (λ x. Option (Result Response × AppState Disk)) [
              | ok t' ↦ transfer_at sys fuel is_move (parse_depth req.headers) t' s2
              | err c ↦ some (err c, s2)
            ])
              ≡ some (err code, s')
            → code ≡ internal_server_error
        cleared (ok t') t s1 s2 e k = transfer_at-error fuel is_move _ t' s2 s' code k
        cleared (err c) t s1 s2 e k =
            let same : c ≡ code = ground arith in rw (← same) (clear_target-error t s1 c e)

        after :
            (r : Result Transfer) (s1 : AppState Disk)
            → IsKept s s1
            → (let (guarded, s2) = proceed r (clear_target sys) s1 in
                elim guarded as (λ x. Option (Result Response × AppState Disk)) [
                  | ok t ↦ transfer_at sys fuel is_move (parse_depth req.headers) t s2
                  | err c ↦ some (err c, s2)
                ])
              ≡ some (err code, s')
            → IsKept s s'
        after (err c) s1 kept_so k = let same : s1 ≡ s' = ground arith in rw (← same) kept_so
        after (ok t) s1 kept_so k =
            absurd (other (cleared (clear_target sys t s1).0 t s1 (clear_target sys t s1).1 refl k))
