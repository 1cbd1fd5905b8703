-- ===== src/Server/Walks.antt =====
-- The WebDAV handlers that leave the lock store alone.
use rshs.App.{AppState, Platform, Request, Response, answer, fail, or_status, ◌>>=◌}
use rshs.Body.{PropPatchAction, parse_propfind_request}
use rshs.Body.Proppatch.{parse_proppatch_request}
use rshs.Common.{
  Bool, Bool-cases, Bytes, List, Option, arith, bytes_key, false, inl, inr, is_some, none, not,
  refl, some, true, ℕ, ◌&&◌, ◌==◌, ◌≡◌,
}
use rshs.FileHandlers.{existing_target, metadata_of}
use rshs.FilePath.{FilePath, path_key}
use rshs.Headers.{parse_depth, parse_destination, parse_overwrite}
use rshs.Http.{Result, bad_request, err, ok}
use rshs.Lock.{Depth, LockStore}
use rshs.Map.{nat_key}
use rshs.Resolve.State.{guarded_target, state_resolve_write_target}
use rshs.Server.{Surroundings, handle_copy, handle_move, walking}
use rshs.Server.Frame.{
  KeepsLocks, bind-KeepsLocks, existing_target-KeepsLocks, guarded_target-KeepsLocks,
  metadata_of-KeepsLocks, or_400-KeepsLocks, or_status-KeepsLocks,
}
use rshs.Webdav.{body_of, handle_proppatch, or_400, patch_at}
use rshs.Webdav.Propfind.{handle_propfind}
use rshs.Webdav.Transfer.{
  Transfer, clear_target, do_move_or_copy, finish_transfer, ignored_call, transfer_at,
  transfer_data, transfer_guard, write_target_of,
}

module _ {Disk : Type 0} where
  body_of-KeepsLocks : (req : Request) → KeepsLocks (body_of {Disk = Disk} req)
  unfolding body_of
  body_of-KeepsLocks req = or_status-KeepsLocks req.body bad_request

  patch_at-KeepsLocks :
      (path : Bytes) (p : FilePath) (actions : List PropPatchAction)
      → KeepsLocks (patch_at {Disk = Disk} path p actions)
  unfolding patch_at
  patch_at-KeepsLocks path p actions s = refl

module _ {Disk : Type 0} (sys : Platform Disk) where
  pub handle_proppatch-KeepsLocks : (req : Request) → KeepsLocks (handle_proppatch sys req)
  unfolding handle_proppatch
  handle_proppatch-KeepsLocks req =
      bind-KeepsLocks (existing_target sys req.path) _ (existing_target-KeepsLocks sys req.path)
        λ p. bind-KeepsLocks (body_of req) _ (body_of-KeepsLocks req) λ body.
          bind-KeepsLocks (or_400 (parse_proppatch_request sys.utf8_lossy sys.xml_events body)) _
            (or_400-KeepsLocks (parse_proppatch_request sys.utf8_lossy sys.xml_events body))
            (patch_at-KeepsLocks req.path p)

  pub handle_propfind-KeepsLocks :
      (linux : Bool) (fuel now : ℕ) (req : Request)
      → KeepsLocks (handle_propfind sys linux fuel now req)
  unfolding handle_propfind
  handle_propfind-KeepsLocks linux fuel now req =
      bind-KeepsLocks (existing_target sys req.path) _ (existing_target-KeepsLocks sys req.path)
        λ p. bind-KeepsLocks (body_of req) _ (body_of-KeepsLocks req) λ body.
          bind-KeepsLocks (or_400 (parse_propfind_request sys.utf8_lossy (sys.xml_events body))) _
            (or_400-KeepsLocks (parse_propfind_request sys.utf8_lossy (sys.xml_events body)))
            λ request s. refl

  write_target_of-KeepsLocks : (path : Bytes) → KeepsLocks (write_target_of sys path)
  unfolding write_target_of state_resolve_write_target or_status
  write_target_of-KeepsLocks path s = ground arith

  -- the checks behind the resolution of the target
  transfer_end :
      (req : Request) (src dest : FilePath) (existed : Bool)
      → KeepsLocks {A = Transfer} (
          metadata_of sys src >>= λ meta. answer (record {
            src = src;
            dest = dest;
            meta = meta;
            dest_existed_before = existed;
            dest_existed = existed;
          }))
  unfolding answer
  transfer_end req src dest existed =
      bind-KeepsLocks (metadata_of sys src) _ (metadata_of-KeepsLocks sys src) λ meta s. refl

  transfer_guard-KeepsLocks : (req : Request) → KeepsLocks (transfer_guard sys req)
  unfolding transfer_guard fail
  transfer_guard-KeepsLocks req =
      bind-KeepsLocks (or_status (parse_destination sys.percent_decode req.headers) bad_request) _
        (or_status-KeepsLocks (parse_destination sys.percent_decode req.headers) bad_request)
        λ dest_str.
          bind-KeepsLocks (existing_target sys req.path) _ (existing_target-KeepsLocks sys req.path)
            λ src.
              bind-KeepsLocks (write_target_of sys dest_str) _ (write_target_of-KeepsLocks dest_str)
                λ dest. elim (Bool-cases (src == dest)) [
                  | inl same ↦ λ s. rw same refl
                  | inr other ↦ λ s. rw other (
                      bind-KeepsLocks (guarded_target sys bad_request dest_str) _
                        (guarded_target-KeepsLocks sys bad_request dest_str)
                        (λ target t.
                          elim (Bool-cases (
                            is_some (sys.metadata t.disk target)
                            && not (parse_overwrite req.headers))) [
                              | inl blocked ↦ rw blocked refl
                              | inr open_to ↦ rw open_to (
                                  transfer_end req src target (is_some (sys.metadata t.disk target))
                                    t)
                            ])
                        s)
                ]

  clear_target-KeepsLocks : (t : Transfer) → KeepsLocks (clear_target sys t)
  unfolding clear_target ignored_call answer
  clear_target-KeepsLocks t s = ground arith

  -- A state that a walk ends in, if its fuel is enough, has the same locks.
  abbrev EndsWith : LockStore → Option (Result Response × AppState Disk) → Type 0
  EndsWith locks none = Unit
  EndsWith locks (some (r, s')) = s'.locks ≡ locks

  transfer_at-EndsWith :
      (fuel : ℕ) (is_move : Bool) (depth : Depth) (t : Transfer) (s : AppState Disk)
      → EndsWith s.locks (transfer_at sys fuel is_move depth t s)
  unfolding transfer_at finish_transfer
  transfer_at-EndsWith fuel is_move depth t s =
      of_data (transfer_data sys fuel is_move depth t s.disk)
    where
      of_data :
          (o : Option (Result (Unit {0}) × Disk))
          → EndsWith s.locks (elim o [
            | none ↦ none
            | some (ok u, disk') ↦ some (finish_transfer sys is_move t (record s { disk = disk' }))
            | some (err code, disk') ↦ some (err code, record s { disk = disk' })
          ])
      of_data none = tt
      of_data (some (ok u, disk')) = refl
      of_data (some (err code, disk')) = refl

  do_move_or_copy-EndsWith :
      (fuel : ℕ) (is_move : Bool) (req : Request) (s : AppState Disk)
      → EndsWith s.locks (do_move_or_copy sys fuel is_move req s)
  unfolding do_move_or_copy
  do_move_or_copy-EndsWith fuel is_move req s =
      of_guarded ((transfer_guard sys req >>= clear_target sys) s) (
        bind-KeepsLocks (transfer_guard sys req) (clear_target sys) (transfer_guard-KeepsLocks req)
          clear_target-KeepsLocks s)
    where
      of_guarded :
          (r : Result Transfer × AppState Disk)
          → r.1.locks ≡ s.locks
          → EndsWith s.locks (elim r.0 [
            | ok t ↦ transfer_at sys fuel is_move (parse_depth req.headers) t r.1
            | err code ↦ some (err code, r.1)
          ])
      of_guarded (ok t, s') same =
          rw (← same) (transfer_at-EndsWith fuel is_move (parse_depth req.headers) t s')
      of_guarded (err code, s') same = same

  walking-KeepsLocks :
      (env : Surroundings) (s : AppState Disk) (o : Option (Result Response × AppState Disk))
      → EndsWith s.locks o
      → (walking sys env o s).1.locks ≡ s.locks
  unfolding walking
  walking-KeepsLocks env s none e = refl
  walking-KeepsLocks env s (some (r, s')) e = e

  pub handle_copy-KeepsLocks :
      (env : Surroundings) (req : Request) → KeepsLocks (handle_copy sys env req)
  unfolding handle_copy
  handle_copy-KeepsLocks env req s =
      walking-KeepsLocks env s (do_move_or_copy sys env.fuel false req s)
        (do_move_or_copy-EndsWith env.fuel false req s)

  pub handle_move-KeepsLocks :
      (env : Surroundings) (req : Request) → KeepsLocks (handle_move sys env req)
  unfolding handle_move
  handle_move-KeepsLocks env req s =
      walking-KeepsLocks env s (do_move_or_copy sys env.fuel true req s)
        (do_move_or_copy-EndsWith env.fuel true req s)
