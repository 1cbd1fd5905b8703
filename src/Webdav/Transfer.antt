-- ===== src/Webdav/Transfer.antt =====
-- COPY and MOVE of src/handlers/webdav.rs. A walk over directories is on fuel: `none` means that the
-- fuel is not enough.
pub mod Props
pub mod Guards
pub mod Fuel
pub mod Outside
pub mod Inside
pub mod Rooted
use rshs.App.{
  AppState, DeadPropertyStore, DirEntry, FileType, Handler, IoOutcome, Metadata, Platform, Request,
  Response, answer, fail, io_done, io_exists, io_failed, is_done, or_status, status_only, type_dir,
  type_other, type_symlink, ◌>>=◌, ◌>>◌,
}
use rshs.Common.{
  Bool, Bytes, List, Option, [], bytes_key, false, if◌then◌else◌, is_some, map_some, none, not,
  reverse, some, suc, true, zero, ℕ, ◌&&◌, ◌++◌, ◌==◌, ◌∷◌,
}
use rshs.FileHandlers.{existing_target, metadata_of}
use rshs.FilePath.{FilePath, join, normal, path_key}
use rshs.Headers.{parse_depth, parse_destination, parse_overwrite}
use rshs.Http.{
  Result, bad_request, err, forbidden, internal_server_error, no_content, ok, precondition_failed,
  status_created,
}
use rshs.Lock.{Depth, is_zero}
use rshs.Map.{get, insert, nat_key, remove}
use rshs.Resolve.State.{guarded_target, state_resolve_write_target}

-- what the guards of `do_move_or_copy` let through
pub record Transfer : Type 0 where
  pub src : FilePath
  pub dest : FilePath
  pub meta : Metadata
  pub dest_existed_before : Bool
  pub dest_existed : Bool

unfoldable pub migrate_props : Bool → FilePath → FilePath → DeadPropertyStore → DeadPropertyStore
unfolding get insert remove
migrate_props is_move src dest dead_props = elim (get dead_props src) [
  | none ↦ dead_props
  | some props ↦
      let without = remove dead_props src in
      insert (if is_move then without else insert without src props) dest props
]

module _ {Disk : Type 0} (sys : Platform Disk) where
  -- a call whose result is thrown away
  unfoldable pub ignored_call : (Disk → IoOutcome × Disk) → Handler Disk (Unit {0})
  ignored_call call s = (ok tt, record s { disk = (call s.disk).1 })

  unfoldable pub write_target_of : Bytes → Handler Disk FilePath
  unfolding state_resolve_write_target or_status
  write_target_of request_path = do
    found ← state_resolve_write_target sys request_path
    or_status found forbidden

  -- the checks, which write nothing but the cache
  unfoldable pub transfer_guard : Request → Handler Disk Transfer
  unfolding or_status existing_target write_target_of guarded_target metadata_of fail answer
      parse_overwrite parse_destination
  transfer_guard req = do
    dest_str ← or_status (parse_destination sys.percent_decode req.headers) bad_request
    fs_src ← existing_target sys req.path
    fs_dest ← write_target_of dest_str
    if fs_src == fs_dest then fail forbidden else do
      dest ← guarded_target sys bad_request dest_str
      dest_existed ← (λ s. (ok (is_some (sys.metadata s.disk dest)), s))
      if dest_existed && not (parse_overwrite req.headers) then fail precondition_failed else do
        meta ← metadata_of sys fs_src
        answer (record {
          src = fs_src;
          dest = dest;
          meta = meta;
          dest_existed_before = dest_existed;
          dest_existed = dest_existed;
        })

  -- A target of the other kind is removed first.
  unfoldable pub clear_target : Transfer → Handler Disk Transfer
  unfolding ignored_call answer
  clear_target t s = elim (sys.metadata s.disk t.dest) [
    | none ↦ answer t s
    | some dest_meta ↦
        if not t.dest_existed
        then answer t s
        else if not t.meta.is_dir && dest_meta.is_dir
        then (ignored_call (λ d. sys.remove_dir_all d t.dest)
              >> answer (record t { dest_existed = false }))
            s
        else if t.meta.is_dir && dest_meta.is_file
        then (ignored_call (λ d. sys.remove_file d t.dest)
              >> answer (record t { dest_existed = false }))
            s
        else answer t s
  ]

  -- what `create_dir` of a directory below the target may answer
  unfoldable pub made : IoOutcome → Bool
  made io_done = true
  made io_exists = true
  made io_failed = false

  -- One entry, whose type may be unreadable: a directory is made and goes on the stack, a file is
  -- copied, a symbolic link is left out. `none` for an error.
  unfoldable pub copy_entry :
      FilePath → FilePath → Option FileType → Disk → Option (List (FilePath × FilePath)) × Disk
  unfolding made
  copy_entry entry_src entry_dest none disk = (none, disk)
  copy_entry entry_src entry_dest (some type_dir) disk =
      let (outcome, disk') = sys.create_dir disk entry_dest in
      (if made outcome then some ((entry_src, entry_dest) ∷ []) else none, disk')
  copy_entry entry_src entry_dest (some type_symlink) disk = (some [], disk)
  copy_entry entry_src entry_dest (some type_other) disk =
      let (outcome, disk') = sys.copy disk entry_src entry_dest in
      (if is_done outcome then some [] else none, disk')

  -- The entries of an open directory, and the directories among them.
  unfoldable pub copy_entries :
      FilePath
      → FilePath
      → List (Option DirEntry)
      → Disk
      → Option (List (FilePath × FilePath)) × Disk
  unfolding copy_entry
  copy_entries src_dir dest_dir [] disk = (some [], disk)
  copy_entries src_dir dest_dir (none ∷ entries) disk = (none, disk)
  copy_entries src_dir dest_dir (some e ∷ entries) disk =
      let name = normal e.name ∷ [] in
      let (pushed, disk') = copy_entry (join src_dir name) (join dest_dir name) e.file_type disk in
      let (more, disk'') = copy_entries src_dir dest_dir entries disk' in
      elim pushed [
        | none ↦ (none, disk')
        | some dirs ↦ (map_some (λ found. dirs ++ found) more, disk'')
      ]

  -- The loop over the stack, whose top is the head of the list; the last directory found is the next.
  unfoldable pub copy_stack :
      ℕ → List (FilePath × FilePath) → Disk → Option (Result (Unit {0}) × Disk)
  unfolding copy_entries
  copy_stack fuel [] disk = some (ok tt, disk)
  copy_stack zero (dir ∷ stack) disk = none
  copy_stack (suc fuel) ((src_dir, dest_dir) ∷ stack) disk = elim (sys.read_dir disk src_dir) [
    | none ↦ some (err internal_server_error, disk)
    | some entries ↦
        let (dirs, disk') = copy_entries src_dir dest_dir entries disk in
        elim dirs [
          | none ↦ some (err internal_server_error, disk')
          | some found ↦ copy_stack fuel (reverse found ++ stack) disk'
        ]
  ]

  unfoldable pub copy_dir :
      ℕ → FilePath → FilePath → Bool → Disk → Option (Result (Unit {0}) × Disk)
  unfolding copy_stack
  copy_dir fuel src dest dest_existed disk =
      if dest_existed
      then copy_stack fuel ((src, dest) ∷ []) disk
      else (let (outcome, disk') = sys.create_dir disk dest in
          elim outcome [
            | io_done ↦ copy_stack fuel ((src, dest) ∷ []) disk'
            | _ ↦ some (err internal_server_error, disk')
          ])

  -- a call that answers 500 for every error
  unfoldable pub called : IoOutcome × Disk → Result (Unit {0}) × Disk
  called (io_done, disk) = (ok tt, disk)
  called (_, disk) = (err internal_server_error, disk)

  unfoldable pub copy_file : FilePath → FilePath → Disk → Result (Unit {0}) × Disk
  unfolding called
  copy_file src dest disk = called (sys.copy disk src dest)

  -- the copy itself, shallow for a COPY of depth 0
  unfoldable pub transfer_data :
      ℕ → Bool → Depth → Transfer → Disk → Option (Result (Unit {0}) × Disk)
  unfolding copy_dir copy_file called
  transfer_data fuel is_move depth t disk =
      if not t.meta.is_dir
      then some (copy_file t.src t.dest disk)
      else if not is_move && is_zero depth
      then (if t.dest_existed
          then some (ok tt, disk)
          else some (called (sys.create_dir disk t.dest)))
      else copy_dir fuel t.src t.dest t.dest_existed disk

  -- MOVE: the source goes, by the rename or else by its removal
  unfoldable pub drop_source : Bool → Transfer → Disk → Disk
  drop_source is_move t disk =
      if is_move
      then (let (outcome, disk') = sys.rename disk t.src t.dest in
          elim outcome [
            | io_done ↦ disk'
            | _ ↦
                if t.meta.is_dir
                then (sys.remove_dir_all disk' t.src).1
                else (sys.remove_file disk' t.src).1
          ])
      else disk

  unfoldable pub finish_transfer : Bool → Transfer → AppState Disk → Result Response × AppState Disk
  unfolding drop_source migrate_props
  finish_transfer is_move t s = (
    ok (status_only (if t.dest_existed_before then no_content else status_created)),
    record s {
      disk = drop_source is_move t s.disk;
      dead_props = migrate_props is_move t.src t.dest s.dead_props;
    },
  )

  unfoldable pub transfer_at :
      ℕ → Bool → Depth → Transfer → AppState Disk → Option (Result Response × AppState Disk)
  unfolding transfer_data finish_transfer
  transfer_at fuel is_move depth t s = elim (transfer_data fuel is_move depth t s.disk) [
    | none ↦ none
    | some (ok u, disk') ↦ some (finish_transfer is_move t (record s { disk = disk' }))
    | some (err code, disk') ↦ some (err code, record s { disk = disk' })
  ]

  unfoldable pub do_move_or_copy :
      ℕ → Bool → Request → AppState Disk → Option (Result Response × AppState Disk)
  unfolding transfer_guard clear_target transfer_at parse_depth
  do_move_or_copy fuel is_move req s =
      let (guarded, s') = (transfer_guard req >>= clear_target) s in
      elim guarded [
        | ok t ↦ transfer_at fuel is_move (parse_depth req.headers) t s'
        | err code ↦ some (err code, s')
      ]
