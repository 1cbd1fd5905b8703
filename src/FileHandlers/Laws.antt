-- ===== src/FileHandlers/Laws.antt =====
-- What the file handlers may change on the disk.
use rshs.App.{
  AppState, Handler, IoOutcome, Metadata, Platform, Request, Response, answer, fail, io_done,
  or_status, proceed, status_only, ◌>>=◌,
}
use rshs.Common.{
  Bool-cases, Bytes, Option-cases, ap, arith, bytes_key, false, false≢true, if◌then◌else◌, inl, inr,
  none, refl, some, sym, trim_end_matches, true, ◌==◌, ◌∙◌, ◌≡◌, ◌⊎◌,
}
use rshs.FileHandlers.{
  delete_at, disk_call, existing_target, handle_delete, handle_mkcol, handle_put, has_body,
  metadata_of, mkcol_at, put_at,
}
use rshs.FilePath.{FilePath, path_key, starts_with}
use rshs.Http.{StatusCode, bad_request, forbidden, no_content, ok, status_created, status_ok}
use rshs.Map.{nat_key}
use rshs.Resolve.{
  ResolveTargetError, Resolved, panicked, refused, resolve_and_guard, resolve_existing, resolved,
}
use rshs.Resolve.Guard.{IsGuarded, resolve_and_guard_sound, resolve_existing-inside}
use rshs.Resolve.State.{guarded_target, or_invalid, state_resolve_and_guard, state_resolve_existing}
use rshs.Webdav.Transfer.{made}

module _ {Disk : Type 0} (sys : Platform Disk) where
  disk_call-after :
      (call : Disk → IoOutcome × Disk) (r : Response) (t : AppState Disk)
      → (proceed (disk_call sys call t).0 (λ _. answer r) (disk_call sys call t).1).1
        ≡ record t { disk = (call t.disk).1 }
  unfolding disk_call answer
  disk_call-after call r t = ground (arith)

  disk_call-answer :
      (call : Disk → IoOutcome × Disk) (r r' : Response) (t : AppState Disk)
      → (proceed (disk_call sys call t).0 (λ _. answer r) (disk_call sys call t).1).0 ≡ ok r'
      → r' ≡ r
  unfolding disk_call answer
  disk_call-answer call r r' t h = ground (arith)

  disk_call-done :
      (call : Disk → IoOutcome × Disk) (r r' : Response) (t : AppState Disk)
      → (proceed (disk_call sys call t).0 (λ _. answer r) (disk_call sys call t).1).0 ≡ ok r'
      → (call t.disk).0 ≡ io_done
  unfolding disk_call answer
  disk_call-done call r r' t h = ground (arith)

  -- the call that removes a path, as its metadata says
  abbrev pub removal : FilePath → Metadata → Disk → IoOutcome × Disk
  removal p meta d = if meta.is_dir then sys.remove_dir_all d p else sys.remove_file d p

  delete_at-removes :
      (p : FilePath) (meta : Metadata) (t : AppState Disk) (r : Response)
      → (delete_at sys p meta t).0 ≡ ok r
      → ((meta.is_dir ≡ true) → (p == t.root_canonical) ≡ false)
        × ((removal p meta t.disk).0 ≡ io_done)
        × ((delete_at sys p meta t).1 ≡ record t { disk = (removal p meta t.disk).1 })
  unfolding delete_at fail
  delete_at-removes p meta t r h = elim (Bool-cases meta.is_dir) [
    | inl folder ↦ elim (Bool-cases (p == t.root_canonical)) [
      | inl root ↦ ground (arith)
      | inr below ↦
          let ran : (proceed (disk_call sys (λ d. sys.remove_dir_all d p) t).0
                (λ _. answer (status_only no_content))
                (disk_call sys (λ d. sys.remove_dir_all d p) t).1).0
              ≡ ok r =
            rw below at (rw (folder, delete_at) at h) in
          rw (folder, delete_at)
            (rw below (
              λ _. refl,
              disk_call-done (λ d. sys.remove_dir_all d p) (status_only no_content) r t ran,
              disk_call-after (λ d. sys.remove_dir_all d p) (status_only no_content) t,
            ))
    ]
    | inr file ↦
        let ran : (proceed (disk_call sys (λ d. sys.remove_file d p) t).0
              (λ _. answer (status_only no_content))
              (disk_call sys (λ d. sys.remove_file d p) t).1).0
            ≡ ok r =
          rw (file, delete_at) at h in
        rw (file, delete_at)
          (
            λ e. absurd (false≢true e),
            disk_call-done (λ d. sys.remove_file d p) (status_only no_content) r t ran,
            disk_call-after (λ d. sys.remove_file d p) (status_only no_content) t,
          )
  ]

  mkcol_at-creates :
      (p : FilePath) (t : AppState Disk) (r : Response)
      → (mkcol_at sys p t).0 ≡ ok r
      → (r ≡ status_only status_created)
        × (sys.metadata t.disk p ≡ none)
        × ((mkcol_at sys p t).1.disk ≡ (sys.create_dir t.disk p).1)
  unfolding mkcol_at fail
  mkcol_at-creates p t r h = elim (Option-cases (sys.metadata t.disk p)) [
    | inr (meta, there) ↦ ground (arith)
    | inl free ↦
        let ran = disk_call-after (λ d. sys.create_dir d p) (status_only status_created) t in
        (
          disk_call-answer (λ d. sys.create_dir d p) (status_only status_created) r t
              (let shape : mkcol_at sys p t
                    ≡ proceed (disk_call sys (λ d. sys.create_dir d p) t).0
                        (λ _. answer (status_only status_created))
                        (disk_call sys (λ d. sys.create_dir d p) t).1 =
                  rw (free, mkcol_at) refl in
                sym (ap (λ x. x.0) shape) ∙ h),
          free,
          rw (free, mkcol_at) (ap (λ u. u.disk) ran),
        )
  ]

  -- A file is created or emptied, the bytes are written to it, and it is flushed; each call succeeds.
  pub record IsWritten (p : FilePath) (stream : Bytes) (d d' : Disk) : Type 0 where
    pub created : (sys.create_file d p).0 ≡ io_done
    pub written : (sys.write_stream (sys.create_file d p).1 p stream).0 ≡ io_done
    pub flushed : (sys.flush (sys.write_stream (sys.create_file d p).1 p stream).1 p).0 ≡ io_done
    pub disk_eq : d' ≡ (sys.flush (sys.write_stream (sys.create_file d p).1 p stream).1 p).1

  put_at-writes :
      (req : Request) (p : FilePath) (t : AppState Disk) (r : Response)
      → (put_at sys req p t).0 ≡ ok r
      → (r ≡ status_only (if sys.try_exists t.disk p then status_ok else status_created))
        × IsWritten p req.stream t.disk (put_at sys req p t).1.disk
  unfolding put_at disk_call answer
  put_at-writes req p t r h = (
    ground (arith),
    record {
      created = ground (arith);
      written = ground (arith);
      flushed = ground (arith);
      disk_eq = ground (arith);
    },
  )

pub Resolved-cases :
    (x : Resolved)
    → ((p : FilePath) × (x ≡ resolved p))
      ⊎ (((e : ResolveTargetError) × (x ≡ refused e)) ⊎ (x ≡ panicked))
Resolved-cases (resolved p) = inl (p, refl)
Resolved-cases (refused e) = inr (inl (e, refl))
Resolved-cases panicked = inr (inr refl)

module _ {Disk : Type 0} (sys : Platform Disk) (s : AppState Disk) (on_invalid : StatusCode)
    (request_path : Bytes) where
  abbrev after_guard : AppState Disk
  after_guard = record s {
    canonical_cache =
        (resolve_and_guard sys s.root_dir s.root_canonical request_path s.disk s.canonical_cache).1;
  }

  -- A handler that succeeds behind the guard has run at a guarded path.
  guarded_target-runs :
      {A : Type 0} (k : FilePath → Handler Disk A) (r : A)
      → ((guarded_target sys on_invalid request_path >>= k) s).0 ≡ ok r
      → (p : FilePath) × ((resolve_and_guard sys s.root_dir s.root_canonical request_path s.disk
            s.canonical_cache).0
          ≡ resolved p)
        × ((guarded_target sys on_invalid request_path >>= k) s ≡ k p after_guard)
  unfolding guarded_target state_resolve_and_guard or_invalid
  guarded_target-runs k r h =
      elim (Resolved-cases
        (resolve_and_guard sys s.root_dir s.root_canonical request_path s.disk
          s.canonical_cache).0) [
            | inl (p, found) ↦ (p, found, rw found refl)
            | inr (inl (e, bad)) ↦ ground (arith)
            | inr (inr lost) ↦ ground (arith)
          ]

module _ {Disk : Type 0} (sys : Platform Disk) (req : Request) (s : AppState Disk) where
  -- A DELETE that succeeds has removed the path that its request resolves to, which is inside the
  -- served root: the one call that it makes, for a folder or for a file as the metadata says, has
  -- succeeded, and the root itself is never removed as a folder. All but the disk is as it was.
  pub handle_delete-removes :
      {r : Response}
      → (handle_delete sys req s).0 ≡ ok r
      → (p : FilePath) × (meta : Metadata) × (resolve_existing sys s.root_dir s.root_canonical
            req.path s.disk
          ≡ some p)
        × (starts_with p s.root_canonical ≡ true)
        × (sys.metadata s.disk p ≡ some meta)
        × ((meta.is_dir ≡ true) → (p == s.root_canonical) ≡ false)
        × ((removal sys p meta s.disk).0 ≡ io_done)
        × ((handle_delete sys req s).1 ≡ record s { disk = (removal sys p meta s.disk).1 })
  unfolding handle_delete existing_target metadata_of state_resolve_existing or_status
  handle_delete-removes {r} h =
      elim (Option-cases (resolve_existing sys s.root_dir s.root_canonical req.path s.disk)) [
        | inl nowhere ↦ ground (arith)
        | inr (p, found) ↦ elim (Option-cases (sys.metadata s.disk p)) [
          | inl gone ↦ ground (arith)
          | inr (meta, there) ↦
              let whole : handle_delete sys req s ≡ delete_at sys p meta s =
                rw (found, handle_delete) (rw there refl) in
              let (not_root, done, removed) =
                delete_at-removes sys p meta s r (sym (ap (λ x. x.0) whole) ∙ h) in
              (
                p,
                meta,
                found,
                resolve_existing-inside sys s.root_dir s.root_canonical req.path s.disk found,
                there,
                not_root,
                done,
                ap (λ x. x.1) whole ∙ removed,
              )
        ]
      ]

  -- An MKCOL that succeeds has answered with 201 and created a folder with a plain name in a folder
  -- inside the served root, where nothing was.
  pub handle_mkcol-creates :
      {r : Response}
      → (handle_mkcol sys req s).0 ≡ ok r
      → (r ≡ status_only status_created)
        × ((p : FilePath) × IsGuarded sys s.root_canonical p
            × (sys.metadata s.disk p ≡ none)
            × ((handle_mkcol sys req s).1.disk ≡ (sys.create_dir s.disk p).1))
  unfolding handle_mkcol fail
  handle_mkcol-creates {r} h = elim (Bool-cases (has_body req.headers)) [
    | inl unsupported ↦ ground (arith)
    | inr empty ↦
        let path = trim_end_matches b'/' req.path in
        let whole : handle_mkcol sys req s
            ≡ (guarded_target sys forbidden path >>= mkcol_at sys) s =
          rw (empty, handle_mkcol) refl in
        let (p, found, run) =
          guarded_target-runs sys s forbidden path (mkcol_at sys) r
            (sym (ap (λ x. x.0) whole) ∙ h) in
        let (answered, free, made) =
          mkcol_at-creates sys p (after_guard sys s forbidden path) r
            (sym (ap (λ x. x.0) (whole ∙ run)) ∙ h) in
        (
          answered,
          (
            p,
            resolve_and_guard_sound sys s.root_dir s.root_canonical path s.disk s.canonical_cache
                found,
            free,
            ap (λ x. x.1.disk) (whole ∙ run) ∙ made,
          ),
        )
  ]

  -- A PUT that succeeds has written the bytes of its request to the path that the request resolves
  -- to, a plain name in a folder inside the served root: the creation, the write and the flush have
  -- all succeeded. It answers with 200 exactly if a file was there before, and else with 201.
  pub handle_put-writes :
      {r : Response}
      → (handle_put sys req s).0 ≡ ok r
      → (p : FilePath) × ((resolve_and_guard sys s.root_dir s.root_canonical req.path s.disk
            s.canonical_cache).0
          ≡ resolved p)
        × IsGuarded sys s.root_canonical p
        × (r ≡ status_only (if sys.try_exists s.disk p then status_ok else status_created))
        × IsWritten sys p req.stream s.disk (handle_put sys req s).1.disk
  unfolding handle_put
  handle_put-writes {r} h =
      let (p, found, run) = guarded_target-runs sys s bad_request req.path (put_at sys req) r h in
      let (answered, done) =
        put_at-writes sys req p (after_guard sys s bad_request req.path) r
          (sym (ap (λ x. x.0) run) ∙ h) in
      (
        p,
        found,
        resolve_and_guard_sound sys s.root_dir s.root_canonical req.path s.disk s.canonical_cache
            found,
        answered,
        rw run done,
      )
