-- ===== src/LockHandler.antt =====
-- src/handlers/locks.rs: the LOCK and UNLOCK handlers. LOCK works on the lock store in two sections
-- under the write guard, `lock_acquire` and `lock_commit`; between them the guard is dropped.
pub mod Handlers
pub mod Exclusive
pub mod Excludes
use rshs.App.{XmlEvent, xml_empty, xml_end, xml_error, xml_other, xml_start, xml_text}
use rshs.Common.{
  Bool, Bytes, List, Option, [], all, bytes_key, codes, false, find, if◌then◌else◌, is_empty,
  length, ltb, none, not, retain, some, ℕ, ◌&&◌, ◌++◌, ◌==◌, ◌||◌, ◌∷◌,
}
use rshs.FilePath.{FilePath, path_key}
use rshs.Http.{Result, StatusCode, err, forbidden, locked, no_content, ok}
use rshs.IfHeader.{check_existing_exclusive, contains}
use rshs.Lock.{Depth, LockInfo, LockScope, LockStore, exclusive, is_exclusive, shared}
use rshs.Lock.Token.{generate_lock_token}
use rshs.LockStore.{find_and_refresh_ancestor_lock}
use rshs.Map.{get, insert, or_default}

pub data TryAcquire : Type 0 where
  acquired : Bytes → TryAcquire
  needs_lock_null : TryAcquire

-- The fields of the lock that a request asks for.
pub record LockRequest : Type 0 where
  pub if_tokens : List Bytes
  pub scope : LockScope
  pub owner : Option Bytes
  pub timeout : Option ℕ
  pub depth : Depth

abbrev pub new_lock : LockRequest → Bytes → ℕ → LockInfo
new_lock q token now = record {
  scope = q.scope;
  token = token;
  owner = q.owner;
  created = now;
  timeout = q.timeout;
  depth = q.depth;
}

unfoldable pub owns_all : List Bytes → List LockInfo → Bool
owns_all if_tokens entry = all (λ l. contains if_tokens l.token) entry

-- Each returns its decision and the entry that it leaves.
unfoldable pub try_new_exclusive :
    List LockInfo → List Bytes → Bytes → Result TryAcquire × List LockInfo
try_new_exclusive entry if_tokens fresh =
    if is_empty entry
    then (ok needs_lock_null, entry)
    else if owns_all if_tokens entry
    then (ok (acquired fresh), [])
    else (err locked, entry)

unfoldable pub try_new_shared :
    List LockInfo → List Bytes → Bytes → Result TryAcquire × List LockInfo
try_new_shared entry if_tokens fresh = elim (find (λ l. contains if_tokens l.token) entry) [
  | some existing ↦
      (ok (acquired existing.token), retain (λ l. not (l.token == existing.token)) entry)
  | none ↦ if is_empty entry then (ok needs_lock_null, entry) else (ok (acquired fresh), entry)
]

unfoldable pub try_new :
    LockScope → List LockInfo → List Bytes → Bytes → Result TryAcquire × List LockInfo
unfolding try_new_exclusive try_new_shared
try_new exclusive entry if_tokens fresh = try_new_exclusive entry if_tokens fresh
try_new shared entry if_tokens fresh = try_new_shared entry if_tokens fresh

abbrev pub kept_token : LockScope → Bytes → Bytes → Bytes
kept_token exclusive token fresh = token
kept_token shared token fresh = fresh

-- What `check_existing_exclusive` found, and then the new acquisition.
unfoldable pub decide_from :
    Result (Option Bytes)
    → LockScope
    → List LockInfo
    → List Bytes
    → Bytes
    → Result TryAcquire × List LockInfo
decide_from (err code) scope entry if_tokens fresh = (err code, entry)
decide_from (ok none) scope entry if_tokens fresh = try_new scope entry if_tokens fresh
decide_from (ok (some token)) scope entry if_tokens fresh =
    (ok (acquired (kept_token scope token fresh)), retain (λ l. not (is_exclusive l)) entry)

unfoldable pub decide :
    ℕ → LockScope → List LockInfo → List Bytes → Bytes → Result TryAcquire × List LockInfo
unfolding decide_from
decide now scope entry if_tokens fresh =
    decide_from (check_existing_exclusive now entry if_tokens) scope entry if_tokens fresh

-- What the first section ends with.
pub data Acquired : Type 0 where
  refreshed : LockInfo → Acquired
  granted : LockInfo → Acquired
  lock_null_needed : Acquired
  lock_refused : StatusCode → Acquired

-- The lock of a positive decision is pushed to the entry.
unfoldable pub finish :
    LockStore
    → FilePath
    → LockRequest
    → ℕ
    → Result TryAcquire × List LockInfo
    → Acquired × LockStore
finish locks target q now (err code, entry) = (lock_refused code, insert locks target entry)
finish locks target q now (ok needs_lock_null, entry) =
    (lock_null_needed, insert locks target entry)
finish locks target q now (ok (acquired token), entry) =
    (granted (new_lock q token now), insert locks target (entry ++ new_lock q token now ∷ []))

-- the part behind the refresh of an ancestor's lock
unfoldable pub acquire_at : LockStore → FilePath → LockRequest → ℕ → Bytes → Acquired × LockStore
unfolding finish
acquire_at locks target q now fresh =
    let entry = or_default (get locks target) in
    finish locks target q now (decide now q.scope entry q.if_tokens fresh)

abbrev pub or_acquire :
    LockStore
    → FilePath
    → LockRequest
    → ℕ
    → Bytes
    → Option LockInfo × LockStore
    → Acquired × LockStore
or_acquire locks target q now fresh (some lock, locks') = (refreshed lock, locks')
or_acquire locks target q now fresh (none, locks') = acquire_at locks' target q now fresh

-- The first section of `handle_lock` under the write guard.
unfoldable pub lock_acquire :
    (ℕ → ℕ) → LockStore → FilePath → LockRequest → ℕ → Acquired × LockStore
lock_acquire hash locks target q now =
    or_acquire locks target q now (generate_lock_token hash now)
      (find_and_refresh_ancestor_lock now locks target (λ l. contains q.if_tokens l.token))

-- The second section, after the lock-null resource was created: the entry must still be empty.
unfoldable pub lock_commit :
    (ℕ → ℕ) → LockStore → FilePath → LockRequest → ℕ → Result LockInfo × LockStore
lock_commit hash locks target q now =
    let entry = or_default (get locks target) in
    let lock = new_lock q (generate_lock_token hash now) now in
    if not (is_empty entry)
    then (err locked, insert locks target entry)
    else (ok lock, insert locks target (entry ++ lock ∷ []))

-- UNLOCK under the write guard: 204 if a lock went away.
abbrev unlock_entry :
    LockStore → FilePath → Bytes → Option (List LockInfo) → Result StatusCode × LockStore
unlock_entry locks fs_path token none = (err forbidden, locks)
unlock_entry locks fs_path token (some entry) =
    let entry' = retain (λ l. not (l.token == token)) entry in
    let locks' = insert locks fs_path entry' in
    if ltb (length entry') (length entry) then (ok no_content, locks') else (err forbidden, locks')

unfoldable pub unlock : LockStore → FilePath → Bytes → Result StatusCode × LockStore
unlock locks fs_path token = unlock_entry locks fs_path token (get locks fs_path)

-- The loop of `parse_lock_body` over what the XML reader reads.
unfoldable pub lock_body_from :
    (Bytes → Bytes)
    → Bool
    → Bool
    → Option Bytes
    → LockScope
    → List XmlEvent
    → Option Bytes × LockScope
lock_body_from lossy in_owner in_lockscope owner scope [] = (owner, scope)
lock_body_from lossy in_owner in_lockscope owner scope (xml_error ∷ events) = (owner, scope)
lock_body_from lossy in_owner in_lockscope owner scope (xml_other ∷ events) =
    lock_body_from lossy in_owner in_lockscope owner scope events
lock_body_from lossy in_owner in_lockscope owner scope (xml_start name local attrs ∷ events) =
    lock_body_from lossy (in_owner || local == codes "owner")
      (in_lockscope || local == codes "lockscope") owner
      (if in_lockscope && local == codes "shared" then shared else scope) events
lock_body_from lossy in_owner in_lockscope owner scope (xml_empty name local attrs ∷ events) =
    lock_body_from lossy (in_owner || local == codes "owner")
      (in_lockscope || local == codes "lockscope") owner
      (if in_lockscope && local == codes "shared" then shared else scope) events
lock_body_from lossy in_owner in_lockscope owner scope (xml_end local ∷ events) =
    lock_body_from lossy (in_owner && not (local == codes "owner"))
      (in_lockscope && not (local == codes "lockscope")) owner scope events
lock_body_from lossy in_owner in_lockscope owner scope (xml_text t ∷ events) =
    lock_body_from lossy in_owner in_lockscope (if in_owner then some (lossy t) else owner) scope
      events

unfoldable pub parse_lock_body : (Bytes → Bytes) → List XmlEvent → Option Bytes × LockScope
unfolding lock_body_from
parse_lock_body lossy events = lock_body_from lossy false false none exclusive events
