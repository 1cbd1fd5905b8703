-- ===== src/Lock.antt =====
-- The lock records of src/webdav/mod.rs. Times are nanoseconds; `now` is the clock reading that the
-- source takes from `SystemTime::now()` where it asks whether a lock has expired.
pub mod Token
use rshs.Common.{Bool, Bytes, List, Option, false, leb, none, not, retain, some, true, ℕ, ◌-◌}
use rshs.FilePath.{FilePath}
use rshs.Map.{HashMap}

pub data Depth : Type 0 where
  depth_zero depth_one depth_infinity : Depth

pub data LockScope : Type 0 where
  exclusive shared : LockScope

pub record LockInfo : Type 0 where
  pub scope : LockScope
  pub token : Bytes
  pub owner : Option Bytes
  pub created : ℕ
  pub timeout : Option ℕ
  pub depth : Depth

abbrev pub LockStore : Type 0
LockStore = HashMap FilePath (List LockInfo)

-- `Depth::Zero` under `==`
abbrev pub is_zero : Depth → Bool
is_zero depth_zero = true
is_zero _ = false

-- `Depth::Infinity` under `==`
abbrev pub is_infinity : Depth → Bool
is_infinity depth_infinity = true
is_infinity _ = false

abbrev has_elapsed : ℕ → ℕ → Option ℕ → Bool
has_elapsed now created none = false
has_elapsed now created (some timeout) = leb timeout (now - created)

-- `elapsed().unwrap_or_default()` is 0 for a time that is ahead of the clock, as `-` is here
unfoldable pub is_expired : ℕ → LockInfo → Bool
is_expired now l = has_elapsed now l.created l.timeout

unfoldable pub scope_exclusive : LockScope → Bool
scope_exclusive exclusive = true
scope_exclusive shared = false

unfoldable pub is_exclusive : LockInfo → Bool
unfolding scope_exclusive
is_exclusive l = scope_exclusive l.scope

unfoldable pub active_slice : ℕ → List LockInfo → List LockInfo
active_slice now infos = retain (λ l. not (is_expired now l)) infos
