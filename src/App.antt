-- ===== src/App.antt =====
-- The state that every handler shares (`AppState` of src/server/mod.rs), the requests and responses,
-- and what the program takes from the operating system and from its crates, as parameters.
use rshs.Common.{Bool, Bytes, List, Option, false, none, some, true, ℕ}
use rshs.FilePath.{FilePath}
use rshs.Http.{HeaderMap, Result, StatusCode, err, ok}
use rshs.Lock.{LockInfo, LockStore}
use rshs.Map.{HashMap}
use rshs.Time.{SystemTime, ℤ}
use rshs.Xml.{Document}

-- The outcome of a file system call: `AlreadyExists` is the one error that the program tells apart.
pub data IoOutcome : Type 0 where
  io_done io_exists io_failed : IoOutcome

abbrev pub is_done : IoOutcome → Bool
is_done io_done = true
is_done io_exists = false
is_done io_failed = false

pub record Metadata : Type 0 where
  pub is_dir : Bool
  pub is_file : Bool
  pub len : ℕ
  pub modified : Option SystemTime
  pub created : Option SystemTime

pub data FileType : Type 0 where
  type_dir type_symlink type_other : FileType

-- An entry of `read_dir`: its name, and its type if that can be read.
pub record DirEntry : Type 0 where
  pub name : Bytes
  pub file_type : Option FileType

-- The buffer that `statx` fills (`libc::statx`): the fields that the program reads. Seconds are
-- signed.
pub record StatxBuf : Type 0 where
  pub stx_mode : ℕ
  pub stx_size : ℕ
  pub mtime_sec : ℤ
  pub mtime_nsec : ℕ
  pub btime_sec : ℤ
  pub btime_nsec : ℕ

-- What the XML reader (quick_xml) reads, to the end or to the first error: an element's name, its
-- local name and its attributes, or a text.
pub data XmlEvent : Type 0 where
  xml_start : Bytes → Bytes → List (Bytes × Bytes) → XmlEvent
  xml_empty : Bytes → Bytes → List (Bytes × Bytes) → XmlEvent
  xml_end : Bytes → XmlEvent
  xml_text : Bytes → XmlEvent
  xml_other : XmlEvent
  xml_error : XmlEvent

-- The calls of tokio::fs on a disk, percent-decoding as lossy UTF-8, lossy UTF-8 itself, the XML
-- reader, the hash of a clock reading, the entries of a directory when it is opened (an entry that
-- cannot be read is `none`), a ring of `statx` calls, the guess of a file's type, and
-- percent-encoding with the set of src/webdav/fs.rs.
pub record Platform (Disk : Type 0) : Type 0 where
  pub canonicalize : Disk → FilePath → Option FilePath
  pub try_exists : Disk → FilePath → Bool
  pub metadata : Disk → FilePath → Option Metadata
  pub create_new : Disk → FilePath → IoOutcome × Disk
  pub create_file : Disk → FilePath → IoOutcome × Disk
  pub write_stream : Disk → FilePath → Bytes → IoOutcome × Disk
  pub flush : Disk → FilePath → IoOutcome × Disk
  pub can_open : Disk → FilePath → Bool
  pub create_dir : Disk → FilePath → IoOutcome × Disk
  pub remove_dir_all : Disk → FilePath → IoOutcome × Disk
  pub remove_file : Disk → FilePath → IoOutcome × Disk
  pub rename : Disk → FilePath → FilePath → IoOutcome × Disk
  pub copy : Disk → FilePath → FilePath → IoOutcome × Disk
  pub percent_decode : Bytes → Bytes
  pub utf8_lossy : Bytes → Bytes
  pub xml_events : Bytes → List XmlEvent
  pub hash : ℕ → ℕ
  pub read_dir : Disk → FilePath → Option (List (Option DirEntry))
  -- `statx` of names in a directory through one io_uring: the completions in their order, each with
  -- the `user_data` of its submission and the buffer, if the call succeeded. `none` is an error of
  -- the ring itself.
  pub statx_ring : Disk → FilePath → List Bytes → Option (List (ℕ × Option StatxBuf))
  pub guess_mime : FilePath → Option Bytes
  pub percent_encode : Bytes → Bytes

abbrev pub CanonicalCache : Type 0
CanonicalCache = HashMap FilePath FilePath

-- resource path → (property name → value)
abbrev pub DeadPropertyStore : Type 0
DeadPropertyStore = HashMap FilePath (HashMap Bytes Bytes)

pub record AppState (Disk : Type 0) : Type 0 where
  pub root_dir : FilePath
  pub root_canonical : FilePath
  pub dead_props : DeadPropertyStore
  pub locks : LockStore
  pub canonical_cache : CanonicalCache
  pub lock_timeout : ℕ
  pub disk : Disk

-- `body` is what `body::to_bytes` gives with the limit of 65536 bytes, if it succeeds;
-- `stream` is what `into_data_stream` has.
pub record Request : Type 0 where
  pub method : Bytes
  pub path : Bytes
  pub headers : HeaderMap
  pub body : Option Bytes
  pub stream : Bytes

-- A handler reads and writes the state, also where it answers with an error.
abbrev pub Handler : Type 0 → Type 0 → Type 0
Handler Disk A = AppState Disk → Result A × AppState Disk

module _ {Disk A : Type 0} where
  unfoldable pub answer : A → Handler Disk A
  answer a s = (ok a, s)

  unfoldable pub fail : StatusCode → Handler Disk A
  fail code s = (err code, s)

  -- `OrStatus` of src/utils/error.rs: `or_400`, `or_404`, … on an option
  unfoldable pub or_status : Option A → StatusCode → Handler Disk A
  or_status none code s = (err code, s)
  or_status (some a) code s = (ok a, s)

module _ {Disk A B : Type 0} where
  abbrev pub proceed : Result A → (A → Handler Disk B) → Handler Disk B
  proceed (ok a) f s = f a s
  proceed (err code) f s = (err code, s)

  infixl 5 ◌>>=◌ ◌>>◌
  abbrev pub ◌>>=◌ : Handler Disk A → (A → Handler Disk B) → Handler Disk B
  ◌>>=◌ m f s = let (r, s') = m s in proceed r f s'

  abbrev pub ◌>>◌ : Handler Disk A → Handler Disk B → Handler Disk B
  m >> k = m >>= λ _. k

-- What a handler answers with: a status alone, the document and token of a lock, the page of a folder
-- for a request path, or a file with its size, each of these two perhaps without its body, or an XML
-- document.
pub data Response : Type 0 where
  status_only : StatusCode → Response
  lock_document : StatusCode → LockInfo → Response
  folder_page : FilePath → Bytes → Bool → Response
  file_content : FilePath → ℕ → Bool → Response
  document : StatusCode → Document → Response
