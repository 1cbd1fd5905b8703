-- ===== src/LockHandler/Handlers/Laws.antt =====
-- What a LOCK on an entry without locks answers, and what it leaves when it fails.
use rshs.Common.{bytes_key}
use rshs.FilePath.{FilePath, path_key}
use rshs.Map.{nat_key}
