-- ===== src/Listing.antt =====
-- src/html.rs: the page that lists a folder. `none` is the panic of a date.
use rshs.App.{Platform}
use rshs.Chain.{◌>>=◌}
use rshs.Common.{
  Bool, Bytes, List, Option, [], bytes_key, codes, eqb, false, if◌then◌else◌, length, ltb, none,
  some, suc, true, zero, ℕ, ◌++◌, ◌+◌, ◌-◌, ◌/◌, ◌==◌, ◌∷◌,
}
use rshs.FilePath.{FilePath, path_key}
use rshs.Map.{nat_key}
use rshs.Scan.{DirEntryMeta, batch_read_dir_entries}
use rshs.Time.Format.{decimal, format_rfc850}

-- The order of byte strings.
name_before : Bytes → Bytes → Bool
name_before [] [] = false
name_before [] (d ∷ t) = true
name_before (c ∷ s) [] = false
name_before (c ∷ s) (d ∷ t) =
    let rest = name_before s t in if ltb c d then true else if eqb c d then rest else false

-- folders before files, then by name
entry_before : DirEntryMeta → DirEntryMeta → Bool
unfolding name_before
entry_before a b =
    if a.is_dir
    then (if b.is_dir then name_before a.name b.name else true)
    else if b.is_dir
    then false
    else name_before a.name b.name

-- `sort_by`, which is stable: an entry goes behind those that are not after it
insert_entry : DirEntryMeta → List DirEntryMeta → List DirEntryMeta
unfolding entry_before
insert_entry e [] = e ∷ []
insert_entry e (x ∷ xs) =
    let rest = insert_entry e xs in if entry_before x e then x ∷ rest else e ∷ x ∷ xs

unfoldable pub sort_entries : List DirEntryMeta → List DirEntryMeta
unfolding insert_entry
sort_entries [] = []
sort_entries (e ∷ entries) = insert_entry e (sort_entries entries)

unfoldable pub display_name_len : DirEntryMeta → ℕ
display_name_len e = length e.name + (if e.is_dir then 1 else 0)

unfoldable pub size_label : DirEntryMeta → Bytes
unfolding decimal
size_label e = if e.is_dir then codes "-" else decimal e.size

-- `checked_ilog10().unwrap_or(0)` of a number of 64 bits
ilog10_run : ℕ → ℕ → ℕ
ilog10_run zero n = 0
ilog10_run (suc fuel) n = let rest = ilog10_run fuel (n / 10) in if ltb n 10 then 0 else rest + 1

unfoldable pub size_label_len : DirEntryMeta → ℕ
unfolding ilog10_run
size_label_len e = if e.is_dir then 1 else ilog10_run 20 e.size + 1

max_of : ℕ → ℕ → ℕ
max_of m n = if ltb m n then n else m

-- the widest name and the widest size
unfoldable pub widths : ℕ × ℕ → List DirEntryMeta → ℕ × ℕ
unfolding max_of display_name_len size_label_len
widths w [] = w
widths (mn, ms) (e ∷ entries) =
    widths (max_of mn (display_name_len e), max_of ms (size_label_len e)) entries

spaces : ℕ → Bytes
spaces zero = []
spaces (suc n) = 32 ∷ spaces n

link_of : Bytes → Bytes
link_of label = codes "<a href=\"" ++ label ++ codes "\">" ++ label ++ codes "</a>"

module _ {Disk : Type 0} (sys : Platform Disk) where
  -- the line of one entry; its name is lossy UTF-8
  unfoldable pub listing_line : ℕ → ℕ → DirEntryMeta → Option Bytes
  unfolding link_of spaces display_name_len size_label format_rfc850
  listing_line name_col max_size_len e = do
    date_str ← format_rfc850 e.modified
    let name = sys.utf8_lossy e.name
    let link = link_of (if e.is_dir then name ++ codes "/" else name)
    let size = size_label e
    some (
        link
        ++ spaces (name_col - display_name_len e)
        ++ date_str
        ++ codes "    "
        ++ spaces (max_size_len - length size)
        ++ size
        ++ 10 ∷ [])

  unfoldable pub listing_lines : ℕ → ℕ → List DirEntryMeta → Option Bytes
  unfolding listing_line
  listing_lines name_col max_size_len [] = some []
  listing_lines name_col max_size_len (e ∷ entries) = do
    first ← listing_line name_col max_size_len e
    more ← listing_lines name_col max_size_len entries
    some (first ++ more)

  page_head : Bytes → Bytes
  page_head request_path =
      let decoded_path = sys.percent_decode request_path in
      codes "<!DOCTYPE html><html><head><title>Index of "
      ++ decoded_path
      ++ codes "</title><meta charset=\"utf-8\"></head><body><h1>Index of "
      ++ decoded_path
      ++ codes "</h1><hr><pre>"

  parent_link : Bytes → Bytes
  parent_link request_path =
      if request_path == codes "/" then [] else codes "<a href=\"../\">../</a>" ++ 10 ∷ []

  -- The page and the number of its entries.
  unfoldable pub generate_dir_listing : Bool → Disk → FilePath → Bytes → Option (Bytes × ℕ)
  unfolding batch_read_dir_entries sort_entries widths listing_lines page_head parent_link
  generate_dir_listing linux disk dir_path request_path =
      elim (batch_read_dir_entries sys linux disk dir_path) [
        | none ↦ some (
          codes
              "<!DOCTYPE html><html><head><title>Error</title></head><body><h1>Cannot read directory</h1></body></html>",
          0,
        )
        | some found ↦
            let entries = sort_entries found in
            let (max_name_len, max_size_len) = widths (0, 0) entries in
            (do
              body ← listing_lines (max_name_len + 20) max_size_len entries
              some (
                page_head request_path
                    ++ parent_link request_path
                    ++ body
                    ++ codes "</pre><hr></body></html>",
                length entries,
              ))
      ]
