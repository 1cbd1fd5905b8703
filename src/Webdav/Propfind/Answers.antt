-- ===== src/Webdav/Propfind/Answers.antt =====
-- PROPFIND of src/handlers/webdav.rs from the request to the answer.
use rshs.App.{AppState, DeadPropertyStore, Platform, Request, Response, or_status}
use rshs.Body.{Parsed-cases, PropRequest, parse_propfind_request}
use rshs.Common.{
  All, Bool, Bytes, List, Option, Option-cases, [], ap, inl, inr, map, refl, some, ℕ, ◌<◌, ◌∷◌, ◌≡◌,
  ◌⊎◌,
}
use rshs.FileHandlers.{existing_target}
use rshs.FilePath.{FilePath}
use rshs.Headers.{parse_depth}
use rshs.Http.{Result, bad_request, err, not_found, ok}
use rshs.Lock.{Depth, LockStore}
use rshs.Resolve.{resolve_existing}
use rshs.Resolve.State.{state_resolve_existing}
use rshs.Time.Dated.{IsDated}
use rshs.Webdav.{body_of, multistatus, or_400, with_state}
use rshs.Webdav.Collect.{IsBounded}
use rshs.Webdav.Entries.{propfind_answer}
use rshs.Webdav.Propfind.{handle_propfind}
use rshs.Webdav.Propfind.Dates.{HasDates, collect_entries-IsDated}
use rshs.Xml.{Document}
use rshs.Xml.Multistatus.{PropEntry}
use rshs.Xml.Tags.{closes}
use rshs.Xml.Whole.{build_multistatus-balanced}

-- The locks and dead properties change no date.
with_state-modified :
    (now : ℕ) (dead_store : DeadPropertyStore) (locks : LockStore) (e : PropEntry)
    → (with_state now dead_store locks e).modified ≡ e.modified
unfolding with_state
with_state-modified now dead_store locks e = elim (Option-cases e.canonical_path) [
  | inl plain ↦ rw plain refl
  | inr (p, base) ↦ rw base refl
]

with_state-IsDated :
    (now : ℕ) (dead_store : DeadPropertyStore) (locks : LockStore) (entries : List PropEntry)
    → All (λ e. IsDated e.modified) entries
    → All (λ e. IsDated e.modified) (map (with_state now dead_store locks) entries)
with_state-IsDated now dead_store locks [] h = tt
with_state-IsDated now dead_store locks (e ∷ entries) (here, h) = (
  rw (with_state-modified now dead_store locks e) here,
  with_state-IsDated now dead_store locks entries h,
)

-- An answer that leaves the state: a 404, a 400, or a 207 with a document in which each end tag closes
-- the tag that was opened last, with none left open.
abbrev pub IsAnswered :
    {Disk : Type 0} → AppState Disk → Result (Option Response) × AppState Disk → Type 0
IsAnswered s (r, s') =
    (s' ≡ s)
    × ((r ≡ err not_found)
        ⊎ ((r ≡ err bad_request)
            ⊎ ((doc : Document) × (r ≡ ok (some (multistatus doc))) × (closes [] doc ≡ some []))))

module _ {Disk : Type 0} (sys : Platform Disk) (linux : Bool) (weight : FilePath → ℕ) (fuel : ℕ)
    (enough : (p : FilePath) → weight p < fuel) where
  propfind_answer-some :
      (now : ℕ) (s : AppState Disk) (p : FilePath) (path : Bytes) (depth : Depth)
      (request : PropRequest)
      → IsBounded sys linux s.disk weight
      → HasDates sys linux s.disk
      → (doc : Document) × (propfind_answer sys linux fuel now s p path depth request
          ≡ some (multistatus doc))
        × (closes [] doc ≡ some [])
  unfolding propfind_answer
  propfind_answer-some now s p path depth request bounded dates =
      let (entries, collected, dated) =
        collect_entries-IsDated sys linux s.disk dates weight bounded fuel enough p path depth in
      let (doc, built, closed) =
        build_multistatus-balanced (map (with_state now s.dead_props s.locks) entries) request
          (with_state-IsDated now s.dead_props s.locks entries dated) in
      (doc, rw collected (rw built refl), closed)

  -- A PROPFIND, whatever it asks for, is answered and leaves the state: with 404, with 400, or with
  -- 207 and a document in which every end tag closes the tag that was opened last, with none left
  -- open. The dates on the disk are in range, every directory weighs at least as much as the
  -- directories in it, and the fuel is above every weight.
  pub handle_propfind-IsAnswered :
      (now : ℕ) (req : Request) (s : AppState Disk)
      → IsBounded sys linux s.disk weight
      → HasDates sys linux s.disk
      → IsAnswered s (handle_propfind sys linux fuel now req s)
  unfolding handle_propfind existing_target state_resolve_existing or_status body_of or_400
  handle_propfind-IsAnswered now req s bounded dates =
      elim (Option-cases (resolve_existing sys s.root_dir s.root_canonical req.path s.disk)) [
        | inl missing ↦ rw (missing, handle_propfind) (refl, inl refl)
        | inr (p, found) ↦ elim (Option-cases req.body) [
          | inl too_long ↦ rw (found, too_long, handle_propfind) (refl, inr (inl refl))
          | inr (body, read) ↦
              elim (Parsed-cases (parse_propfind_request sys.utf8_lossy (sys.xml_events body))) [
                | inl (request, meant) ↦
                    let (doc, written, closed) =
                      propfind_answer-some now s p req.path (parse_depth req.headers) request
                        bounded dates in
                    rw (found, read, meant, handle_propfind)
                      (refl, inr (inr (doc, ap ok written, closed)))
                | inr (e, unclear) ↦
                    rw (found, read, unclear, handle_propfind) (refl, inr (inl refl))
              ]
        ]
      ]
