-- ===== src/Webdav/Transfer/Inside.antt =====
-- What COPY and MOVE of src/handlers/webdav.rs may change on the disk.
use rshs.App.{AppState, IoOutcome, Platform, Response, answer, io_done, io_exists, io_failed}
use rshs.Common.{
  Bool, Bool-cases, Option, Option-cases, arith, false, if◌then◌else◌, inl, inr, none, not, refl,
  some, true, ℕ, ◌&&◌, ◌≡◌,
}
use rshs.FilePath.{FilePath, starts_with}
use rshs.Http.{Result, err, ok}
use rshs.Lock.{Depth, is_zero}
use rshs.Webdav.Transfer.{
  Transfer, called, clear_target, copy_file, drop_source, finish_transfer, ignored_call,
  transfer_at, transfer_data,
}
use rshs.Webdav.Transfer.Outside.{
  CallsKeep, ChangesAt, HasNoLinks, Kept, copy_dir-keeps, Kept-after, Kept-by, Kept-same,
}

module _ {Disk : Type 0} (sys : Platform Disk) {A : Type 0} (look : Disk → FilePath → A)
    (is_link : Disk → FilePath → Bool) (root : FilePath) (calls : CallsKeep sys look is_link root)
    (q : FilePath) where
  abbrev Stays : Disk → Disk → Type 0
  Stays = Kept sys look is_link root q

  abbrev Away : FilePath → Type 0
  Away dest = (starts_with q dest ≡ false) × (starts_with dest root ≡ true)

  same_disk : {d : Disk} → Stays d d
  same_disk {d} = Kept-same sys look is_link root {q = q} {d = d}

  then-Stays : {d d' d'' : Disk} → Stays d' d'' → Stays d d' → Stays d d''
  then-Stays later first = Kept-after sys look is_link root {q = q} later first

  Stays-by :
      (p : FilePath) {d d' : Disk}
      → (HasNoLinks sys look is_link root d → ChangesAt sys look is_link root p d d')
      → Away p
      → Stays d d'
  Stays-by p call away = Kept-by sys look is_link root p {q = q} call away.0

  called-disk : (x : IoOutcome × Disk) → (called sys x).1 ≡ x.1
  unfolding called
  called-disk (io_done, disk) = refl
  called-disk (io_exists, disk) = refl
  called-disk (io_failed, disk) = refl

  transfer_data-keeps :
      (fuel : ℕ) (is_move : Bool) (depth : Depth) (t : Transfer) (disk disk' : Disk)
      (r : Result (Unit {0}))
      → Away t.dest
      → transfer_data sys fuel is_move depth t disk ≡ some (r, disk')
      → Stays disk disk'
  unfolding transfer_data copy_file
  transfer_data-keeps fuel is_move depth t disk disk' r h e = elim (Bool-cases t.meta.is_dir) [
    | inr is_file ↦
        let same : (called sys (sys.copy disk t.src t.dest)).1 ≡ disk' =
          ground (arith, rw (is_file, transfer_data) at e) in
        rw (← same, called-disk (sys.copy disk t.src t.dest))
          (Stays-by t.dest (λ links. calls.copy_keeps disk t.src t.dest links h.1) h)
    | inl is_dir ↦ elim (Bool-cases (not is_move && is_zero depth)) [
      | inr deep ↦
          copy_dir-keeps sys look is_link root calls q fuel t.src t.dest t.dest_existed disk r disk'
            h (rw deep at (rw (is_dir, transfer_data) at e))
      | inl shallow ↦ elim (Bool-cases t.dest_existed) [
        | inl there ↦
            let same : disk ≡ disk' =
              ground (arith, rw there at (rw shallow at (rw (is_dir, transfer_data) at e))) in
            rw (← same) same_disk
        | inr absent ↦
            let same : (called sys (sys.create_dir disk t.dest)).1 ≡ disk' =
              ground (arith, rw absent at (rw shallow at (rw (is_dir, transfer_data) at e))) in
            rw (← same, called-disk (sys.create_dir disk t.dest))
              (Stays-by t.dest (λ links. calls.create_dir_keeps disk t.dest links h.1) h)
      ]
    ]
  ]

  drop_source-keeps :
      (is_move : Bool) (t : Transfer) (disk : Disk)
      → Away t.dest
      → ((is_move ≡ true) → Away t.src)
      → Stays disk (drop_source sys is_move t disk)
  unfolding drop_source
  drop_source-keeps false t disk h h' = same_disk
  drop_source-keeps true t disk h h' =
      then-Stays (after (sys.rename disk t.src t.dest).0 (sys.rename disk t.src t.dest).1) (λ links.
        let (left, same) = calls.rename_keeps disk t.src t.dest links (h' refl).1 h.1 in
        (left, same q (h' refl).0 h.0))
    where
      removed :
          (d : Disk)
          → Stays d (
              if t.meta.is_dir then (sys.remove_dir_all d t.src).1 else (sys.remove_file d t.src).1)
      removed d = elim (Bool-cases t.meta.is_dir) [
        | inl is_dir ↦ rw is_dir (
            Stays-by t.src (λ links. calls.remove_dir_all_keeps d t.src links (h' refl).1)
              (h' refl))
        | inr is_file ↦
            rw is_file (
              Stays-by t.src (λ links. calls.remove_file_keeps d t.src links (h' refl).1) (h' refl))
      ]

      after :
          (o : IoOutcome) (d : Disk)
          → Stays d (elim o as (λ x. Disk) [
            | io_done ↦ d
            | _ ↦
                if t.meta.is_dir
                then (sys.remove_dir_all d t.src).1
                else (sys.remove_file d t.src).1
          ])
      after io_done d = same_disk
      after io_exists d = removed d
      after io_failed d = removed d

  pub clear_target-keeps :
      (t : Transfer) (s : AppState Disk) → Away t.dest → Stays s.disk (clear_target sys t s).1.disk
  unfolding clear_target ignored_call answer
  clear_target-keeps t s h = elim (Option-cases (sys.metadata s.disk t.dest)) [
    | inl missing ↦ rw (missing, clear_target) same_disk
    | inr (dest_meta, there) ↦ elim (Bool-cases t.dest_existed) [
      | inr fresh ↦ rw (there, clear_target) (rw fresh same_disk)
      | inl existed ↦ elim (Bool-cases (not t.meta.is_dir && dest_meta.is_dir)) [
        | inl folder ↦
            rw (there, clear_target)
              (rw existed (
                rw folder (
                  Stays-by t.dest (λ links. calls.remove_dir_all_keeps s.disk t.dest links h.1) h)))
        | inr no_folder ↦ elim (Bool-cases (t.meta.is_dir && dest_meta.is_file)) [
          | inl file ↦
              rw (there, clear_target)
                (rw existed (
                  rw no_folder (
                    rw file (
                      Stays-by t.dest (λ links. calls.remove_file_keeps s.disk t.dest links h.1)
                        h))))
          | inr alike ↦ rw (there, clear_target) (rw existed (rw no_folder (rw alike same_disk)))
        ]
      ]
    ]
  ]

  pub clear_target-paths :
      (t t' : Transfer) (s : AppState Disk)
      → (clear_target sys t s).0 ≡ ok t'
      → (t'.src ≡ t.src) × (t'.dest ≡ t.dest)
  unfolding clear_target ignored_call answer
  clear_target-paths t t' s e = ground arith

  pub transfer_at-keeps :
      (fuel : ℕ) (is_move : Bool) (depth : Depth) (t : Transfer) (s s' : AppState Disk)
      (r : Result Response)
      → Away t.dest
      → ((is_move ≡ true) → Away t.src)
      → transfer_at sys fuel is_move depth t s ≡ some (r, s')
      → Stays s.disk s'.disk
  unfolding transfer_at finish_transfer
  transfer_at-keeps fuel is_move depth t s s' r h h' e =
      by_result (transfer_data sys fuel is_move depth t s.disk) refl e
    where
      by_result :
          (o : Option (Result (Unit {0}) × Disk))
          → transfer_data sys fuel is_move depth t s.disk ≡ o
          → (elim o as (λ x. Option (Result Response × AppState Disk)) [
            | none ↦ none
            | some (ok u, disk') ↦ some (finish_transfer sys is_move t (record s { disk = disk' }))
            | some (err c, disk') ↦ some (err c, record s { disk = disk' })
          ])
            ≡ some (r, s')
          → Stays s.disk s'.disk
      by_result none f k = cc
      by_result (some (ok u, disk')) f k =
          let same : drop_source sys is_move t disk' ≡ s'.disk = ground arith in
          rw (← same) (
            then-Stays (drop_source-keeps is_move t disk' h h')
              (transfer_data-keeps fuel is_move depth t s.disk disk' (ok u) h f))
      by_result (some (err c, disk')) f k =
          let same : disk' ≡ s'.disk = ground arith in
          rw (← same) (transfer_data-keeps fuel is_move depth t s.disk disk' (err c) h f)
