-- ===== src/Locking/Runs.antt =====
-- Runs of the lock system whose steps all have a property, and how they follow one another.
use rshs.Common.{arith, ℕ, ◌+◌, ◌-◌, ◌≡◌, ◌≤◌}
use rshs.Lock.{LockStore}
use rshs.Locking.{Reach, Step, System, reach_after, reach_here, tick}
use rshs.Locking.Held.{Along}
use rshs.Locking.Spec.{Action, action_of, time_passes}

pub record Ran (hash : ℕ → ℕ) (P : Action → Type 0) (s t : System) : Type 0 where
  pub run : Reach hash s t
  pub steps : Along P run

module _ {hash : ℕ → ℕ} (P : Action → Type 0) where
  pub Ran-here : (s : System) → Ran hash P s s
  Ran-here s = record { run = reach_here; steps = tt }

  pub Ran-step :
      {s t u : System} (r : Ran hash P s t) (step : Step hash t u)
      → P (action_of step)
      → Ran hash P s u
  Ran-step r step h = record { run = reach_after r.run step; steps = (r.steps, h) }

  Ran-append_run :
      {s t u : System} (r : Ran hash P s t) (more : Reach hash t u) → Along P more → Ran hash P s u
  Ran-append_run r reach_here h = r
  Ran-append_run r (reach_after more step) (h, last) = Ran-step (Ran-append_run r more h) step last

  pub Ran-append : {s t u : System} → Ran hash P s t → Ran hash P t u → Ran hash P s u
  Ran-append r more = Ran-append_run r more.run more.steps

  -- Time may pass with nothing else.
  pub Ran-wait :
      (ticks : (n : ℕ) → P (time_passes n)) (now later : ℕ) (locks : LockStore)
      → now ≤ later
      → Ran hash P (record { clock = now; locks = locks }) (record { clock = later; locks = locks })
  Ran-wait ticks now later locks m =
      let s : System = record { clock = now; locks = locks } in
      let e : now + (later - now) ≡ later = omega arith in
      rw (← e) (Ran-step (Ran-here s) (tick s (later - now)) (ticks (later - now)))
