-- ===== src/Modloader/Lifecycle/RunsAll.antt =====
-- src/modloader/lifecycle.c: a callback that was accepted for a phase runs once the phase is advanced to.
use yafsml.Prelude.{ℕ, ◌≤◌, ◌≡◌, true, some, List, Run, done}
use yafsml.Modloader.Lifecycle.{Answer, Callbacks, ml_lifecycle_advance}
use yafsml.Modloader.Lifecycle.Fires.{World, Steps, start, count}

-- A callback that runs in the loop of a phase takes some of the steps: it registers callbacks, marks
-- phases and runs their loops, in whatever order.
abbrev pub TakesSteps : Callbacks → Type 0
TakesSteps call =
    (c phase : ℕ) (w : World)
    → Steps start w
    → w.begun phase ≡ true
    → (v : World) × Steps w v × (v.state ≡ call c phase w.state)

-- The loop of a phase that has begun ends after some of the steps, with the phase ended.
Drains : ℕ → World → Run (Answer (List ℕ)) → Type 0
Drains phase w m =
    (a : Answer (List ℕ)) × (m ≡ done a)
    × (v : World) × Steps w v
    × (v.state ≡ a.state)
    × (v.ended phase ≡ true)

-- What an advance to a phase leads to, from a world in which `w.accepted` had been accepted.
pub record Served (call : Callbacks) (phase : ℕ) (w : World) : Type 0 where
  pub outcome : Answer (List ℕ)
  pub ends : ml_lifecycle_advance call phase w.state ≡ done (some outcome)
  pub after : World
  pub reachable : Steps w after
  pub at_end : after.state ≡ outcome.state
  pub all_run : (c : ℕ) → count phase c after.fired ≡ count phase c after.accepted
  pub accepted_before : (c : ℕ) → count phase c w.accepted ≤ count phase c after.fired
