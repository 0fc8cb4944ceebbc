-- ===== src/Modloader/Lifecycle.antt =====
-- src/modloader/lifecycle.c: the phases of a game's start and the callbacks that wait for them. Each
-- operation here is what happens under the lock or in one interlocked step; a callback runs between
-- two of them, and may start others.
pub mod Fires
pub mod Drain
pub mod RunsAll
use yafsml.Prelude.{
  ℕ, zero, suc, ◌+◌, Bool, true, false, not, ◌&&◌, ◌||◌, Option, none, some, List, [], ◌∷◌, ◌++◌,
  ltb, leb, ◌==◌, if◌then◌else◌, length, ◌≡◌, Run, done, stuck, ◌>>=◌,
}

-- ML_LIFECYCLE_PHASE_LAST; the first phase is 1.
abbrev pub phase_last : ℕ
phase_last = 6

-- A callback with its user pointer; a NULL callback is `none`.
pub record Observer : Type 0 where
  pub phase : ℕ
  pub callback : Option ℕ

-- The bits of `reached_phases` are a test on phases.
pub record State : Type 0 where
  pub observers : List Observer
  pub reached : ℕ → Bool

abbrev pub initial : State
initial = record { observers = []; reached = λ phase. false }

abbrev pub is_phase : ℕ → Bool
is_phase phase = leb 1 phase && leb phase phase_last

-- `for (phase = LAST; phase > UNKNOWN; phase--)`
unfoldable pub highest_reached : ℕ → (ℕ → Bool) → ℕ
highest_reached zero reached = 0
highest_reached (suc n) reached =
    let below = highest_reached n reached in if reached (suc n) then suc n else below

unfoldable pub ml_lifecycle_current : State → ℕ
unfolding highest_reached
ml_lifecycle_current s = highest_reached phase_last s.reached

-- What an operation answers, and the new state.
pub record Answer (A : Type 0) : Type 0 where
  pub answer : A
  pub state : State

-- `memory` is whether the array can grow, where it has to.
unfoldable pub ml_lifecycle_on_phase : Bool → ℕ → Option ℕ → State → Answer Bool
ml_lifecycle_on_phase memory phase none s = record { answer = false; state = s }
ml_lifecycle_on_phase memory phase (some callback) s =
    if not (is_phase phase)
    then record { answer = false; state = s }
    else if s.reached phase
    then record { answer = false; state = s }
    else if not memory
    then record { answer = false; state = s }
    else record {
      answer = true;
      state = record s {
        observers = s.observers ++ (record { phase = phase; callback = some callback } ∷ []);
      };
    }

-- The interlocked step of `ml_lifecycle_advance`. `none` is a phase that it refuses; the answer is
-- whether the phase was reached before.
unfoldable pub mark_reached : ℕ → State → Option (Answer Bool)
mark_reached phase s =
    if not (is_phase phase)
    then none
    else some (record {
      answer = s.reached phase;
      state = record s { reached = λ p. p == phase || s.reached p };
    })

-- The search of the loop: the first callback that waits for the phase, taken out.
unfoldable pub take_callback : ℕ → List Observer → Option ℕ × List Observer
take_callback phase [] = (none, [])
take_callback phase (o ∷ os) =
    let (found, rest) = take_callback phase os in
    elim o.callback [
      | none ↦ (found, o ∷ rest)
      | some callback ↦
          if o.phase == phase
          then (some callback, record o { callback = none } ∷ os)
          else (found, o ∷ rest)
    ]

-- The locked part of a round of the loop of `ml_lifecycle_advance`.
unfoldable pub take_next : ℕ → State → Answer (Option ℕ)
unfolding take_callback
take_next phase s =
    let (found, rest) = take_callback phase s.observers in
    record { answer = found; state = record s { observers = rest } }

-- `ml_lifecycle_init`
abbrev pub ml_lifecycle_init : State → State
ml_lifecycle_init s = initial

-- What a callback does to the state when it is called with a phase.
abbrev pub Callbacks : Type 0
Callbacks = ℕ → ℕ → State → State

-- The loop: the callbacks that it runs, in their order.
unfoldable pub drain_loop : Callbacks → ℕ → ℕ → State → Run (Answer (List ℕ))
unfolding take_next
drain_loop call zero phase s = stuck
drain_loop call (suc fuel) phase s =
    let next = take_next phase s in
    elim next.answer [
      | none ↦ done (record { answer = []; state = next.state })
      | some callback ↦ drain_loop call fuel phase (call callback phase next.state) >>= λ rest.
          done (record rest { answer = callback ∷ rest.answer })
    ]

-- A round for each observer and the last one are enough. `none` is the answer `false`.
unfoldable pub ml_lifecycle_advance : Callbacks → ℕ → State → Run (Option (Answer (List ℕ)))
unfolding mark_reached drain_loop
ml_lifecycle_advance call phase s = elim (mark_reached phase s) [
  | none ↦ done none
  | some marked ↦
      if marked.answer
      then done (some (record { answer = []; state = marked.state }))
      else drain_loop call (suc (length s.observers)) phase marked.state >>= λ run. done (some run)
]
