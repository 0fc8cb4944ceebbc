-- ===== src/Modloader/Lifecycle/Fires.antt =====
-- Each callback that is accepted runs once, and not before its phase.
use yafsml.Prelude.{
  ℕ, suc, ◌+◌, ◌≤◌, ◌≡◌, length, refl, ap, sym, ◌∙◌, Bool, true, false, not, ◌&&◌, ◌||◌, Option,
  none, some, List, [], ◌∷◌, ◌++◌, ◌==◌, if◌then◌else◌, arith, Bool-cases, Option-cases, inl, inr,
  subst, else_some,
}
use yafsml.Modloader.Lifecycle.Drain.{
  callbacks_of, apart, on_phase-callbacks_of, take_callback-callbacks_of, take_callback-le,
}
use mathlib.Core.Option.{some-injective}
use yafsml.Modloader.Lifecycle.{
  Observer, State, Answer, initial, is_phase, ml_lifecycle_on_phase, mark_reached, take_callback,
  take_next,
}

-- The callbacks `callback` that wait for a phase.
unfoldable pub pending : ℕ → ℕ → List Observer → ℕ
pending phase callback [] = 0
pending phase callback (o ∷ os) =
    let rest = pending phase callback os in
    elim o.callback [
      | none ↦ rest
      | some c ↦ if o.phase == phase && c == callback then suc rest else rest
    ]

abbrev pub is_none : Option ℕ → Bool
is_none none = true
is_none (some c) = false

-- A phase and a callback: what was accepted, and what has run.
pub record Event : Type 0 where
  pub phase : ℕ
  pub callback : ℕ

unfoldable pub count : ℕ → ℕ → List Event → ℕ
count phase callback [] = 0
count phase callback (e ∷ es) =
    let rest = count phase callback es in
    if e.phase == phase && e.callback == callback then suc rest else rest

abbrev pub log_if : Bool → Event → List Event → List Event
log_if b e es = if b then e ∷ es else es

abbrev pub log_taken : ℕ → Option ℕ → List Event → List Event
log_taken phase none es = es
log_taken phase (some callback) es = record { phase = phase; callback = callback } ∷ es

-- The state, with what has happened: the phases whose loop has begun, those for which a round of
-- the loop has found nothing, what was accepted, and what has run.
pub record World : Type 0 where
  pub state : State
  pub begun : ℕ → Bool
  pub ended : ℕ → Bool
  pub accepted : List Event
  pub fired : List Event

abbrev pub start : World
start = record {
  state = initial;
  begun = λ phase. false;
  ended = λ phase. false;
  accepted = [];
  fired = [];
}

abbrev pub register_in : Bool → ℕ → ℕ → World → World
register_in memory phase callback w =
    let a = ml_lifecycle_on_phase memory phase (some callback) w.state in
    record w {
      state = a.state;
      accepted = log_if a.answer (record { phase = phase; callback = callback }) w.accepted;
    }

-- The call of `ml_lifecycle_advance` goes on to its loop if the phase was not reached before.
abbrev pub mark_in : ℕ → Answer Bool → World → World
mark_in phase m w = record w {
  state = m.state;
  begun = λ p. (phase == p && not m.answer) || w.begun p;
}

abbrev pub take_in : ℕ → World → World
take_in phase w =
    let a = take_next phase w.state in
    record w {
      state = a.state;
      ended = λ p. (phase == p && is_none a.answer) || w.ended p;
      fired = log_taken phase a.answer w.fired;
    }

-- What any order of the steps of several threads and callbacks leads to. Rounds of a loop follow
-- where it has begun.
pub data Steps (w : World) : World → Type 0 where
  still : Steps w w
  registered :
      {v : World}
      → Steps w v
      → (memory : Bool) (phase callback : ℕ) → Steps w (register_in memory phase callback v)
  marked :
      {v : World}
      → Steps w v
      → (phase : ℕ) (m : Answer Bool) → mark_reached phase v.state ≡ some m
      → Steps w (mark_in phase m v)
  taken : {v : World} → Steps w v → (phase : ℕ) → v.begun phase ≡ true → Steps w (take_in phase v)

pending-append :
    (p c phase callback : ℕ) (os : List Observer)
    → pending p c (os ++ (record { phase = phase; callback = some callback } ∷ []))
      ≡ pending p c os + (if phase == p && callback == c then 1 else 0)
unfolding pending
pending-append p c phase callback [] = ground arith
pending-append p c phase callback (o ∷ os) =
    let more = pending-append p c phase callback os in ground arith

-- Taking a callback moves it from those that wait to those that run.
take_callback-pending :
    (p c phase : ℕ) (os : List Observer) (fired : List Event)
    → pending p c os + count p c fired
      ≡ pending p c (take_callback phase os).1
        + count p c (log_taken phase (take_callback phase os).0 fired)
unfolding pending take_callback count
take_callback-pending p c phase [] fired = refl
take_callback-pending p c phase (o ∷ os) fired =
    let more = take_callback-pending p c phase os fired in
    elim (Option-cases o.callback) [
      | inl empty ↦ rw empty more
      | inr (callback, waits) ↦ elim (Bool-cases (o.phase == phase)) [
        | inl same ↦ rw (waits, same) (ground arith)
        | inr other ↦ rw (waits, other) (ground (arith, more))
      ]
    ]

registered-count :
    (s : State) (accepted fired : List Event) (memory : Bool) (phase callback p c : ℕ)
    → count p c accepted ≡ pending p c s.observers + count p c fired
    → count p c (
        log_if
          (ml_lifecycle_on_phase memory phase (some callback) s).answer
          (record { phase = phase; callback = callback })
          accepted)
      ≡ pending p c (ml_lifecycle_on_phase memory phase (some callback) s).state.observers
        + count p c fired
unfolding ml_lifecycle_on_phase count
registered-count s accepted fired memory phase callback p c h =
    elim (Bool-cases (not (is_phase phase))) [
      | inl bad ↦ rw (bad, ml_lifecycle_on_phase) h
      | inr good ↦ elim (Bool-cases (s.reached phase)) [
        | inl late ↦ rw (good, ml_lifecycle_on_phase) (rw late h)
        | inr early ↦ elim (Bool-cases (not memory)) [
          | inl full ↦ rw (good, ml_lifecycle_on_phase) (rw early (rw full h))
          | inr room ↦
              rw (good, ml_lifecycle_on_phase)
                (rw early (
                  rw room
                    (let added = pending-append p c phase callback s.observers in ground arith)))
        ]
      ]
    ]

pub mark_reached-observers :
    (s : State) (phase : ℕ) (m : Answer Bool)
    → mark_reached phase s ≡ some m
    → (s.observers ≡ m.state.observers) × ((λ (p : ℕ). p == phase || s.reached p) ≡ m.state.reached)
unfolding mark_reached
mark_reached-observers s phase m e =
    let (good, made) = else_some (not (is_phase phase)) (some _) m e in
    let same = some-injective _ m made in
    (
      ap (λ (a : Answer Bool). a.state.observers) same,
      ap (λ (a : Answer Bool). a.state.reached) same,
    )

pub pending-count :
    {w : World} (p c : ℕ)
    → Steps start w
    → count p c w.accepted ≡ pending p c w.state.observers + count p c w.fired
unfolding pending count take_next
pending-count p c still = refl
pending-count p c (registered {v = v} r memory phase callback) =
    registered-count v.state v.accepted v.fired memory phase callback p c (pending-count p c r)
pending-count p c (marked {v = v} r phase m e) =
    pending-count p c r
    ∙ ap (λ os. pending p c os + count p c v.fired) (mark_reached-observers v.state phase m e).0
pending-count p c (taken {v = v} r phase open_now) =
    pending-count p c r ∙ take_callback-pending p c phase v.state.observers v.fired

pub registered-reached :
    (s : State) (memory : Bool) (phase callback : ℕ)
    → (ml_lifecycle_on_phase memory phase (some callback) s).state.reached ≡ s.reached
unfolding ml_lifecycle_on_phase
registered-reached s memory phase callback = ground arith

-- A reached phase stays so.
pub reached_later :
    {w v : World} (p : ℕ) → Steps w v → w.state.reached p ≡ true → v.state.reached p ≡ true
unfolding take_next
reached_later p still h = h
reached_later p (registered {v = v} r memory phase callback) h =
    ap (λ (f : ℕ → Bool). f p) (registered-reached v.state memory phase callback)
    ∙ reached_later p r h
reached_later p (marked {v = v} r phase m e) h =
    let set_bits = ap (λ (f : ℕ → Bool). f p) (mark_reached-observers v.state phase m e).1 in
    let before = reached_later p r h in sym set_bits ∙ ground arith
reached_later p (taken {v = v} r phase open_now) h = reached_later p r h

-- The loop of a phase has begun only where the phase is reached.
begun-reached : {w : World} (p : ℕ) → Steps start w → w.begun p ≡ true → w.state.reached p ≡ true
unfolding take_next
begun-reached p still h = absurd (ground (arith, h))
begun-reached p (registered {v = v} r memory phase callback) h =
    ap (λ (f : ℕ → Bool). f p) (registered-reached v.state memory phase callback)
    ∙ begun-reached p r h
begun-reached p (marked {v = v} r phase m e) h =
    let set_bits = ap (λ (f : ℕ → Bool). f p) (mark_reached-observers v.state phase m e).1 in
    elim (Bool-cases (phase == p)) [
      | inl same ↦ sym set_bits ∙ ground (arith, same)
      | inr other ↦
          let before = begun-reached p r (ground (arith, h, other)) in
          sym set_bits ∙ ground (arith, before)
    ]
begun-reached p (taken {v = v} r phase open_now) h = begun-reached p r h

log_taken_other :
    (phase p c : ℕ) (callback : Option ℕ) (fired : List Event)
    → (phase == p) ≡ false
    → count p c (log_taken phase callback fired) ≡ count p c fired
unfolding count
log_taken_other phase p c none fired h = refl
log_taken_other phase p c (some callback) fired h = rw h

not_before :
    {w : World} (p c : ℕ) → Steps start w → w.state.reached p ≡ false → count p c w.fired ≡ 0
unfolding count take_next
not_before p c still h = refl
not_before p c (registered {v = v} r memory phase callback) h =
    not_before p c r
      (ap (λ (f : ℕ → Bool). f p) (sym (registered-reached v.state memory phase callback)) ∙ h)
not_before p c (marked {v = v} r phase m e) h =
    let set_bits = ap (λ (f : ℕ → Bool). f p) (mark_reached-observers v.state phase m e).1 in
    not_before p c r (ground (arith, set_bits, h))
not_before p c (taken {v = v} r phase open_now) h =
    log_taken_other phase p c (take_next phase v.state).answer v.fired
      (let no = apart v.state phase p (begun-reached phase r open_now) h in ground (arith, no))
    ∙ not_before p c r h

no_more : (xs : List ℕ) → length xs ≤ 0 → xs ≡ []
no_more [] h = refl
no_more (x ∷ xs) h = absurd (omega arith)

none_found : (o : Option ℕ) → is_none o ≡ true → o ≡ none
none_found none h = refl
none_found (some c) h = absurd (ground (arith, h))

-- Where a round has found nothing, nothing waits, now or later.
ended-callbacks_of :
    {w : World} (p : ℕ)
    → Steps start w
    → w.ended p ≡ true
    → (w.state.reached p ≡ true) × (callbacks_of p w.state.observers ≡ [])
unfolding take_next
ended-callbacks_of p still h = absurd (ground (arith, h))
ended-callbacks_of p (registered {v = v} r memory phase callback) h =
    let (open_now, empty) = ended-callbacks_of p r h in
    (
      ap (λ (f : ℕ → Bool). f p) (registered-reached v.state memory phase callback) ∙ open_now,
      on_phase-callbacks_of v.state memory phase callback p open_now ∙ empty,
    )
ended-callbacks_of p (marked {v = v} r phase m e) h =
    let (open_now, empty) = ended-callbacks_of p r h in
    (
      reached_later p (marked {v = v} still phase m e) open_now,
      ap (callbacks_of p) (sym (mark_reached-observers v.state phase m e).0) ∙ empty,
    )
ended-callbacks_of p (taken {v = v} r phase open_now) h = elim (Bool-cases (v.ended p)) [
  | inl before ↦
      let (open_before, empty) = ended-callbacks_of p r before in
      (
        open_before,
        no_more _
            (let e = ap length empty in omega (arith, take_callback-le phase p v.state.observers)),
      )
  | inr not_yet ↦
      let same : (phase == p) ≡ true = ground (arith, h, not_yet) in
      let found_none : is_none (take_next phase v.state).answer ≡ true =
        ground (arith, h, not_yet) in
      let e : phase ≡ p = ground (arith, same) in
      let waits = take_callback-callbacks_of phase v.state.observers in
      let nothing = (waits.0 (none_found _ found_none)).1 in
      (
        subst (λ q. v.state.reached q ≡ true) e (begun-reached phase r open_now),
        subst (λ q. callbacks_of q (take_callback phase v.state.observers).1 ≡ []) e nothing,
      )
]

pending_nothing : (p c : ℕ) (os : List Observer) → callbacks_of p os ≡ [] → pending p c os ≡ 0
unfolding callbacks_of pending
pending_nothing p c [] h = refl
pending_nothing p c (o ∷ os) h = elim (Option-cases o.callback) [
  | inl empty ↦
      let rest : callbacks_of p os ≡ [] = ground (arith, h, empty) in
      rw empty (pending_nothing p c os rest)
  | inr (callback, waits) ↦
      let other : (o.phase == p) ≡ false = ground (arith, h, waits) in
      let rest : callbacks_of p os ≡ [] = ground (arith, h, waits) in
      rw (waits, other) (pending_nothing p c os rest)
]

-- In whatever order callbacks are registered, phases are marked and rounds of the loops that have
-- begun take callbacks: no callback of a phase has run while the phase is not reached, none has
-- run more often than it was accepted, and once a round of the loop of a phase has found none,
-- each has run exactly as often as it was accepted, then and ever after.
pub fires_once :
    {w : World} (phase c : ℕ)
    → Steps start w
    → (w.state.reached phase ≡ false → count phase c w.fired ≡ 0)
      × (count phase c w.fired ≤ count phase c w.accepted)
      × (w.ended phase ≡ true → count phase c w.fired ≡ count phase c w.accepted)
fires_once {w = w} phase c r =
    let total = pending-count phase c r in
    (
      not_before phase c r,
      omega arith,
      λ h.
          let empty = pending_nothing phase c w.state.observers (ended-callbacks_of phase r h).1 in
          omega arith,
    )
