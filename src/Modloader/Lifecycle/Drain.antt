-- ===== src/Modloader/Lifecycle/Drain.antt =====
-- The loop of `ml_lifecycle_advance`: which callbacks it runs, and in which order.
use yafsml.Prelude.{
  ℕ, zero, suc, ◌<◌, ◌≤◌, ◌≡◌, refl, ap, sym, ◌∙◌, Bool, true, false, ◌||◌, none, some, List, [],
  ◌∷◌, ◌++◌, ◌==◌, if◌then◌else◌, length, arith, Bool-cases, Option-cases, inl, inr, subst, not,
  Run, done, ◌>>=◌,
}
use mathlib.Core.Option.{some-injective}
use yafsml.Modloader.Lifecycle.{
  Observer, State, Answer, Callbacks, is_phase, ml_lifecycle_on_phase, mark_reached, take_callback,
  take_next, drain_loop, ml_lifecycle_advance,
}

-- The callbacks that wait for a phase, in the order of their registration.
unfoldable pub callbacks_of : ℕ → List Observer → List ℕ
callbacks_of phase [] = []
callbacks_of phase (o ∷ os) =
    let rest = callbacks_of phase os in
    elim o.callback [ none ↦ rest | some c ↦ if o.phase == phase then c ∷ rest else rest ]

pub length-callbacks_of :
    (phase : ℕ) (os : List Observer) → length (callbacks_of phase os) ≤ length os
unfolding callbacks_of
length-callbacks_of phase [] = omega arith
length-callbacks_of phase (o ∷ os) =
    let rest = length-callbacks_of phase os in
    elim (Option-cases o.callback) [
      | inl empty ↦ rw empty (omega arith)
      | inr (c, waits) ↦ elim (Bool-cases (o.phase == phase)) [
        | inl same ↦ rw (waits, same) (omega arith)
        | inr other ↦ rw (waits, other) (omega arith)
      ]
    ]

-- The first of them is found and taken.
pub take_callback-callbacks_of :
    (phase : ℕ) (os : List Observer)
    → ((take_callback phase os).0 ≡ none
        → (callbacks_of phase os ≡ []) × (callbacks_of phase (take_callback phase os).1 ≡ []))
      × ((c : ℕ)
          → (take_callback phase os).0 ≡ some c
          → callbacks_of phase os ≡ c ∷ callbacks_of phase (take_callback phase os).1)
unfolding take_callback callbacks_of
take_callback-callbacks_of phase [] = ((λ h. (refl, refl)), λ c h. absurd (ground (arith, h)))
take_callback-callbacks_of phase (o ∷ os) =
    let (none_waits, first) = take_callback-callbacks_of phase os in
    elim (Option-cases o.callback) [
      | inl empty ↦ rw empty (none_waits, (λ c h. first c h))
      | inr (callback, waits) ↦ elim (Bool-cases (o.phase == phase)) [
        | inl same ↦
            rw (waits, same)
              (
                (λ h. absurd (ground (arith, h))),
                λ c h. ap (λ d. d ∷ callbacks_of phase os) (some-injective callback c h),
              )
        | inr other ↦
            rw (waits, other)
              ((λ h. let (a, b) = none_waits h in (a, rw other b)), λ c h. rw other (first c h))
      ]
    ]

-- Those of another phase stay.
pub take_callback_other :
    (phase other : ℕ) (os : List Observer)
    → (phase == other) ≡ false
    → callbacks_of other (take_callback phase os).1 ≡ callbacks_of other os
unfolding take_callback callbacks_of
take_callback_other phase other [] h = refl
take_callback_other phase other (o ∷ os) h =
    let more = take_callback_other phase other os h in
    elim (Option-cases o.callback) [
      | inl empty ↦ rw empty more
      | inr (callback, waits) ↦ elim (Bool-cases (o.phase == phase)) [
        | inl same ↦
            let apart : (o.phase == other) ≡ false = ground (arith, h, same) in
            rw (waits, same) (rw apart refl)
        | inr different ↦
            rw (waits, different)
              (ap (λ rest. if o.phase == other then callback ∷ rest else rest) more)
      ]
    ]

-- Taking one leaves no more.
pub take_callback-le :
    (phase other : ℕ) (os : List Observer)
    → length (callbacks_of other (take_callback phase os).1) ≤ length (callbacks_of other os)
take_callback-le phase other os = elim (Bool-cases (phase == other)) [
  | inr different ↦
      let same = ap length (take_callback_other phase other os different) in omega arith
  | inl same ↦
      let e : phase ≡ other = ground arith in
      subst (λ p. length (callbacks_of p (take_callback phase os).1) ≤ length (callbacks_of p os)) e
        (let (none_waits, first) = take_callback-callbacks_of phase os in
          elim (Option-cases (take_callback phase os).0) [
            | inl nothing ↦
                let (a, b) = none_waits nothing in
                let e = ap length a in let e' = ap length b in omega arith
            | inr (c, found) ↦ let e' = ap length (first c found) in omega arith
          ])
]

callbacks_of-append :
    (phase other callback : ℕ) (os : List Observer)
    → (phase == other) ≡ false
    → callbacks_of other (os ++ (record { phase = phase; callback = some callback } ∷ []))
      ≡ callbacks_of other os
unfolding callbacks_of
callbacks_of-append phase other callback [] h = rw h
callbacks_of-append phase other callback (o ∷ os) h =
    ap
      (λ rest. elim o.callback as (λ x. List ℕ) [
        | none ↦ rest
        | some c ↦ if o.phase == other then c ∷ rest else rest
      ])
      (callbacks_of-append phase other callback os h)

pub apart :
    (s : State) (reached phase : ℕ)
    → s.reached reached ≡ true
    → s.reached phase ≡ false
    → (phase == reached) ≡ false
apart s reached phase open_now h = elim (Bool-cases (phase == reached)) [
  | inl same ↦
      let e : reached ≡ phase = ground arith in
      absurd (ground (arith, subst (λ q. s.reached q ≡ true) e open_now, h))
  | inr other ↦ other
]

-- Nothing is registered for a phase that is reached.
pub on_phase-callbacks_of :
    (s : State) (memory : Bool) (phase callback reached : ℕ)
    → s.reached reached ≡ true
    → callbacks_of reached (ml_lifecycle_on_phase memory phase (some callback) s).state.observers
      ≡ callbacks_of reached s.observers
unfolding ml_lifecycle_on_phase
on_phase-callbacks_of s memory phase callback reached h = elim (Bool-cases (not (is_phase phase))) [
  | inl bad ↦ rw (bad, ml_lifecycle_on_phase)
  | inr good ↦ elim (Bool-cases (s.reached phase)) [
    | inl late ↦ rw (good, ml_lifecycle_on_phase) (rw late refl)
    | inr early ↦ elim (Bool-cases (not memory)) [
      | inl full ↦ rw (good, ml_lifecycle_on_phase) (rw early (rw full refl))
      | inr room ↦
          rw (good, ml_lifecycle_on_phase)
            (rw early (
              rw room (
                callbacks_of-append phase reached callback s.observers
                  (apart s reached phase h early))))
    ]
  ]
]

-- What the loop answers, where `c` has run before the rest of it.
abbrev pub ran_first : ℕ → Answer (List ℕ) → Run (Answer (List ℕ))
ran_first c rest = done (record rest { answer = c ∷ rest.answer })

-- The loop, by what a search finds.
pub drain_loop-none :
    (call : Callbacks) (fuel phase : ℕ) (s : State)
    → (take_callback phase s.observers).0 ≡ none
    → drain_loop call (suc fuel) phase s
      ≡ done (record { answer = []; state = (take_next phase s).state })
unfolding drain_loop take_next
drain_loop-none call fuel phase s h = rw (h, drain_loop, take_next)

pub drain_loop-some :
    (call : Callbacks) (fuel phase c : ℕ) (s : State)
    → (take_callback phase s.observers).0 ≡ some c
    → drain_loop call (suc fuel) phase s
      ≡ (drain_loop call fuel phase (call c phase (take_next phase s).state) >>= ran_first c)
unfolding drain_loop take_next
drain_loop-some call fuel phase c s h = rw (h, drain_loop, take_next)

-- A callback of the phase leaves it reached, and the callbacks that wait for it.
abbrev pub IsQuiet : Callbacks → ℕ → Type 0
IsQuiet call phase =
    (c : ℕ) (s : State)
    → s.reached phase ≡ true
    → ((call c phase s).reached phase ≡ true)
      × (callbacks_of phase (call c phase s).observers ≡ callbacks_of phase s.observers)

-- All the callbacks have run, in their order.
Drained : ℕ → List ℕ → Run (Answer (List ℕ)) → Type 0
Drained phase cs m =
    (a : Answer (List ℕ)) × (m ≡ done a)
    × (a.state.reached phase ≡ true)
    × (callbacks_of phase a.state.observers ≡ [])
    × (a.answer ≡ cs)

drain_loop-Drained :
    (call : Callbacks) (fuel phase : ℕ) (s : State)
    → IsQuiet call phase
    → s.reached phase ≡ true
    → length (callbacks_of phase s.observers) < fuel
    → Drained phase (callbacks_of phase s.observers) (drain_loop call fuel phase s)
unfolding take_next Drained
drain_loop-Drained call zero phase s quiet open_now h = absurd (omega arith)
drain_loop-Drained call (suc fuel) phase s quiet open_now h =
    let (none_waits, first) = take_callback-callbacks_of phase s.observers in
    elim (Option-cases (take_callback phase s.observers).0) [
      | inl nothing ↦
          let (none_now, none_then) = none_waits nothing in
          (_, drain_loop-none call fuel phase s nothing, open_now, none_then, sym none_now)
      | inr (c, found) ↦
          let same = first c found in
          let (still_open, kept) = quiet c (take_next phase s).state open_now in
          let shorter = ap length (same ∙ ap (c ∷◌) (sym kept)) in
          let (a, ends, reached, drained, ran) =
            drain_loop-Drained call fuel phase (call c phase (take_next phase s).state) quiet
              still_open (omega arith) in
          (
            record a { answer = c ∷ a.answer },
            drain_loop-some call fuel phase c s found ∙ ap (λ m. m >>= ran_first c) ends,
            reached,
            drained,
            ap (c ∷◌) (ran ∙ kept) ∙ sym same,
          )
    ]

-- Advancing to a phase ends with the phase marked. The first time exactly the callbacks that wait
-- for the phase have run, in the order of their registration, and none waits any more; after that
-- nothing runs and no callback changes. A callback leaves a reached phase reached, and the
-- callbacks that wait for it.
pub ml_lifecycle_advance-Drained :
    (call : Callbacks) (phase : ℕ) (s : State)
    → IsQuiet call phase
    → is_phase phase ≡ true
    → (a : Answer (List ℕ)) × (ml_lifecycle_advance call phase s ≡ done (some a))
      × (a.state.reached phase ≡ true)
      × (s.reached phase ≡ false
          → (callbacks_of phase a.state.observers ≡ [])
            × (a.answer ≡ callbacks_of phase s.observers))
      × (s.reached phase ≡ true → (a.answer ≡ []) × (a.state.observers ≡ s.observers))
unfolding ml_lifecycle_advance mark_reached Drained
ml_lifecycle_advance-Drained call phase s quiet h =
    let s' : State = record s { reached = λ p. p == phase || s.reached p } in
    elim (Bool-cases (s.reached phase)) [
      | inl before ↦ (
        record { answer = []; state = s' },
        rw (h, ml_lifecycle_advance) (rw before),
        ground arith,
        (λ no_more. absurd (ground arith)),
        λ yes_before. (refl, refl),
      )
      | inr first ↦
          let (a, ends, reached, drained, ran) =
            drain_loop-Drained call (suc (length s.observers)) phase s' quiet (ground arith)
              (omega (arith, length-callbacks_of phase s.observers)) in
          (
            a,
            rw (h, ml_lifecycle_advance) (rw first (ap (λ m. m >>= λ run. done (some run)) ends)),
            reached,
            (λ h'. (drained, ran)),
            λ before. absurd (ground arith),
          )
    ]
