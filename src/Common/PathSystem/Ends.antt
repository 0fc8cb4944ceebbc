-- ===== src/Common/PathSystem/Ends.antt =====
-- src/common/path.h: the loops that ask the system for a path end.
use yafsml.Prelude.{
  ℕ, zero, suc, ◌+◌, ◌*◌, ◌^◌, ◌≤◌, ◌<◌, ◌≡◌, refl, Bool, true, false, not, ◌&&◌, Option, none,
  some, ltb, leb, ◌==◌, arith, Run, done, Returns, returned,
}
use yafsml.Common.Path.{Wide, max_cch}
use yafsml.Common.PathSystem.{
  Written, has_buffer, joined_path, full_path_loop, ml_path_resolve_alloc, module_filename_loop,
  ml_path_module_filename_alloc, environment_loop, ml_path_environment_alloc, rounds,
}

-- What the system documents: where the buffer is too short, it answers the room that is needed, which is more.
pub NeedsMore : (ℕ → Written) → Type 0
NeedsMore get = (n : ℕ) → 0 < n → n ≤ (get n).answer → n < (get n).answer

abbrev pub Ended : Option Wide → Type 0
Ended o = Unit {0}

either_way :
    {x y : Run (Option Wide)} (b : Bool)
    → (b ≡ true → Returns Ended x)
    → (b ≡ false → Returns Ended y)
    → Returns Ended (elim b as (λ t. Run (Option Wide)) [ false ↦ y | true ↦ x ])
either_way true h k = h refl
either_way false h k = k refl

module _ (memory : ℕ → Bool) where
  full_path_loop-Ended :
      (get : Wide → ℕ → Written) (joined : Wide)
      → NeedsMore (get joined)
      → (fuel capacity : ℕ) → max_cch + 1 < fuel + capacity
      → 0 < fuel
      → Returns Ended (full_path_loop memory get joined fuel capacity)
  unfolding full_path_loop NeedsMore
  full_path_loop-Ended get joined more zero capacity enough some_fuel = absurd (omega arith)
  full_path_loop-Ended get joined more (suc fuel) capacity enough some_fuel =
      either_way (has_buffer memory capacity)
        (λ room.
          either_way (ltb (get joined capacity).answer capacity) (λ fits. returned _ tt)
            (λ short.
              let above : capacity < (get joined capacity).answer =
                more capacity (ground arith) (ground arith) in
              full_path_loop-Ended get joined more fuel (get joined capacity).answer (ground arith)
                (ground arith)))
        (λ e. returned _ tt)

  -- Whatever the memory, the base and the name: where GetFullPathNameW asks for more room than it was given
  -- whenever it has too little, the path is resolved or refused after a bounded number of rounds.
  pub ml_path_resolve_alloc_ends :
      (get : Wide → ℕ → Written)
      → ((joined : Wide) → NeedsMore (get joined))
      → (base requested : Option Wide)
      → Returns Ended (ml_path_resolve_alloc memory get base requested)
  unfolding ml_path_resolve_alloc
  ml_path_resolve_alloc_ends get more base requested = of_joined (joined_path memory base requested)
    where
      of_joined :
          (o : Option Wide)
          → Returns Ended (elim o as (λ x. Run (Option Wide)) [
            | none ↦ done none
            | some joined ↦ full_path_loop memory get joined rounds (get joined 0).answer
          ])
      of_joined none = returned _ tt
      of_joined (some joined) =
          full_path_loop-Ended get joined (more joined) rounds (get joined 0).answer (omega arith)
            (omega arith)

  module_filename_loop-Ended :
      (get : ℕ → Written) (fuel capacity : ℕ)
      → max_cch < capacity * 2 ^ fuel
      → Returns Ended (module_filename_loop memory get (suc fuel) capacity)
  unfolding module_filename_loop
  module_filename_loop-Ended get zero capacity large =
      either_way
        (leb capacity max_cch && has_buffer memory capacity && not ((get capacity).answer == 0))
        (λ fits. absurd (ground arith)) (λ e. returned _ tt)
  module_filename_loop-Ended get (suc fuel) capacity large =
      either_way
        (leb capacity max_cch && has_buffer memory capacity && not ((get capacity).answer == 0))
        (λ fits.
          either_way (ltb (get capacity).answer capacity) (λ e. returned _ tt)
            (λ e. module_filename_loop-Ended get fuel (capacity * 2) (grind arith)))
        (λ e. returned _ tt)

  -- Whatever GetModuleFileNameW answers, the file name of a module is found or refused after nine rounds.
  ml_path_module_filename_alloc_ends :
      (get : ℕ → Written) → Returns Ended (ml_path_module_filename_alloc memory get)
  unfolding ml_path_module_filename_alloc
  ml_path_module_filename_alloc_ends get = module_filename_loop-Ended get 8 256 (omega arith)

  environment_loop-Ended :
      (get : ℕ → Written)
      → NeedsMore get
      → (fuel capacity : ℕ) → max_cch + 1 < fuel + capacity
      → 0 < fuel
      → Returns Ended (environment_loop memory get fuel capacity)
  unfolding environment_loop NeedsMore
  environment_loop-Ended get more zero capacity enough some_fuel = absurd (omega arith)
  environment_loop-Ended get more (suc fuel) capacity enough some_fuel =
      either_way (ltb 1 capacity && has_buffer memory capacity && not ((get capacity).answer == 0))
        (λ room.
          either_way (ltb (get capacity).answer capacity) (λ fits. returned _ tt)
            (λ short.
              let above : capacity < (get capacity).answer =
                more capacity (ground arith) (ground arith) in
              environment_loop-Ended get more fuel (get capacity).answer (ground arith)
                (ground arith)))
        (λ e. returned _ tt)

  -- A variable of the environment is read, or none is, after a bounded number of rounds, where
  -- GetEnvironmentVariableW asks for more room than it was given whenever it has too little.
  ml_path_environment_alloc_ends :
      (get : ℕ → Written) → NeedsMore get → Returns Ended (ml_path_environment_alloc memory get)
  unfolding ml_path_environment_alloc
  ml_path_environment_alloc_ends get more =
      environment_loop-Ended get more rounds (get 0).answer (omega arith) (omega arith)
