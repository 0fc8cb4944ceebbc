-- ===== src/Game/Registry/Detected.antt =====
-- src/game/registry.c and src/common/path.h: the game of a process is that of its executable.
use yafsml.Prelude.{
  ℕ, suc, ◌*◌, ◌≤◌, ◌<◌, ◌≡◌, refl, ap, ◌∙◌, inl, inr, Bool, true, false, not, ◌&&◌, Option, some,
  [], ◌∷◌, ◌++◌, All, ltb, leb, ◌==◌, if◌then◌else◌, length, take, arith, Bool-cases, turn_then,
  turn_else, All-map, Run, done, ◌>>=◌,
}
use yafsml.Common.Path.{Wide, max_cch}
use yafsml.Common.PathSystem.{
  Written, has_buffer, module_filename_loop, ml_path_module_filename_alloc,
}
use yafsml.Game.Registry.{Game, games, ml_game_by_exe_path, ml_game_detect_current_process}
use yafsml.Game.Registry.Found.{FoldsAscii, IsFound, games-IsFound}

-- GetModuleFileNameW writes the path where it fits, and otherwise answers the size that it was given.
abbrev pub module_file_name : Wide → ℕ → Written
module_file_name path n =
    if ltb (length path) n
    then record { answer = length path; text = path }
    else record { answer = n; text = take n path }

turn_on :
    {A : Type 0} (b : Bool) (x y : A) → b ≡ true → elim b as (λ t. A) [ false ↦ y | true ↦ x ] ≡ x
turn_on true x y h = refl
turn_on false x y h = absurd (ground arith)

turn_off :
    {A : Type 0} (b : Bool) (x y : A) → b ≡ false → elim b as (λ t. A) [ false ↦ y | true ↦ x ] ≡ y
turn_off true x y h = absurd (ground arith)
turn_off false x y h = refl

module _ (path : Wide) (long : 0 < length path) (short : length path < max_cch) where
  abbrev loop : ℕ → ℕ → Run (Option Wide)
  loop fuel capacity = module_filename_loop (λ n. true) (module_file_name path) fuel capacity

  -- A buffer that is long enough is filled.
  loop_fits :
      (fuel capacity : ℕ)
      → capacity ≤ max_cch
      → length path < capacity
      → loop (suc fuel) capacity ≡ done (some path)
  unfolding module_filename_loop
  loop_fits fuel capacity small fits =
      let written : module_file_name path capacity ≡ record { answer = length path; text = path } =
        turn_then (ltb (length path) capacity) _ _ (ground arith) in
      let answered = ap (λ (w : Written). w.answer) written in
      turn_on
        (leb capacity max_cch
          && has_buffer (λ n. true) capacity
          && not ((module_file_name path capacity).answer == 0))
        _ _ (ground (arith, answered))
      ∙ turn_on (ltb (module_file_name path capacity).answer capacity) _ _
          (ground (arith, answered))
      ∙ ap (λ (w : Written). done (some w.text)) written

  -- A shorter one is doubled.
  loop_doubles :
      (fuel capacity : ℕ)
      → capacity ≤ max_cch
      → 0 < capacity
      → capacity ≤ length path
      → loop (suc fuel) capacity ≡ loop fuel (capacity * 2)
  unfolding module_filename_loop
  loop_doubles fuel capacity small some_room full =
      let written : module_file_name path capacity
          ≡ record { answer = capacity; text = take capacity path } =
        turn_else (ltb (length path) capacity) _ _ (ground arith) in
      let answered = ap (λ (w : Written). w.answer) written in
      turn_on
        (leb capacity max_cch
          && has_buffer (λ n. true) capacity
          && not ((module_file_name path capacity).answer == 0))
        _ _ (ground (arith, answered))
      ∙ turn_off (ltb (module_file_name path capacity).answer capacity) _ _
          (ground (arith, answered))

  loop_finds :
      (fuel capacity : ℕ)
      → capacity ≤ max_cch
      → 0 < capacity
      → loop fuel (capacity * 2) ≡ done (some path)
      → loop (suc fuel) capacity ≡ done (some path)
  loop_finds fuel capacity small some_room next = elim (Bool-cases (ltb (length path) capacity)) [
    | inl fits ↦ loop_fits fuel capacity small (ground arith)
    | inr full ↦ loop_doubles fuel capacity small some_room (ground arith) ∙ next
  ]

  ml_path_module_filename_alloc-path :
      ml_path_module_filename_alloc (λ n. true) (module_file_name path) ≡ done (some path)
  unfolding ml_path_module_filename_alloc
  ml_path_module_filename_alloc-path = loop_finds 8 256 (omega arith) (omega arith) (
      loop_finds 7 512 (omega arith) (omega arith) (
        loop_finds 6 1024 (omega arith) (omega arith) (
          loop_finds 5 2048 (omega arith) (omega arith) (
            loop_finds 4 4096 (omega arith) (omega arith) (
              loop_finds 3 8192 (omega arith) (omega arith) (
                loop_finds 2 16384 (omega arith) (omega arith)
                  (loop_fits 1 max_cch (omega arith) short)))))))

module _ (same_text : Wide → Wide → Bool) (folds : FoldsAscii same_text) where
  -- The game is known by the executable of the process.
  abbrev pub IsDetected : Game → Type 0
  IsDetected g =
      All
        (λ exe.
          (dir : Wide)
          → length (dir ++ (0x5c ∷ exe)) < max_cch
          → ml_game_detect_current_process same_text (λ n. true)
              (module_file_name (dir ++ (0x5c ∷ exe)))
            ≡ done (some g))
        g.exe_relpaths

  longer : (dir exe : Wide) → 0 < length (dir ++ (0x5c ∷ exe))
  longer [] exe = omega arith
  longer (c ∷ cs) exe = omega arith

  found-IsDetected : (g : Game) → IsFound same_text folds g → IsDetected g
  unfolding ml_game_detect_current_process
  found-IsDetected g found =
      All-map _ _
        (λ exe by_path dir short.
          ap (λ t. t >>= (λ path. done (ml_game_by_exe_path same_text path)))
            (ml_path_module_filename_alloc-path (dir ++ (0x5c ∷ exe)) (longer dir exe) short)
          ∙ ap done (by_path dir))
        g.exe_relpaths found.1

  -- A process whose file name is a folder and an executable of a game is detected as that game,
  -- where memory lasts and the name has less than 32768 characters, however long:
  -- GetModuleFileNameW writes a name that fits, and otherwise answers the size that it was given.
  -- lstrcmpiW compares ASCII names without regard to case.
  pub games-IsDetected : All IsDetected games
  games-IsDetected = All-map _ _ found-IsDetected games (games-IsFound same_text folds)
