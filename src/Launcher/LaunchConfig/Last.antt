-- ===== src/Launcher/LaunchConfig/Last.antt =====
-- The last entry for the game decides.
use yafsml.Prelude.{
  ℕ, ◌≡◌, refl, ap, sym, ◌∙◌, Bool, true, false, Option, none, some, List, [], ◌∷◌, Bytes, ◌==◌,
  if◌then◌else◌, Bool-cases, inl, inr, take, arith, ◌-◌, zero, suc, ◌≤◌, leb, done, Run, ◌>>=◌,
}
use yafsml.Common.Path.{Wide}
use yafsml.Game.Registry.{Game, ml_game_by_key}
use yafsml.Launcher.LaunchConfig.{
  Converted, before_nul, copy_key, IniEntry, GameConfigState, no_state, is_game_entry,
  state_of_value, game_config_handler, handle_all, GameConfigResult, not_specified, error, invalid,
  found_game, game_config_result, ml_launcher_game_from_ini_string,
}

module _ (same_name : Bytes → Bytes → Bool) (same_text : Wide → Wide → Bool)
    (to_wide : Bytes → Converted) where
  -- The value of the last entry for the game.
  unfoldable pub last_value : List IniEntry → Option (Option Bytes)
  last_value [] = none
  last_value (e ∷ es) = elim (last_value es) [
    | some value ↦ some value
    | none ↦ if is_game_entry same_name e then some e.value else none
  ]

  abbrev pub state_after : GameConfigState → Option (Option Bytes) → GameConfigState
  state_after state none = state
  state_after state (some value) = state_of_value same_name same_text to_wide value

  state_after-cons :
      (state : GameConfigState) (e : IniEntry) (later : Option (Option Bytes))
      → state_after (game_config_handler same_name same_text to_wide state e) later
        ≡ state_after state (elim later as (λ x. Option (Option Bytes)) [
          | some value ↦ some value
          | none ↦ if is_game_entry same_name e then some e.value else none
        ])
  unfolding game_config_handler
  state_after-cons state e (some value) = refl
  state_after-cons state e none = elim (Bool-cases (is_game_entry same_name e)) [
    | inl game ↦ rw (game, game_config_handler)
    | inr other ↦ rw (other, game_config_handler)
  ]

  handle_all-last_value :
      (state : GameConfigState) (es : List IniEntry)
      → handle_all same_name same_text to_wide state es ≡ state_after state (last_value es)
  unfolding handle_all last_value
  handle_all-last_value state [] = refl
  handle_all-last_value state (e ∷ es) =
      handle_all-last_value (game_config_handler same_name same_text to_wide state e) es
      ∙ state_after-cons state e (last_value es)

  -- What a value means: its game, or the characters that name none.
  unfoldable pub decided : ℕ → Option (Option Bytes) → GameConfigResult same_name same_text to_wide
  unfolding before_nul ml_game_by_key
  decided key_count none = not_specified
  decided key_count (some none) = invalid []
  decided key_count (some (some value)) =
      let c = to_wide value in
      let key = before_nul (take 63 c.cells) in
      if c.converted
      then elim (ml_game_by_key same_text (some key))
          as (λ x. GameConfigResult same_name same_text to_wide) [
            | none ↦ invalid (take (key_count - 1) key)
            | some game ↦ found_game game
          ]
      else invalid (take (key_count - 1) (before_nul c.cells))

  take_nil : (n : ℕ) → take {A = ℕ} n [] ≡ []
  take_nil zero = refl
  take_nil (suc n) = refl

  copied :
      (key_count : ℕ) (key : Wide)
      → key_count ≤ 65
      → copy_key key_count key ≡ done (take (key_count - 1) key)
  copied key_count key h = let fits : leb key_count 65 ≡ true = ground arith in ground (arith, fits)

  abbrev as_invalid : Wide → Run (GameConfigResult same_name same_text to_wide)
  as_invalid key = done (invalid key)

  reported : {m : Run Wide} {key : Wide} → m ≡ done key → (m >>= as_invalid) ≡ as_invalid key
  reported e = ap (λ m. m >>= as_invalid) e

  named :
      (key_count : ℕ) (key : Wide) (game : Option Game)
      → key_count ≤ 65
      → game_config_result same_name same_text to_wide key_count
          (record { found = true; key = key; game = game })
          0
        ≡ done (elim game as (λ x. GameConfigResult same_name same_text to_wide) [
          | none ↦ invalid (take (key_count - 1) key)
          | some game ↦ found_game game
        ])
  unfolding game_config_result
  named key_count key none h = reported (copied key_count key h)
  named key_count key (some game) h = refl

  null_state :
      state_of_value same_name same_text to_wide none
      ≡ record { found = true; key = []; game = none }
  unfolding state_of_value
  null_state = refl

  failed_state :
      (value : Bytes)
      → (to_wide value).converted ≡ false
      → state_of_value same_name same_text to_wide (some value)
        ≡ record { found = true; key = before_nul (to_wide value).cells; game = none }
  unfolding state_of_value
  failed_state value bad = rw (bad, state_of_value)

  converted_state :
      (value : Bytes)
      → (to_wide value).converted ≡ true
      → state_of_value same_name same_text to_wide (some value) ≡ record {
        found = true;
        key = before_nul (take 63 (to_wide value).cells);
        game = ml_game_by_key same_text (some (before_nul (take 63 (to_wide value).cells)));
      }
  unfolding state_of_value
  converted_state value good = rw (good, state_of_value)

  result-decided :
      (key_count : ℕ) (value : Option (Option Bytes))
      → key_count ≤ 65
      → game_config_result same_name same_text to_wide key_count (state_after no_state value) 0
        ≡ done (decided key_count value)
  unfolding game_config_result decided
  result-decided key_count none h = refl
  result-decided key_count (some none) h =
      ap (λ s. game_config_result same_name same_text to_wide key_count s 0) null_state
      ∙ reported (copied key_count [] h)
      ∙ ap (λ k. done (invalid k)) (take_nil (key_count - 1))
  result-decided key_count (some (some value)) h = elim (Bool-cases (to_wide value).converted) [
    | inr bad ↦
        let key = before_nul (to_wide value).cells in
        let state = failed_state value bad in
        let meant : decided key_count (some (some value)) ≡ invalid (take (key_count - 1) key) =
          rw (bad, decided) in
        ap (λ s. game_config_result same_name same_text to_wide key_count s 0) state
        ∙ reported (copied key_count key h)
        ∙ ap done (sym meant)
    | inl good ↦
        let key = before_nul (take 63 (to_wide value).cells) in
        let state = converted_state value good in
        let meant : decided key_count (some (some value))
            ≡ elim (ml_game_by_key same_text (some key))
                as (λ x. GameConfigResult same_name same_text to_wide) [
                  | none ↦ invalid (take (key_count - 1) key)
                  | some game ↦ found_game game
                ] =
          rw (good, decided) in
        ap (λ s. game_config_result same_name same_text to_wide key_count s 0) state
        ∙ named key_count key (ml_game_by_key same_text (some key)) h
        ∙ ap done (sym meant)
  ]

  -- Where inih reads the text to its end, the last entry game outside every section decides:
  -- without one nothing is specified, a value that converts to a key of a game gives that game,
  -- one that converts to another key gives the key as invalid, a missing one an empty key, and
  -- one that does not convert what the conversion has left in the key, each cut to the size of
  -- the array. A line that inih refuses makes the result an error. The array for the key has 65
  -- characters at most, so that a key without a NUL is not read past its end.
  pub ml_launcher_game_from_ini_string-last_value :
      (key_count : ℕ) (entries : List IniEntry)
      → key_count ≤ 65
      → (ml_launcher_game_from_ini_string same_name same_text to_wide key_count (some entries) 0
          ≡ done (decided key_count (last_value entries)))
        × ((line : ℕ)
            → ml_launcher_game_from_ini_string same_name same_text to_wide key_count
                (some entries)
                (suc line)
              ≡ done error)
  unfolding ml_launcher_game_from_ini_string game_config_result
  ml_launcher_game_from_ini_string-last_value key_count entries h = (
    ap (λ state. game_config_result same_name same_text to_wide key_count state 0)
          (handle_all-last_value no_state entries)
        ∙ result-decided key_count (last_value entries) h,
    λ line. let bad : (suc line == 0) ≡ false = ground arith in rw bad,
  )
