-- ===== src/Launcher/LaunchConfig.antt =====
-- src/launcher/launch_config.c: which game the configuration names. inih, which reads the file, calls
-- the handler for each entry in turn; `to_wide` is MultiByteToWideChar into the 64 characters of a key,
-- which may leave something there where it fails, and `same_name` is `lstrcmpA(a, b) == 0`.
pub mod Last
use yafsml.Prelude.{
  ℕ, ◌-◌, Bool, true, false, not, ◌&&◌, ◌||◌, Option, none, some, List, [], ◌∷◌, Bytes, ◌==◌,
  if◌then◌else◌, length, codes, take, ltb, leb, ◌+◌, Run, done, fault, ◌>>=◌,
}
use yafsml.Common.Path.{Wide}
use yafsml.Common.PathSystem.{nonempty}
use yafsml.Game.Registry.{Game, ml_game_by_id, ml_game_by_key, elden_ring}

-- The arguments of one call of the handler; a NULL pointer is `none`.
pub record IniEntry : Type 0 where
  pub section : Option Bytes
  pub name : Option Bytes
  pub value : Option Bytes

-- game_config_state_t
pub record GameConfigState : Type 0 where
  pub found : Bool
  pub key : Wide
  pub game : Option Game

abbrev pub no_state : GameConfigState
no_state = record { found = false; key = []; game = none }

-- `section == NULL || section[0] != '\0' || name == NULL || lstrcmpA(name, "game") != 0`, turned
-- round.
abbrev pub is_game_entry : (Bytes → Bytes → Bool) → IniEntry → Bool
is_game_entry same_name e = elim e.section [
  | none ↦ false
  | some section ↦ elim e.name [
    | none ↦ false
    | some name ↦ length section == 0 && same_name name (codes "game")
  ]
]

-- Whether the conversion succeeds, and the 64 characters of the array after it.
pub record Converted : Type 0 where
  pub converted : Bool
  pub cells : Wide

-- What stands before the first NUL of an array, or all of it.
unfoldable pub before_nul : Wide → Wide
before_nul [] = []
before_nul (c ∷ cs) = let more = before_nul cs in if c == 0 then [] else c ∷ more

-- The size of `state->key`.
abbrev pub key_size : ℕ
key_size = 64

-- lstrcpynW from the array of the key. Where the array has no NUL, it is read to its end at most.
abbrev pub copy_key : ℕ → Wide → Run Wide
copy_key key_count key =
    if ltb (length key) key_size || leb key_count (key_size + 1)
    then done (take (key_count - 1) key)
    else fault

module _ (same_name : Bytes → Bytes → Bool) (same_text : Wide → Wide → Bool)
    (to_wide : Bytes → Converted) where
  -- The state that an entry for the game leaves, whatever was there.
  unfoldable pub state_of_value : Option Bytes → GameConfigState
  unfolding before_nul ml_game_by_key
  state_of_value none = record { found = true; key = []; game = none }
  state_of_value (some value) =
      let c = to_wide value in
      let key = before_nul (take (key_size - 1) c.cells) in
      if c.converted
      then record { found = true; key = key; game = ml_game_by_key same_text (some key) }
      else record { found = true; key = before_nul c.cells; game = none }

  unfoldable pub game_config_handler : GameConfigState → IniEntry → GameConfigState
  unfolding state_of_value
  game_config_handler state e = if is_game_entry same_name e then state_of_value e.value else state

  unfoldable pub handle_all : GameConfigState → List IniEntry → GameConfigState
  unfolding game_config_handler
  handle_all state [] = state
  handle_all state (e ∷ es) = handle_all (game_config_handler state e) es

  -- ml_launcher_game_config_result_t, with the game and the key that are reported.
  pub data GameConfigResult : Type 0 where
    not_specified error : GameConfigResult
    found_game : Game → GameConfigResult
    invalid : Wide → GameConfigResult

  -- `key_count` is the size of the array for an invalid key; lstrcpynW cuts the key to it.
  unfoldable pub game_config_result : ℕ → GameConfigState → ℕ → Run GameConfigResult
  game_config_result key_count state parse_result =
      let named = elim state.game as (λ x. Run GameConfigResult) [
        | none ↦ copy_key key_count state.key >>= λ key. done (invalid key)
        | some game ↦ done (found_game game)
      ] in
      if not (parse_result == 0)
      then done error
      else if not state.found
      then done not_specified
      else named

  -- The entries that inih finds in the text, and what it returns.
  unfoldable pub ml_launcher_game_from_ini_string :
      ℕ → Option (List IniEntry) → ℕ → Run GameConfigResult
  unfolding handle_all game_config_result
  ml_launcher_game_from_ini_string key_count none parse_result = done error
  ml_launcher_game_from_ini_string key_count (some entries) parse_result =
      game_config_result key_count (handle_all no_state entries) parse_result

  -- The same of a file: `file` is `none` where it cannot be opened.
  unfoldable pub ml_launcher_game_from_ini_file :
      ℕ → Option Wide → Option (List IniEntry) → ℕ → Run GameConfigResult
  unfolding handle_all game_config_result
  ml_launcher_game_from_ini_file key_count path file parse_result = elim (nonempty path) [
    | none ↦ done error
    | some name ↦ elim file [
      | none ↦ done error
      | some entries ↦ game_config_result key_count (handle_all no_state entries) parse_result
    ]
  ]

unfoldable pub ml_launcher_select_game : Option Game → Option Game → Option Game
unfolding ml_game_by_id
ml_launcher_select_game (some explicit_game) config_game = some explicit_game
ml_launcher_select_game none (some config_game) = some config_game
ml_launcher_select_game none none = ml_game_by_id elden_ring

unfoldable pub has_drive : Wide → Bool
has_drive [] = false
has_drive (c ∷ cs) = c == b':' || has_drive cs

abbrev pub starts_plain : Wide → Bool
starts_plain [] = true
starts_plain (c ∷ cs) = not (c == 0x5c) && not (c == b'/')

unfoldable pub ml_launcher_path_is_relative : Option Wide → Bool
unfolding has_drive
ml_launcher_path_is_relative none = false
ml_launcher_path_is_relative (some path) = not (has_drive path) && starts_plain path
