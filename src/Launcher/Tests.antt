-- ===== src/Launcher/Tests.antt =====
-- Runs of the choice of the game, and the theorems at inputs.
use yafsml.Prelude.{
  ℕ, suc, ◌-◌, ◌++◌, ◌≡◌, refl, arith, ltb, length, take, replicate, done, some, List, [], ◌∷◌,
  Bytes, codes,
}
use yafsml.Game.Registry.Found.{same_folded}
use yafsml.Launcher.LaunchConfig.{Converted, IniEntry, error, ml_launcher_game_from_ini_string}
use yafsml.Launcher.LaunchConfig.Last.{
  last_value, decided, ml_launcher_game_from_ini_string-last_value,
}

-- The text fits, with zeros behind it, or fills the array.
abbrev wide : Bytes → Converted
wide s = record { converted = ltb (length s) 64; cells = take 64 s ++ replicate (64 - length s) 0 }

abbrev entry : Bytes → Bytes → Bytes → IniEntry
entry section name value = record { section = some section; name = some name; value = some value }

abbrev two_games : List IniEntry
two_games =
    entry [] (codes "game") (codes "sekiro")
    ∷ entry [] (codes "game") (codes "ER")
    ∷ entry (codes "mods") (codes "game") (codes "nr")
    ∷ []

ml_launcher_game_from_ini_string-last_value_example :
    (ml_launcher_game_from_ini_string same_folded same_folded wide 64 (some two_games) 0
      ≡ done (
          decided same_folded same_folded wide 64
            (last_value same_folded same_folded wide two_games)))
    × ((line : ℕ)
        → ml_launcher_game_from_ini_string same_folded same_folded wide 64
            (some two_games)
            (suc line)
          ≡ done error)
ml_launcher_game_from_ini_string-last_value_example =
    ml_launcher_game_from_ini_string-last_value same_folded same_folded wide 64 two_games
      (omega arith)

last_runs : last_value same_folded same_folded wide two_games ≡ some (some (codes "ER"))
unfolding last_value same_folded
last_runs = refl
