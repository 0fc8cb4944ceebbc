-- ===== src/Game/Registry.antt =====
-- src/game/registry.c: the games, and how one is found. `same_text` is `lstrcmpiW(a, b) == 0`.
pub mod Found
pub mod Detected
use yafsml.Prelude.{
  ℕ, Bool, true, false, Option, none, some, List, [], ◌∷◌, ◌==◌, if◌then◌else◌, codes, Run, done,
  ◌>>=◌,
}
use yafsml.Common.Path.{Wide, ml_path_filename}
use yafsml.Common.PathSystem.{Written, ml_path_module_filename_alloc}

-- The fields of ml_game_descriptor_t that the lookups read. Games have the numbers of ml_game_id_t.
pub record Game : Type 0 where
  pub id : ℕ
  pub app_id : ℕ
  pub exe_relpaths : List Wide

abbrev pub dark_souls_3 : ℕ
dark_souls_3 = 1

abbrev pub sekiro : ℕ
sekiro = 2

abbrev pub elden_ring : ℕ
elden_ring = 3

abbrev pub armored_core_6 : ℕ
armored_core_6 = 4

abbrev pub nightreign : ℕ
nightreign = 5

abbrev pub games : List Game
games =
    record {
      id = dark_souls_3;
      app_id = 374320;
      exe_relpaths = codes "Game\\DarkSoulsIII.exe" ∷ codes "DarkSoulsIII.exe" ∷ [];
    }
    ∷ record { id = sekiro; app_id = 814380; exe_relpaths = codes "sekiro.exe" ∷ [] }
    ∷ record {
      id = elden_ring;
      app_id = 1245620;
      exe_relpaths = codes "Game\\eldenring.exe" ∷ codes "eldenring.exe" ∷ [];
    }
    ∷ record {
      id = armored_core_6;
      app_id = 1888160;
      exe_relpaths = codes "Game\\armoredcore6.exe" ∷ [];
    }
    ∷ record {
      id = nightreign;
      app_id = 2622380;
      exe_relpaths = codes "Game\\nightreign.exe" ∷ codes "nightreign.exe" ∷ [];
    }
    ∷ []

pub record Alias : Type 0 where
  pub alias : Wide
  pub id : ℕ

abbrev pub named : Wide → ℕ → Alias
named alias id = record { alias = alias; id = id }

abbrev pub aliases : List Alias
aliases =
    named (codes "darksouls3") dark_souls_3
    ∷ named (codes "dark-souls-3") dark_souls_3
    ∷ named (codes "ds3") dark_souls_3
    ∷ named (codes "sekiro") sekiro
    ∷ named (codes "eldenring") elden_ring
    ∷ named (codes "elden-ring") elden_ring
    ∷ named (codes "er") elden_ring
    ∷ named (codes "armoredcore6") armored_core_6
    ∷ named (codes "ac6") armored_core_6
    ∷ named (codes "nightreign") nightreign
    ∷ named (codes "nr") nightreign
    ∷ named (codes "nightrein") nightreign
    ∷ []

unfoldable pub id_loop : ℕ → List Game → Option Game
id_loop id [] = none
id_loop id (g ∷ gs) = let more = id_loop id gs in if g.id == id then some g else more

unfoldable pub ml_game_by_id : ℕ → Option Game
unfolding id_loop
ml_game_by_id id = id_loop id games

unfoldable pub key_loop : (Wide → Wide → Bool) → Wide → List Alias → Option Game
unfolding ml_game_by_id
key_loop same_text key [] = none
key_loop same_text key (a ∷ rest) =
    let more = key_loop same_text key rest in
    if same_text key a.alias then ml_game_by_id a.id else more

unfoldable pub ml_game_by_key : (Wide → Wide → Bool) → Option Wide → Option Game
unfolding key_loop
ml_game_by_key same_text none = none
ml_game_by_key same_text (some key) = key_loop same_text key aliases

unfoldable pub is_exe : (Wide → Wide → Bool) → Wide → List Wide → Bool
unfolding ml_path_filename
is_exe same_text filename [] = false
is_exe same_text filename (p ∷ ps) =
    let more = is_exe same_text filename ps in
    if same_text filename (ml_path_filename p) then true else more

unfoldable pub exe_loop : (Wide → Wide → Bool) → Wide → List Game → Option Game
unfolding is_exe
exe_loop same_text filename [] = none
exe_loop same_text filename (g ∷ gs) =
    let more = exe_loop same_text filename gs in
    if is_exe same_text filename g.exe_relpaths then some g else more

unfoldable pub ml_game_by_exe_path : (Wide → Wide → Bool) → Option Wide → Option Game
unfolding exe_loop ml_path_filename
ml_game_by_exe_path same_text none = none
ml_game_by_exe_path same_text (some path) = exe_loop same_text (ml_path_filename path) games

-- The game of the process: `get_module_file_name` is what GetModuleFileNameW answers.
unfoldable pub ml_game_detect_current_process :
    (Wide → Wide → Bool) → (ℕ → Bool) → (ℕ → Written) → Run (Option Game)
unfolding ml_game_by_exe_path ml_path_module_filename_alloc
ml_game_detect_current_process same_text memory get_module_file_name = do
  path ← ml_path_module_filename_alloc memory get_module_file_name
  done (ml_game_by_exe_path same_text path)
