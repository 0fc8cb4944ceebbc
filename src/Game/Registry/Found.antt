-- ===== src/Game/Registry/Found.antt =====
-- A game is found by its executable in whatever folder, and by each of its names.
use yafsml.Prelude.{
  ℕ, ◌+◌, ◌≡◌, refl, ap, ◌∙◌, Bool, true, false, ◌&&◌, some, List, [], ◌∷◌, ◌++◌, ltb, leb, ◌==◌,
  if◌then◌else◌, All, arith,
}
use yafsml.Common.Path.{Wide, ml_path_separator, filename_loop, ml_path_filename}
use yafsml.Game.Registry.{Game, games, ml_game_by_id, ml_game_by_exe_path, exe_loop, is_exe}

abbrev pub fold_case : ℕ → ℕ
fold_case c = if leb b'A' c && leb c b'Z' then c + 32 else c

unfoldable pub same_folded : Wide → Wide → Bool
same_folded [] [] = true
same_folded [] (d ∷ ds) = false
same_folded (c ∷ cs) [] = false
same_folded (c ∷ cs) (d ∷ ds) = fold_case c == fold_case d && same_folded cs ds

unfoldable pub is_ascii : Wide → Bool
is_ascii [] = true
is_ascii (c ∷ cs) = ltb c 0x80 && is_ascii cs

-- lstrcmpiW compares names of ASCII characters without regard to case.
abbrev pub FoldsAscii : (Wide → Wide → Bool) → Type 0
FoldsAscii same_text =
    (s t : Wide) → is_ascii s ≡ true → is_ascii t ≡ true → same_text s t ≡ same_folded s t

filename_loop-append :
    (found dir rest : Wide) → filename_loop found (dir ++ (0x5c ∷ rest)) ≡ ml_path_filename rest
unfolding filename_loop ml_path_filename
filename_loop-append found [] rest = refl
filename_loop-append found (c ∷ cs) rest =
    filename_loop-append (if ml_path_separator c then cs ++ (0x5c ∷ rest) else found) cs rest

names_ascii : List Wide → Bool
names_ascii [] = true
names_ascii (p ∷ ps) = is_ascii (ml_path_filename p) && names_ascii ps

games_ascii : List Game → Bool
games_ascii [] = true
games_ascii (g ∷ gs) = names_ascii g.exe_relpaths && games_ascii gs

module _ (same_text : Wide → Wide → Bool) (folds : FoldsAscii same_text) where
  is_exe-folded :
      (filename : Wide) (ps : List Wide)
      → is_ascii filename ≡ true
      → names_ascii ps ≡ true
      → is_exe same_text filename ps ≡ is_exe same_folded filename ps
  unfolding is_exe names_ascii
  is_exe-folded filename [] f h = refl
  is_exe-folded filename (p ∷ ps) f h =
      rw (folds filename (ml_path_filename p) f (ground (arith, h))) (
        ap (λ b. if same_folded filename (ml_path_filename p) then true else b)
          (is_exe-folded filename ps f (ground (arith, h))))

  exe_loop-folded :
      (filename : Wide) (gs : List Game)
      → is_ascii filename ≡ true
      → games_ascii gs ≡ true
      → exe_loop same_text filename gs ≡ exe_loop same_folded filename gs
  unfolding exe_loop games_ascii
  exe_loop-folded filename [] f h = refl
  exe_loop-folded filename (g ∷ gs) f h =
      rw (is_exe-folded filename g.exe_relpaths f (ground (arith, h))) (
        ap (λ r. if is_exe same_folded filename g.exe_relpaths then some g else r)
          (exe_loop-folded filename gs f (ground (arith, h))))

  all_ascii : games_ascii games ≡ true
  unfolding games_ascii names_ascii is_ascii ml_path_filename
  all_ascii = refl

  in_folder :
      (g : Game) (exe dir : Wide)
      → is_ascii (ml_path_filename exe) ≡ true
      → exe_loop same_folded (ml_path_filename exe) games ≡ some g
      → ml_game_by_exe_path same_text (some (dir ++ (0x5c ∷ exe))) ≡ some g
  unfolding ml_game_by_exe_path ml_path_filename
  in_folder g exe dir ascii found =
      ap (λ name. exe_loop same_text name games)
        (filename_loop-append (dir ++ (0x5c ∷ exe)) dir exe)
      ∙ exe_loop-folded (ml_path_filename exe) games ascii all_ascii
      ∙ found

  -- What holds of a game in the table.
  abbrev pub IsFound : Game → Type 0
  IsFound g =
      (ml_game_by_id g.id ≡ some g)
      × All
          (λ exe.
            (dir : Wide) → ml_game_by_exe_path same_text (some (dir ++ (0x5c ∷ exe))) ≡ some g)
          g.exe_relpaths

  -- Each game of the table is found by its id, and by each of its executables in whatever folder
  -- that stands. lstrcmpiW compares ASCII names without regard to case.
  pub games-IsFound : All IsFound games
  unfolding ml_game_by_id exe_loop is_ascii ml_path_filename same_folded
  games-IsFound = (
    (refl, ((λ dir. in_folder _ _ dir refl refl), ((λ dir. in_folder _ _ dir refl refl), tt))),
    (
      (refl, ((λ dir. in_folder _ _ dir refl refl), tt)),
      (
        (refl, ((λ dir. in_folder _ _ dir refl refl), ((λ dir. in_folder _ _ dir refl refl), tt))),
        (
          (refl, ((λ dir. in_folder _ _ dir refl refl), tt)),
          (
            (
              refl,
              ((λ dir. in_folder _ _ dir refl refl), ((λ dir. in_folder _ _ dir refl refl), tt)),
            ),
            tt,
          ),
        ),
      ),
    ),
  )
