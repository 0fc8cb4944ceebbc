-- ===== src/Common/PathTests.antt =====
-- Runs of src/common/path.h, with a system that leaves paths as they are.
use yafsml.Prelude.{
  ℕ, ◌+◌, ◌≡◌, refl, true, none, some, ltb, if◌then◌else◌, length, take, codes, done,
}
use yafsml.Common.Path.{Wide}
use yafsml.Common.PathSystem.{Written, ml_path_resolve_alloc}

abbrev same_path : Wide → ℕ → Written
same_path path n =
    if ltb (length path) n
    then record { answer = length path; text = path }
    else record { answer = length path + 1; text = take n path }

-- A name below a folder, from the root of a share, and from the folder of another drive.
below_run :
    ml_path_resolve_alloc (λ n. true) same_path (some (codes "C:/Games\\")) (some (codes "mods/a"))
    ≡ done (some (codes "C:\\Games\\mods\\a"))
unfolding ml_path_resolve_alloc
below_run = refl

rooted_run :
    ml_path_resolve_alloc
      (λ n. true)
      same_path
      (some (codes "\\\\srv\\share\\x"))
      (some (codes "/a"))
    ≡ done (some (codes "\\\\srv\\share\\a"))
unfolding ml_path_resolve_alloc
rooted_run = refl

refused_run :
    ml_path_resolve_alloc (λ n. true) same_path (some (codes "C:\\Games")) (some (codes "D:a"))
    ≡ done none
unfolding ml_path_resolve_alloc
refused_run = refl
