-- ===== src/Game/Tests.antt =====
-- The theorems on the registry at a comparison that meets their hypothesis.
use yafsml.Prelude.{refl, All}
use yafsml.Game.Registry.{games}
use yafsml.Game.Registry.Found.{IsFound, same_folded, games-IsFound}
use yafsml.Game.Registry.Detected.{IsDetected, games-IsDetected}

games-IsFound_example : All (IsFound same_folded (λ s t a b. refl)) games
games-IsFound_example = games-IsFound same_folded (λ s t a b. refl)

games-IsDetected_example : All (IsDetected same_folded (λ s t a b. refl)) games
games-IsDetected_example = games-IsDetected same_folded (λ s t a b. refl)
