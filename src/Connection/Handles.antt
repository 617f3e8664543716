-- ===== src/Connection/Handles.antt =====
-- Which handles a map of active notifications has while Close deletes them.
use go_adstc.Prelude.{ℕ, ◌≡◌, refl, arith, List, [], ◌∷◌}
use go_adstc.Prelude.{false, ◌==◌, ◌⊎◌, inl, inr, Bool-cases}
use go_adstc.Command.{remove_handle}

-- One of the handles of the map.
abbrev Has : ℕ → List (ℕ × ℕ) → Type 0
Has j [] = ⊥
Has j ((h, r) ∷ more) = (h ≡ j) ⊎ Has j more

-- Every handle of the second map is one of the first.
abbrev pub Within : List (ℕ × ℕ) → List (ℕ × ℕ) → Type 0
Within hs [] = Unit {0}
Within hs ((j, r) ∷ more) = Has j hs × Within hs more

Within-more : (h r : ℕ) (hs m : List (ℕ × ℕ)) → Within hs m → Within ((h, r) ∷ hs) m
Within-more h r hs [] w = tt
Within-more h r hs ((j, q) ∷ more) w = (inr w.0, Within-more h r hs more w.1)

pub Within-self : (m : List (ℕ × ℕ)) → Within m m
Within-self [] = tt
Within-self ((h, r) ∷ more) = (inl refl, Within-more h r more more (Within-self more))

pub Within-remove_handle :
    (h r : ℕ) (hs m : List (ℕ × ℕ)) → Within ((h, r) ∷ hs) m → Within hs (remove_handle h m)
unfolding remove_handle
Within-remove_handle h r hs [] w = tt
Within-remove_handle h r hs ((j, q) ∷ more) w = elim (Bool-cases (j == h)) [
  | inl same ↦ rw same (Within-remove_handle h r hs more w.1)
  | inr differ ↦ rw differ (later w.0 differ, Within-remove_handle h r hs more w.1)
]
  where
    later : (h ≡ j) ⊎ Has j hs → (j == h) ≡ false → Has j hs
    later (inl e) f = absurd (ground arith)
    later (inr k) f = k
