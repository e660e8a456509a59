-- ===== src/Replay/Expired.antt =====
-- What becomes of the age of a block that has been accepted.
use ubiquitous_chainsaw.Base.{ℕ, ◌≡◌, Bool, List, [], ◌∷◌, ◌⊎◌}
use ubiquitous_chainsaw.Replay.Protector.{Ages}

-- The age of the block, made at the start, is there.
abbrev Aged : List ℕ → Bool → ℕ → Ages → Type 0
Aged block valid start [] = ⊥
Aged block valid start (age ∷ ages) =
    ((age.block ≡ block) × (age.valid ≡ valid) × (age.start ≡ start)) ⊎ Aged block valid start ages
