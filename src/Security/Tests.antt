-- ===== src/Security/Tests.antt =====
-- CHash.hpp at concrete hashes.
use ubiquitous_chainsaw.Base.{◌≡◌, refl, true, [], ◌∷◌}
use ubiquitous_chainsaw.Security.Interface.{Algorithm}
use ubiquitous_chainsaw.Security.Hash.{CHash, ne, as_string}

abbrev left : CHash
left = record { hash_type = Algorithm.sha2_256; bytes = 1 ∷ 2 ∷ 3 ∷ [] }

abbrev right : CHash
right = record { hash_type = Algorithm.sha2_256; bytes = 1 ∷ 9 ∷ 3 ∷ [] }

differ : ne left right ≡ true
unfolding ne
differ = refl

as_string_pair : as_string (171 ∷ 5 ∷ []) ≡ b'a' ∷ b'b' ∷ b'0' ∷ b'5' ∷ []
unfolding as_string
as_string_pair = refl
