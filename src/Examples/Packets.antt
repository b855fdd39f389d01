-- ===== src/Examples/Packets.antt =====
-- A packet of six bytes: the theorem at a concrete input.
use argus.Prelude.{ℕ, ◌≡◌, refl, true, some, List, [], ◌∷◌}
use argus.Prelude.Int.{negsuc}
use argus.Text.{codes}
use argus.Pack.{unpack}

abbrev packet : List ℕ
packet = 1 ∷ 2 ∷ 255 ∷ 255 ∷ 255 ∷ 254 ∷ []

unpack_test : unpack (codes "x2 N") packet ≡ some (negsuc 1, true)
unfolding unpack
unpack_test = refl
