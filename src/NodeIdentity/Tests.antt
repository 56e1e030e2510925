-- ===== src/NodeIdentity/Tests.antt =====
-- Node IDs on concrete values.
use connecttool_qt.Base.{◌≡◌, ◌≢◌, refl, [], ◌∷◌, true, arith}
use connecttool_qt.NodeIdentity.Defs.{NodeId, compare, has_priority}

abbrev low_id : NodeId
low_id = 1 ∷ 2 ∷ []

abbrev middle_id : NodeId
middle_id = 1 ∷ 3 ∷ []

abbrev high_id : NodeId
high_id = 2 ∷ 0 ∷ []

middle_wins : has_priority middle_id low_id ≡ true
unfolding has_priority compare
middle_wins = refl

high_wins : has_priority high_id middle_id ≡ true
unfolding has_priority compare
high_wins = refl

low-ne-high : low_id ≢ high_id
low-ne-high h = ground arith
