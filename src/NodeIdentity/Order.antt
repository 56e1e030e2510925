-- ===== src/NodeIdentity/Order.antt =====
-- The priority of node IDs is a strict total order on IDs of one length.
use connecttool_qt.Base.{
  ◌≡◌, ◌≢◌, refl, sym, inl, inr, [], ◌∷◌, true, false, not, length, arith, Bool-cases,
}
use connecttool_qt.NodeIdentity.Defs.{NodeId, compare, has_priority}

pub has_priority_irrefl : (a : NodeId) → has_priority a a ≡ false
unfolding has_priority compare
has_priority_irrefl [] = refl
has_priority_irrefl (x ∷ xs) = ground (arith, has_priority_irrefl xs)

-- Of two different IDs of one length exactly one has priority.
pub has_priority_total :
    (a b : NodeId) → length a ≡ length b → a ≢ b → has_priority a b ≡ not (has_priority b a)
unfolding has_priority compare
has_priority_total [] [] l n = absurd (n refl)
has_priority_total [] (y ∷ ys) l n = absurd (omega arith)
has_priority_total (x ∷ xs) [] l n = absurd (omega arith)
has_priority_total (x ∷ xs) (y ∷ ys) l n = ground (arith, has_priority_total xs ys)

-- Priority is transitive on IDs of one length.
pub has_priority_trans :
    (a b c : NodeId)
    → length a ≡ length b
    → length b ≡ length c
    → has_priority a b ≡ true
    → has_priority b c ≡ true
    → has_priority a c ≡ true
unfolding has_priority compare
has_priority_trans [] b c l m h k = cc
has_priority_trans (x ∷ xs) [] c l m h k = cc
has_priority_trans (x ∷ xs) (y ∷ ys) [] l m h k = cc
has_priority_trans (x ∷ xs) (y ∷ ys) (z ∷ zs) l m h k = ground (arith, has_priority_trans xs ys zs)

pub has_priority_asymm :
    (a b : NodeId) → length a ≡ length b → has_priority a b ≡ true → has_priority b a ≡ false
has_priority_asymm a b l h = elim (Bool-cases (has_priority b a)) [
  | inr e ↦ e
  | inl e ↦ cc (has_priority_trans a b a l (sym l) h e, has_priority_irrefl a)
]
