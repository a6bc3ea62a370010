-- ===== src/Catalog/Query/Negate.antt =====
-- The negation of a comparison finds the other documents (catalog/query.py).
use Prim.Native.String.{String}
use zerodb.Common.{ℕ, ◌≡◌, Bool, true, false, not, ◌||◌, Option, some, ite, arith}
use zerodb.Common.Result.{ok}
use zerodb.BTrees.{SetModule}
use zerodb.Catalog.Query.{
  Comparator, contains, does_not_contain, gt, lt, ge, le, in_range, not_in_range, negate, Found,
  has_doc, Methods, apply,
}

abbrev pub equal : {V : Type 0} → Discrete V → V → V → Bool
equal dec a b = ite (dec a b) true false

-- What the methods of an index promise for a document with a value: each finds it exactly if the
-- value compares as asked; a text or a range method and its negative find it in turn.
pub record IsExact {V : Type 0} {S : SetModule} (M : Methods V S) (dec : Discrete V)
    (before : V → V → Bool) (value_of : M.Index → ℕ → Option V) : Type 0 where
  pub total : (a b : V) → before a b ≡ not (before b a || equal dec a b)
  pub finds_gt :
      (ix : M.Index) (v w : V) (d : ℕ)
      → value_of ix d ≡ some w
      → (f : Found S) × (M.apply_gt ix v ≡ ok f) × (has_doc f d ≡ before v w)
  pub finds_lt :
      (ix : M.Index) (v w : V) (d : ℕ)
      → value_of ix d ≡ some w
      → (f : Found S) × (M.apply_lt ix v ≡ ok f) × (has_doc f d ≡ before w v)
  pub finds_ge :
      (ix : M.Index) (v w : V) (d : ℕ)
      → value_of ix d ≡ some w
      → (f : Found S) × (M.apply_ge ix v ≡ ok f) × (has_doc f d ≡ (before v w || equal dec w v))
  pub finds_le :
      (ix : M.Index) (v w : V) (d : ℕ)
      → value_of ix d ≡ some w
      → (f : Found S) × (M.apply_le ix v ≡ ok f) × (has_doc f d ≡ (before w v || equal dec v w))
  pub finds_text :
      (ix : M.Index) (v w : V) (d : ℕ)
      → value_of ix d ≡ some w
      → (f : Found S) × (g : Found S) × (M.apply_contains ix v ≡ ok f)
        × (M.apply_does_not_contain ix v ≡ ok g)
        × (has_doc g d ≡ not (has_doc f d))
  pub finds_range :
      (ix : M.Index) (start end_ w : V) (ex_start ex_end : Bool) (d : ℕ)
      → value_of ix d ≡ some w
      → (f : Found S) × (g : Found S) × (M.apply_in_range ix start end_ ex_start ex_end ≡ ok f)
        × (M.apply_not_in_range ix start end_ ex_start ex_end ≡ ok g)
        × (has_doc g d ≡ not (has_doc f d))

abbrev pub name_of : {V : Type 0} → Comparator V → String
name_of (contains name v) = name
name_of (does_not_contain name v) = name
name_of (gt name v) = name
name_of (lt name v) = name
name_of (ge name v) = name
name_of (le name v) = name
name_of (in_range name start end_ ex_start ex_end) = name
name_of (not_in_range name start end_ ex_start ex_end) = name

module _ {V : Type 0} {S : SetModule} {M : Methods V S} {dec : Discrete V} {before : V → V → Bool}
    {value_of : M.Index → ℕ → Option V} (exact : IsExact M dec before value_of)
    (catalog : String → Option M.Index) where
  -- Of a document that has a value in the index, a comparison and its negation find exactly one,
  -- if the index's methods find what they promise over a total order.
  pub apply-negate :
      (c : Comparator V) (ix : M.Index) (w : V) (d : ℕ)
      → catalog (name_of c) ≡ some ix
      → value_of ix d ≡ some w
      → (f : Found S) × (g : Found S) × (apply M catalog c ≡ ok f)
        × (apply M catalog (negate c) ≡ ok g)
        × (has_doc g d ≡ not (has_doc f d))
  unfolding apply negate
  apply-negate (contains name v) ix w d at has =
      let (f, g, a, b, e) = exact.finds_text ix v w d has in (f, g, rw (at) a, rw (at) b, e)
  apply-negate (does_not_contain name v) ix w d at has =
      let (f, g, a, b, e) = exact.finds_text ix v w d has in
      (g, f, rw (at) b, rw (at) a, ground (arith, e))
  apply-negate (gt name v) ix w d at has =
      let (f, a, e) = exact.finds_gt ix v w d has in
      let (g, b, e') = exact.finds_le ix v w d has in
      (f, g, rw (at) a, rw (at) b, ground (arith, e, e', exact.total v w))
  apply-negate (lt name v) ix w d at has =
      let (f, a, e) = exact.finds_lt ix v w d has in
      let (g, b, e') = exact.finds_ge ix v w d has in
      (f, g, rw (at) a, rw (at) b, ground (arith, e, e', exact.total w v))
  apply-negate (ge name v) ix w d at has =
      let (f, a, e) = exact.finds_ge ix v w d has in
      let (g, b, e') = exact.finds_lt ix v w d has in
      (f, g, rw (at) a, rw (at) b, ground (arith, e, e', exact.total w v))
  apply-negate (le name v) ix w d at has =
      let (f, a, e) = exact.finds_le ix v w d has in
      let (g, b, e') = exact.finds_gt ix v w d has in
      (f, g, rw (at) a, rw (at) b, ground (arith, e, e', exact.total v w))
  apply-negate (in_range name start end_ x y) ix w d at has =
      let (f, g, a, b, e) = exact.finds_range ix start end_ w x y d has in
      (f, g, rw (at) a, rw (at) b, e)
  apply-negate (not_in_range name start end_ x y) ix w d at has =
      let (f, g, a, b, e) = exact.finds_range ix start end_ w x y d has in
      (g, f, rw (at) b, rw (at) a, ground (arith, e))
