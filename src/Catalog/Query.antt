-- ===== src/Catalog/Query.antt =====
-- catalog/query.py: the comparisons, their negations, and `And` and `Or`. What the classes inherit
-- from zerodbext.catalog and the methods of the indexes are parameters; queries are shown by their
-- results, so that `__str__` is left out, and so are the classes that define nothing.
pub mod Negate
pub mod Logic
use Prim.Native.String.{String}
use zerodb.Common.{
  ℕ, ◌≡◌, Bool, true, false, Option, none, some, List, [], ◌∷◌, elem, ◌&&◌, ◌||◌, if◌then◌else◌,
}
use zerodb.Common.Result.{Result, ok, err, ◌>>=◌, key_error}
use zerodb.BTrees.{SetModule}

-- A comparison, with the name of its index.
pub data Comparator (V : Type 0) : Type 0 where
  contains does_not_contain gt lt ge le : String → V → Comparator V
  in_range not_in_range : String → V → V → Bool → Bool → Comparator V

unfoldable pub negate : {V : Type 0} → Comparator V → Comparator V
negate (contains name v) = does_not_contain name v
negate (does_not_contain name v) = contains name v
negate (gt name v) = le name v
negate (lt name v) = ge name v
negate (ge name v) = lt name v
negate (le name v) = gt name v
negate (in_range name start end_ ex_start ex_end) = not_in_range name start end_ ex_start ex_end
negate (not_in_range name start end_ ex_start ex_end) = in_range name start end_ ex_start ex_end

-- A result: a lazy sequence (`Sliceable`) or a set.
pub data Found (S : SetModule) : Type 0 where
  lazy : List ℕ → Found S
  docs : S.DocSet → Found S

abbrev pub has_doc : {S : SetModule} → Found S → ℕ → Bool
has_doc {S} (lazy l) d = elem d l
has_doc {S} (docs s) d = S.has s d

-- The methods of an index that the comparisons call.
pub record Methods (V : Type 0) (S : SetModule) : Type 1 where
  pub Index : Type 0
  pub apply_contains : Index → V → Result (Found S)
  pub apply_does_not_contain : Index → V → Result (Found S)
  pub apply_gt : Index → V → Result (Found S)
  pub apply_lt : Index → V → Result (Found S)
  pub apply_ge : Index → V → Result (Found S)
  pub apply_le : Index → V → Result (Found S)
  pub apply_in_range : Index → V → V → Bool → Bool → Result (Found S)
  pub apply_not_in_range : Index → V → V → Bool → Bool → Result (Found S)

module _ {V : Type 0} {S : SetModule} (M : Methods V S) (catalog : String → Option M.Index) where
  -- `_get_index`
  abbrev get_index : Option M.Index → Result M.Index
  get_index none = err key_error
  get_index (some ix) = ok ix

  -- `_apply` of the comparisons
  unfoldable pub apply : Comparator V → Result (Found S)
  apply (contains name v) = do ix ← get_index (catalog name); M.apply_contains ix v
  apply (does_not_contain name v) = do ix ← get_index (catalog name); M.apply_does_not_contain ix v
  apply (gt name v) = do ix ← get_index (catalog name); M.apply_gt ix v
  apply (lt name v) = do ix ← get_index (catalog name); M.apply_lt ix v
  apply (ge name v) = do ix ← get_index (catalog name); M.apply_ge ix v
  apply (le name v) = do ix ← get_index (catalog name); M.apply_le ix v
  apply (in_range name start end_ ex_start ex_end) = do
    ix ← get_index (catalog name)
    M.apply_in_range ix start end_ ex_start ex_end
  apply (not_in_range name start end_ ex_start ex_end) = do
    ix ← get_index (catalog name)
    M.apply_not_in_range ix start end_ ex_start ex_end

-- A query: an `And` and an `Or` have a first query and others.
mutual
  pub data Query (V : Type 0) : Type 0 where
    compare : Comparator V → Query V
    and_ : Query V → Queries V → Query V
    or_ : Query V → Queries V → Query V

  pub data Queries (V : Type 0) : Type 0 where
    end : Queries V
    cons : Query V → Queries V → Queries V

-- `weightedUnion` and `weightedIntersection` of the BTrees package, without their weights.
pub record SetAlgebra (S : SetModule) : Type 1 where
  pub weighted_union : S.DocSet → S.DocSet → S.DocSet
  pub weighted_intersection : S.DocSet → S.DocSet → S.DocSet
  pub has-union : (s t : S.DocSet) (d : ℕ) → S.has (weighted_union s t) d ≡ (S.has s d || S.has t d)
  pub has-intersection :
      (s t : S.DocSet) (d : ℕ) → S.has (weighted_intersection s t) d ≡ (S.has s d && S.has t d)

module _ {S : SetModule} where
  -- `len(result) == 0`
  abbrev pub has_none : Found S → Bool
  has_none (lazy []) = true
  has_none (lazy (d ∷ l)) = false
  has_none (docs s) = S.is_empty s

  -- `_to_set`
  abbrev pub to_set : Found S → S.DocSet
  to_set (lazy l) = S.of_list l
  to_set (docs s) = s

module _ {V : Type 0} {S : SetModule} (W : SetAlgebra S)
    (leaf : Comparator V → Result (Found S)) where
  -- one round of `Or._apply`
  abbrev pub unite : Found S → Found S → Found S
  unite result next_result =
      if has_none result
      then next_result
      else if has_none next_result
      then result
      else docs (W.weighted_union (to_set result) (to_set next_result))

  -- the end of a round of `And._apply`, where the next result is not empty
  abbrev pub meet : Found S → Found S → Found S
  meet result next_result = docs (W.weighted_intersection (to_set result) (to_set next_result))

  abbrev pub nothing_found : Found S
  nothing_found = docs (S.of_list [])

  unfoldable mutual
    pub evaluate : Query V → Result (Found S)
    evaluate (compare c) = leaf c
    evaluate (and_ q qs) = do first ← evaluate q; evaluate_and first qs
    evaluate (or_ q qs) = do first ← evaluate q; evaluate_or first qs

    pub evaluate_and : Found S → Queries V → Result (Found S)
    evaluate_and result end = ok result
    evaluate_and result (cons q qs) = if has_none result then ok nothing_found else (do
      next_result ← evaluate q
      if has_none next_result then ok nothing_found else evaluate_and (meet result next_result) qs)

    pub evaluate_or : Found S → Queries V → Result (Found S)
    evaluate_or result end = ok result
    evaluate_or result (cons q qs) = do
      next_result ← evaluate q
      evaluate_or (unite result next_result) qs
