-- ===== src/Catalog/Tests/Queries.antt =====
-- Queries on an index with one document, and documents of queries.
use zerodb.Common.{
  ℕ, ◌+◌, ◌≡◌, refl, Bool, true, false, not, ◌&&◌, ◌||◌, Option, none, some, List, [], ◌∷◌, ◌++◌,
  elem, ltb, leb, ◌==◌, if◌then◌else◌, ℕ_discrete, arith, Bool-cases, inl, inr,
}
use zerodb.Common.Result.{Result, ok}
use zerodb.BTrees.{list_sets}
use zerodb.Catalog.Query.{
  Comparator, negate, Found, lazy, has_doc, Methods, apply, Query, compare, and_, end, cons,
  SetAlgebra, evaluate,
}
use zerodb.Catalog.Query.Negate.{IsExact, apply-negate}
use zerodb.Catalog.Query.Logic.{matches, IsMeant, evaluate_lem}
use zerodb.Catalog.Json.{
  Json, dict, list, field, no_fields, logical, operator, name, eq, lt, item, no_items, scalar,
  and_op, not_op, and_class, not_class, eq_class, lt_class, Compiled, logic, comparison, argument,
  no_arguments, compile, Spells, with_list, with_one, compares, compares_one, of_scalar, also,
  nothing, compile-Spells,
}

elem-append : (xs ys : List ℕ) (d : ℕ) → elem d (xs ++ ys) ≡ (elem d xs || elem d ys)
elem-append [] ys d = refl
elem-append (x ∷ xs) ys d = ground (arith, elem-append xs ys d)

abbrev common : List ℕ → List ℕ → List ℕ
common [] ys = []
common (x ∷ xs) ys = if elem x ys then x ∷ common xs ys else common xs ys

elem-common : (xs ys : List ℕ) (d : ℕ) → elem d (common xs ys) ≡ (elem d xs && elem d ys)
elem-common [] ys d = refl
elem-common (x ∷ xs) ys d = elim (Bool-cases (x == d)) [
  | inl b ↦ ground (arith, b, elem-common xs ys d)
  | inr b ↦ ground (arith, b, elem-common xs ys d)
]

abbrev algebra : SetAlgebra list_sets
algebra = record {
  weighted_union = λ s t. s ++ t;
  weighted_intersection = common;
  has-union = elem-append;
  has-intersection = elem-common;
}

-- the documents that a comparison finds
abbrev ids : Comparator ℕ → List ℕ
ids (Comparator.gt index v) = (v + 1) ∷ (v + 2) ∷ []
ids _ = []

abbrev leaf : Comparator ℕ → Result (Found list_sets)
leaf c = ok (lazy (ids c))

leaf-IsMeant : IsMeant algebra leaf (λ c d. elem d (ids c))
leaf-IsMeant c = (lazy (ids c), refl, λ d. refl)

abbrev both : Query ℕ
both = and_ (compare (Comparator.gt "a" 4)) (cons (compare (Comparator.gt "b" 5)) end)

evaluate_lem_example :
    (f : Found list_sets) × (evaluate algebra leaf both ≡ ok f)
    × ((d : ℕ) → has_doc f d ≡ matches (λ c d. elem d (ids c)) both d)
evaluate_lem_example = evaluate_lem algebra leaf (λ c d. elem d (ids c)) leaf-IsMeant both

-- the document 0, if a test holds of its value
abbrev zero_if : Bool → Found list_sets
zero_if b = if b then lazy (0 ∷ []) else lazy []

abbrev value_of : ℕ → ℕ → Option ℕ
value_of ix d = if d == 0 then some ix else none

abbrev methods : Methods ℕ list_sets
methods = record {
  Index = ℕ;
  apply_contains = λ ix v. ok (zero_if (v == ix));
  apply_does_not_contain = λ ix v. ok (zero_if (not (v == ix)));
  apply_gt = λ ix v. ok (zero_if (ltb v ix));
  apply_lt = λ ix v. ok (zero_if (ltb ix v));
  apply_ge = λ ix v. ok (zero_if (leb v ix));
  apply_le = λ ix v. ok (zero_if (leb ix v));
  apply_in_range = λ ix start end_ x y. ok (zero_if (leb start ix && leb ix end_));
  apply_not_in_range = λ ix start end_ x y. ok (zero_if (not (leb start ix && leb ix end_)));
}

has_doc-zero_if : (b : Bool) (ix w d : ℕ) → value_of ix d ≡ some w → has_doc (zero_if b) d ≡ b
has_doc-zero_if true ix w d h = ground arith
has_doc-zero_if false ix w d h = refl

value_of-eq-some : (ix w d : ℕ) → value_of ix d ≡ some w → ix ≡ w
value_of-eq-some ix w d h = ground arith

methods-IsExact : IsExact methods ℕ_discrete ltb value_of
methods-IsExact = record {
  total = λ a b. ground arith;
  finds_gt = λ ix v w d h. (
    zero_if (ltb v ix),
    refl,
    ground (arith, has_doc-zero_if (ltb v ix) ix w d h, value_of-eq-some ix w d h),
  );
  finds_lt = λ ix v w d h. (
    zero_if (ltb ix v),
    refl,
    ground (arith, has_doc-zero_if (ltb ix v) ix w d h, value_of-eq-some ix w d h),
  );
  finds_ge = λ ix v w d h. (
    zero_if (leb v ix),
    refl,
    ground (arith, has_doc-zero_if (leb v ix) ix w d h, value_of-eq-some ix w d h),
  );
  finds_le = λ ix v w d h. (
    zero_if (leb ix v),
    refl,
    ground (arith, has_doc-zero_if (leb ix v) ix w d h, value_of-eq-some ix w d h),
  );
  finds_text = λ ix v w d h. (
    zero_if (v == ix),
    zero_if (not (v == ix)),
    refl,
    refl,
    ground (arith, has_doc-zero_if (v == ix) ix w d h, has_doc-zero_if (not (v == ix)) ix w d h),
  );
  finds_range = λ ix start end_ w x y d h. (
    zero_if (leb start ix && leb ix end_),
    zero_if (not (leb start ix && leb ix end_)),
    refl,
    refl,
    ground (
      arith,
      has_doc-zero_if (leb start ix && leb ix end_) ix w d h,
      has_doc-zero_if (not (leb start ix && leb ix end_)) ix w d h,
    ),
  );
}

apply-negate_example :
    (f : Found list_sets) × (g : Found list_sets) × (apply methods
        (λ s. some 7)
        (Comparator.gt "age" 5)
      ≡ ok f)
    × (apply methods (λ s. some 7) (negate (Comparator.gt "age" 5)) ≡ ok g)
    × (has_doc g 0 ≡ not (has_doc f 0))
apply-negate_example =
    apply-negate methods-IsExact (λ s. some 7) (Comparator.gt "age" 5) 7 7 0 refl refl

-- `{"$and": [{"1": {"$eq": 5}}, {"$not": {"2": {"$lt": [6]}}}]}`
abbrev document : Json ℕ
document = dict (
    field (logical and_op)
      (list (
        item (dict (field (name 1) (dict (field (operator eq) (scalar 5) no_fields)) no_fields)) (
          item
            (dict (
              field (logical not_op)
                (dict (
                  field (name 2)
                    (dict (field (operator lt) (list (item (scalar 6) no_items)) no_fields))
                    no_fields))
                no_fields))
            no_items)))
      no_fields)

abbrev query : Compiled ℕ
query = logic and_class (
    argument (comparison eq_class (name 1) (item (scalar 5) no_items)) (
      argument
        (logic not_class
          (argument (comparison lt_class (name 2) (item (scalar 6) no_items)) no_arguments))
        no_arguments))

document-Spells : Spells document query
document-Spells = with_list and_class (
    also (compares_one eq_class 1 of_scalar)
      (also (with_one not_class (compares lt_class 2 (item (scalar 6) no_items))) nothing))

compile-Spells_example : compile document ≡ ok query
compile-Spells_example = compile-Spells document-Spells
