-- ===== src/Catalog/Field/Ranges.antt =====
-- Range queries on a field index: `applyInRange`, and `multiunion1` with the single-query case of
-- `search`, of catalog/indexes/field.py. A BTree's `values(start, end, ...)` is a parameter.
use zerodb.Common.{
  ℕ, ◌≡◌, refl, Bool, true, false, Option, none, some, List, [], ◌∷◌, ◌++◌, map, elem, arith, ◌↔◌,
  ◌||◌, inl, inr, Bool-cases, not, ◌&&◌, ite, Option-cases,
}
use zerodb.BTrees.{TreeModule, SetModule}
use zerodb.Catalog.Field.{FieldIndex}
use zerodb.Catalog.Field.Forms.{Docids, holds}
use zerodb.Catalog.Field.Invariant.{IsConsistent, is_value}
use zerodb.Catalog.Field.Reads.{docid_list, elem-docid_list, all_ids}

-- An element stands in a list.
pub data Listed {A : Type 0} (x : A) : List A → Type 0 where
  here : {l : List A} → Listed x (x ∷ l)
  there : {y : A} {l : List A} → Listed x l → Listed x (y ∷ l)

pub record Bounds (A : Type 0) : Type 0 where
  pub lower : Option A
  pub upper : Option A
  pub excludemin : Bool
  pub excludemax : Bool

-- An order of the keys, and the entries of a tree whose keys lie in a range.
pub record Ranged {A : Type 0} (F : TreeModule A) : Type 1 where
  pub before : A → A → Bool
  pub entries : {V : Type 0} → F.Tree V → Bounds A → List (A × V)

module _ {A : Type 0} (dec : Discrete A) (before : A → A → Bool) where
  abbrev after_lower : Option A → Bool → A → Bool
  after_lower none ex v = true
  after_lower (some a) ex v = before a v || (not ex && ite (dec a v) true false)

  abbrev until_upper : Option A → Bool → A → Bool
  until_upper none ex v = true
  until_upper (some a) ex v = before v a || (not ex && ite (dec v a) true false)

  abbrev pub inside : Bounds A → A → Bool
  inside b v = after_lower b.lower b.excludemin v && until_upper b.upper b.excludemax v

-- The documented behaviour of `values`: exactly the entries in the range.
pub record IsRanged {A : Type 0} {F : TreeModule A} (G : Ranged F) : Type 1 where
  pub sound :
      {V : Type 0} (t : F.Tree V) (b : Bounds A) (k : A) (v : V)
      → Listed (k, v) (G.entries t b)
      → (F.get t k ≡ some v) × (inside F.dec G.before b k ≡ true)
  pub complete :
      {V : Type 0} (t : F.Tree V) (b : Bounds A) (k : A) (v : V)
      → F.get t k ≡ some v
      → inside F.dec G.before b k ≡ true
      → Listed (k, v) (G.entries t b)

elem-append : (d : ℕ) (xs ys : List ℕ) → elem d (xs ++ ys) ≡ (elem d xs || elem d ys)
elem-append d [] ys = refl
elem-append d (x ∷ xs) ys = ground (arith, elem-append d xs ys)

module _ (S : SetModule) where
  -- `result.update(s)`
  unfoldable pub add_all : List ℕ → S.DocSet → S.DocSet
  add_all [] result = result
  add_all (d ∷ s) result = add_all s (S.add result d)

  -- `multiunion1(set_type, seqs)` from the set `result` on; an integer is a sequence of itself
  unfoldable pub multiunion1 : List (Docids S.DocSet) → S.DocSet → S.DocSet
  unfolding add_all
  multiunion1 [] result = result
  multiunion1 (s ∷ seqs) result = multiunion1 seqs (add_all (docid_list S s) result)

  has-add_all :
      (l : List ℕ) (r : S.DocSet) (d : ℕ) → S.has (add_all l r) d ≡ (elem d l || S.has r d)
  unfolding add_all
  has-add_all [] r d = refl
  has-add_all (x ∷ l) r d = ground (arith, has-add_all l (S.add r x) d, S.has-add r x d)

  has-multiunion1 :
      (seqs : List (Docids S.DocSet)) (r : S.DocSet) (d : ℕ)
      → S.has (multiunion1 seqs r) d ≡ (elem d (all_ids S seqs) || S.has r d)
  unfolding multiunion1
  has-multiunion1 [] r d = refl
  has-multiunion1 (s ∷ seqs) r d = ground (
    arith,
    has-multiunion1 seqs (add_all (docid_list S s) r) d,
    has-add_all (docid_list S s) r d,
    elem-append d (docid_list S s) (all_ids S seqs),
  )

  module _ {A : Type 0} where
    abbrev values : List (A × Docids S.DocSet) → List (Docids S.DocSet)
    values = map (λ e. e.1)

    find_entry :
        (d : ℕ) (es : List (A × Docids S.DocSet))
        → elem d (all_ids S (values es)) ≡ true
        → (e : A × Docids S.DocSet) × Listed e es × (holds S (some e.1) d ≡ true)
    find_entry d [] h = absurd (cc)
    find_entry d (e ∷ es) h = elim (Bool-cases (elem d (docid_list S e.1))) [
      | inl b ↦ (e, here, ground (arith, b, elem-docid_list S e.1 d))
      | inr b ↦
          let (e', m, q) =
            find_entry d es
              (ground (arith, b, elem-append d (docid_list S e.1) (all_ids S (values es)))) in
          (e', there m, q)
    ]

    elem_of_entry :
        (d : ℕ) (es : List (A × Docids S.DocSet)) {e : A × Docids S.DocSet}
        → Listed e es
        → holds S (some e.1) d ≡ true
        → elem d (all_ids S (values es)) ≡ true
    elem_of_entry d [] m h = elim m [ ]
    elem_of_entry d (e ∷ es) here h =
        ground
          (arith, elem-append d (docid_list S e.1) (all_ids S (values es)), elem-docid_list S e.1 d)
    elem_of_entry d (e ∷ es) (there m) h =
        ground
          (arith, elem-append d (docid_list S e.1) (all_ids S (values es)), elem_of_entry d es m h)

is_value-eq-true :
    {A : Type 0} (dec : Discrete A) (o : Option A) (v : A) → is_value dec o v ≡ true → o ≡ some v
is_value-eq-true dec none v h = cc
is_value-eq-true dec (some w) v h = ground arith

module _ {A : Type 0} {F : TreeModule A} {R : TreeModule ℕ} {S : SetModule} (G : Ranged F) where
  -- `chain.from_iterable` over the values, an integer read as a tuple of itself (`NewTreeItems`)
  unfoldable pub apply_in_range : Bounds A → FieldIndex F R S → List ℕ
  apply_in_range b ix = all_ids S (values S (G.entries ix.fwd b))

  -- `search([RangeValue(...)])`: one query's set of ids
  unfoldable pub search_one : Bounds A → FieldIndex F R S → S.DocSet
  unfolding multiunion1
  search_one b ix = multiunion1 S (values S (G.entries ix.fwd b)) (S.of_list [])

  -- In a consistent index, over a tree whose `values` gives exactly the entries in a range, a
  -- range query returns exactly the documents whose value lies in the range, with the ends left
  -- out as asked.
  pub elem-apply_in_range :
      IsRanged G
      → (b : Bounds A) (d : ℕ) {ix : FieldIndex F R S} → IsConsistent ix
      → (elem d (apply_in_range b ix) ≡ true)
        ↔ ((v : A) × (R.get ix.rev d ≡ some v) × (inside F.dec G.before b v ≡ true))
  unfolding apply_in_range
  elem-apply_in_range g b d {ix} h = (
    λ found.
        let (e, m, q) = find_entry S d (G.entries ix.fwd b) found in
        let (at, within) = g.sound ix.fwd b e.0 e.1 m in
        (
          e.0,
          is_value-eq-true F.dec (R.get ix.rev d) e.0 (ground (arith, h.agrees e.0 d, at, q)),
          within,
        ),
    λ (v, at, within). elim (Option-cases (F.get ix.fwd v)) [
      | inl e ↦ absurd (ground (arith, e, at, h.agrees v d))
      | inr (ds, e) ↦
          elem_of_entry S d (G.entries ix.fwd b) (g.complete ix.fwd b v ds e within)
            (ground (arith, e, at, h.agrees v d))
    ],
  )

  -- The set that `search` builds for one range holds the same documents.
  pub has-search_one :
      (b : Bounds A) (d : ℕ) (ix : FieldIndex F R S)
      → S.has (search_one b ix) d ≡ elem d (apply_in_range b ix)
  unfolding search_one apply_in_range
  has-search_one b d ix = ground (
    arith,
    has-multiunion1 S (values S (G.entries ix.fwd b)) (S.of_list []) d,
    S.has-of_list [] d,
  )
