-- ===== src/BTrees.antt =====
-- The BTrees package, which the catalog and the object store are built on, as an interface. The
-- package is not part of the repository: a module of it (IOBTree, OOBTree, ...) is a record of the
-- operations that zerodb calls, with the documented laws of a mapping or of a set.
-- catalog/indexes/field.py and intid.py take such modules from `family32` (trees/__init__.py).
pub mod Assoc
use zerodb.Common.{
  ℕ, ◌+◌, ◌≡◌, Bool, true, false, Option, none, some, List, [], ite, is_some, elem, ◌==◌,
  if◌then◌else◌, ◌∷◌, refl, arith,
}

pub record TreeModule (K : Type 0) : Type 1 where
  pub dec : Discrete K
  pub Tree : Type 0 → Type 0
  pub empty : (V : Type 0) → Tree V
  pub get : {V : Type 0} → Tree V → K → Option V
  pub put : {V : Type 0} → Tree V → K → V → Tree V
  pub del : {V : Type 0} → Tree V → K → Tree V
  pub len : {V : Type 0} → Tree V → ℕ
  pub get-empty : (V : Type 0) (k : K) → get (empty V) k ≡ none
  pub get-put :
      {V : Type 0} (t : Tree V) (k : K) (v : V) (j : K)
      → get (put t k v) j ≡ ite (dec k j) (some v) (get t j)
  pub get-del : {V : Type 0} (t : Tree V) (k j : K) → get (del t k) j ≡ ite (dec k j) none (get t j)
  pub len-empty : (V : Type 0) → len (empty V) ≡ 0
  pub len-put_new :
      {V : Type 0} (t : Tree V) (k : K) (v : V) → get t k ≡ none → len (put t k v) ≡ len t + 1
  pub len-put_old :
      {V : Type 0} (t : Tree V) (k : K) (v : V) → is_some (get t k) ≡ true → len (put t k v) ≡ len t
  pub len-del :
      {V : Type 0} (t : Tree V) (k : K) → is_some (get t k) ≡ true → len (del t k) + 1 ≡ len t

-- A `Set` or a `TreeSet` of document ids.
pub record SetModule : Type 1 where
  pub DocSet : Type 0
  pub of_list : List ℕ → DocSet
  pub elements : DocSet → List ℕ
  pub has : DocSet → ℕ → Bool
  pub add : DocSet → ℕ → DocSet
  pub remove : DocSet → ℕ → DocSet
  pub is_empty : DocSet → Bool
  pub has-of_list : (l : List ℕ) (d : ℕ) → has (of_list l) d ≡ elem d l
  pub elem-elements : (s : DocSet) (d : ℕ) → elem d (elements s) ≡ has s d
  pub has-add : (s : DocSet) (d j : ℕ) → has (add s d) j ≡ (if d == j then true else has s j)
  pub has-remove : (s : DocSet) (d j : ℕ) → has (remove s d) j ≡ (if d == j then false else has s j)
  pub has_of_is_empty : (s : DocSet) (d : ℕ) → is_empty s ≡ true → has s d ≡ false
  pub has_of_nonempty : (s : DocSet) → is_empty s ≡ false → (d : ℕ) × (has s d ≡ true)

abbrev pub assoc_trees : {K : Type 0} → Discrete K → TreeModule K
assoc_trees {K} dec = record {
  dec = dec;
  Tree = λ V. List (K × V);
  empty = λ V. [];
  get = λ {V} t k. Assoc.lookup dec t k;
  put = λ {V} t k v. Assoc.insert dec t k v;
  del = λ {V} t k. Assoc.without dec t k;
  len = λ {V} t. Assoc.size dec t;
  get-empty = λ V k. Assoc.lookup-nil V dec k;
  get-put = λ {V} t k v j. Assoc.lookup-insert dec t k v j;
  get-del = λ {V} t k j. Assoc.lookup-without dec t k j;
  len-empty = λ V. Assoc.size-nil V dec;
  len-put_new = λ {V} t k v h. Assoc.size-insert_new dec t k v h;
  len-put_old = λ {V} t k v h. Assoc.size-insert_old dec t k v h;
  len-del = λ {V} t k h. Assoc.size-without dec t k h;
}

abbrev pub list_sets : SetModule
list_sets = record {
  DocSet = List ℕ;
  of_list = λ l. l;
  elements = λ l. l;
  has = λ s d. elem d s;
  add = λ s d. d ∷ s;
  remove = λ s d. Assoc.discard s d;
  is_empty = λ s. Assoc.is_nil s;
  has-of_list = λ l d. refl;
  elem-elements = λ s d. refl;
  has-add = λ s d j. Assoc.elem-cons s d j;
  has-remove = λ s d j. Assoc.elem-discard s d j;
  has_of_is_empty = λ s d h. Assoc.elem_of_is_nil s d h;
  has_of_nonempty = λ s h. Assoc.elem_of_nonempty s h;
}
