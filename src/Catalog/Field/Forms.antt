-- ===== src/Catalog/Field/Forms.antt =====
-- The three forms of a value's document ids, and what an insertion and a removal do to each
-- (catalog/indexes/field.py).
use zerodb.Common.{
  ℕ, ◌-◌, ◌≤◌, ◌≡◌, refl, Bool, true, false, Option, none, some, List, [], ◌∷◌, ◌++◌, length, elem,
  leb, ◌==◌, if◌then◌else◌, arith,
}
use zerodb.BTrees.{SetModule}

pub data Docids (T : Type 0) : Type 0 where
  one : ℕ → Docids T
  tuple : List ℕ → Docids T
  treeset : T → Docids T

abbrev pub threshold : ℕ
threshold = 10

-- the loop that copies the tuple without `docid`
unfoldable pub newtuple : List ℕ → ℕ → List ℕ
newtuple [] docid = []
newtuple (i ∷ docids) docid =
    let rest = newtuple docids docid in if i == docid then rest else i ∷ rest

elem-newtuple :
    (l : List ℕ) (d j : ℕ) → elem j (newtuple l d) ≡ (if d == j then false else elem j l)
unfolding newtuple
elem-newtuple [] d j = ground arith
elem-newtuple (x ∷ l) d j = ground (arith, elem-newtuple l d j)

length-newtuple : (l : List ℕ) (d : ℕ) → length (newtuple l d) ≤ length l
unfolding newtuple
length-newtuple [] d = omega arith
length-newtuple (x ∷ l) d = ground (arith, length-newtuple l d)

elem-snoc : (l : List ℕ) (d j : ℕ) → elem j (l ++ d ∷ []) ≡ (if d == j then true else elem j l)
elem-snoc [] d j = ground arith
elem-snoc (x ∷ l) d j = ground (arith, elem-snoc l d j)

module _ (S : SetModule) where
  -- `docid in self._fwd_index.get(value, ())`, an integer being compared instead
  abbrev pub holds : Option (Docids S.DocSet) → ℕ → Bool
  holds none docid = false
  holds (some (one d)) docid = d == docid
  holds (some (tuple l)) docid = elem docid l
  holds (some (treeset s)) docid = S.has s docid

  unfoldable pub add_docid : Docids S.DocSet → ℕ → Docids S.DocSet
  add_docid (one d) docid = tuple (d ∷ docid ∷ [])
  add_docid (tuple l) docid =
      if leb (threshold - 1) (length l)
      then treeset (S.add (S.of_list l) docid)
      else tuple (l ++ docid ∷ [])
  add_docid (treeset s) docid = treeset (S.add s docid)

  abbrev keep_tuple : List ℕ → Option (Docids S.DocSet)
  keep_tuple [] = none
  keep_tuple (d ∷ l) = some (tuple (d ∷ l))

  -- `none` is `delvalue`: the value loses its entry
  unfoldable pub remove_docid : Docids S.DocSet → ℕ → Option (Docids S.DocSet)
  unfolding newtuple
  remove_docid (one d) docid = none
  remove_docid (tuple l) docid = keep_tuple (newtuple l docid)
  remove_docid (treeset s) docid =
      if S.has s docid
      then (if S.is_empty (S.remove s docid) then none else some (treeset (S.remove s docid)))
      else some (treeset s)

  pub holds-add_docid :
      (ds : Docids S.DocSet) (d j : ℕ)
      → holds (some (add_docid ds d)) j ≡ (if d == j then true else holds (some ds) j)
  unfolding add_docid
  holds-add_docid (one i) d j = ground arith
  holds-add_docid (tuple l) d j =
      ground (arith, elem-snoc l d j, S.has-add (S.of_list l) d j, S.has-of_list l j)
  holds-add_docid (treeset s) d j = ground (arith, S.has-add s d j)

  holds-keep_tuple : (l : List ℕ) (j : ℕ) → holds (keep_tuple l) j ≡ elem j l
  holds-keep_tuple [] j = refl
  holds-keep_tuple (d ∷ l) j = refl

  -- An id that is there is removed, and every other one stays.
  pub holds-remove_docid :
      (ds : Docids S.DocSet) (d j : ℕ)
      → holds (some ds) d ≡ true
      → holds (remove_docid ds d) j ≡ (if d == j then false else holds (some ds) j)
  unfolding remove_docid
  holds-remove_docid (one i) d j h = ground arith
  holds-remove_docid (tuple l) d j h =
      ground (arith, holds-keep_tuple (newtuple l d) j, elem-newtuple l d j)
  holds-remove_docid (treeset s) d j h =
      ground (arith, S.has-remove s d j, S.has_of_is_empty (S.remove s d) j)
