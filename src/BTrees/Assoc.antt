-- ===== src/BTrees/Assoc.antt =====
-- Association lists, later entries shadowed by earlier ones, and lists of ids: a mapping and a set
-- that run, for the witnesses.
use zerodb.Common.{
  ℕ, ◌+◌, ◌≡◌, refl, Bool, true, false, Option, none, some, List, [], ◌∷◌, ite, is_some, arith,
  elem, ◌==◌, if◌then◌else◌,
}

module _ {K V : Type 0} (dec : Discrete K) where
  unfoldable pub lookup : List (K × V) → K → Option V
  lookup [] k = none
  lookup ((j, v) ∷ l) k = ite (dec j k) (some v) (lookup l k)

  unfoldable pub without : List (K × V) → K → List (K × V)
  without [] k = []
  without ((j, v) ∷ l) k = let rest = without l k in ite (dec j k) rest ((j, v) ∷ rest)

  abbrev pub insert : List (K × V) → K → V → List (K × V)
  insert l k v = (k, v) ∷ l

  unfoldable pub size : List (K × V) → ℕ
  unfolding lookup
  size [] = 0
  size ((k, v) ∷ l) = (if is_some (lookup l k) then 0 else 1) + size l

  pub lookup-without :
      (l : List (K × V)) (k j : K) → lookup (without l k) j ≡ ite (dec k j) none (lookup l j)
  unfolding lookup without
  lookup-without [] k j = ground arith
  lookup-without ((i, v) ∷ l) k j = ground (arith, lookup-without l k j)

  pub lookup-insert :
      (l : List (K × V)) (k : K) (v : V) (j : K)
      → lookup (insert l k v) j ≡ ite (dec k j) (some v) (lookup l j)
  unfolding lookup
  lookup-insert l k v j = refl

  pub size-insert_new :
      (l : List (K × V)) (k : K) (v : V) → lookup l k ≡ none → size (insert l k v) ≡ size l + 1
  unfolding size
  size-insert_new l k v h = ground arith

  pub size-insert_old :
      (l : List (K × V)) (k : K) (v : V)
      → is_some (lookup l k) ≡ true
      → size (insert l k v) ≡ size l
  unfolding size
  size-insert_old l k v h = ground arith

  size-without_absent : (l : List (K × V)) (k : K) → lookup l k ≡ none → size (without l k) ≡ size l
  unfolding size without lookup
  size-without_absent [] k h = refl
  size-without_absent ((j, v) ∷ l) k h =
      ground (arith, size-without_absent l k, lookup-without l k j)

  pub size-without :
      (l : List (K × V)) (k : K) → is_some (lookup l k) ≡ true → size (without l k) + 1 ≡ size l
  unfolding size without lookup
  size-without [] k h = cc
  size-without ((j, v) ∷ l) k h =
      ground (arith, size-without l k, size-without_absent l k, lookup-without l k j)

pub lookup-nil :
    {K : Type 0} (V : Type 0) (dec : Discrete K) (k : K) → lookup {V = V} dec [] k ≡ none
unfolding lookup
lookup-nil V dec k = refl

pub size-nil : {K : Type 0} (V : Type 0) (dec : Discrete K) → size {V = V} dec [] ≡ 0
unfolding size
size-nil V dec = refl

unfoldable pub discard : List ℕ → ℕ → List ℕ
discard [] d = []
discard (x ∷ l) d = let rest = discard l d in if x == d then rest else x ∷ rest

pub elem-cons : (l : List ℕ) (d j : ℕ) → elem j (d ∷ l) ≡ (if d == j then true else elem j l)
elem-cons l d j = ground arith

pub elem-discard :
    (l : List ℕ) (d j : ℕ) → elem j (discard l d) ≡ (if d == j then false else elem j l)
unfolding discard
elem-discard [] d j = ground arith
elem-discard (x ∷ l) d j = ground (arith, elem-discard l d j)

abbrev pub is_nil : List ℕ → Bool
is_nil [] = true
is_nil (x ∷ l) = false

pub elem_of_is_nil : (l : List ℕ) (d : ℕ) → is_nil l ≡ true → elem d l ≡ false
elem_of_is_nil [] d h = refl
elem_of_is_nil (x ∷ l) d h = cc

pub elem_of_nonempty : (l : List ℕ) → is_nil l ≡ false → (d : ℕ) × (elem d l ≡ true)
elem_of_nonempty [] h = cc
elem_of_nonempty (x ∷ l) h = (x, ground arith)
