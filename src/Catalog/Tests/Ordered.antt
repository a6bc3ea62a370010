-- ===== src/Catalog/Tests/Ordered.antt =====
-- The entries of an association list in a range: a concrete `values(start, end, ...)`.
use zerodb.Common.{
  ℕ, ◌≡◌, ◌≢◌, ◌⊎◌, refl, sym, ap, ◌∙◌, true, some, List, [], ◌∷◌, if_pos, if_neg, ltb,
  if◌then◌else◌, ℕ_discrete, some-inj, Bool-cases, inl, inr, subst,
}
use zerodb.BTrees.{assoc_trees}
use zerodb.BTrees.Assoc.{lookup, without}
use zerodb.Catalog.Field.Ranges.{Listed, here, there, Bounds, Ranged, inside, IsRanged}

module _ {V : Type 0} where
  unfoldable pub entries : List (ℕ × V) → Bounds ℕ → List (ℕ × V)
  unfolding without
  entries [] b = []
  entries ((k, v) ∷ t) b =
      let rest = without ℕ_discrete (entries t b) k in
      if inside ℕ_discrete ltb b k then (k, v) ∷ rest else rest

  Listed-cons : {e x : ℕ × V} {l : List (ℕ × V)} → Listed e (x ∷ l) → (x ≡ e) ⊎ Listed e l
  Listed-cons here = inl refl
  Listed-cons (there m) = inr m

  here_of : {e x : ℕ × V} {l : List (ℕ × V)} → x ≡ e → Listed e (x ∷ l)
  here_of {e} {x} {l} h = subst (λ (y : ℕ × V). Listed y (x ∷ l)) h here

  Listed-without :
      (l : List (ℕ × V)) (j : ℕ) (e : ℕ × V)
      → Listed e (without ℕ_discrete l j)
      → Listed e l × (j ≢ e.0)
  unfolding without
  Listed-without [] j e m = elim m [ ]
  Listed-without ((i, v) ∷ l) j e m = elim (ℕ_discrete i j) [
    | yes d ↦ let (n, ne) = Listed-without l j e (rw (if_pos _ d) at m) in (there n, ne)
    | no d ↦ elim (Listed-cons (rw (if_neg _ d) at m)) [
      | inl same ↦ (here_of same, λ h. d (ap (λ (p : ℕ × V). p.0) same ∙ sym h))
      | inr n ↦ let (n', ne) = Listed-without l j e n in (there n', ne)
    ]
  ]

  without-Listed :
      (l : List (ℕ × V)) (j : ℕ) (e : ℕ × V)
      → Listed e l
      → j ≢ e.0
      → Listed e (without ℕ_discrete l j)
  unfolding without
  without-Listed [] j e m ne = elim m [ ]
  without-Listed ((i, v) ∷ l) j e m ne = elim (Listed-cons m) [
    | inl same ↦
        let d : i ≢ j = λ h. ne (sym h ∙ ap (λ (p : ℕ × V). p.0) same) in
        rw (if_neg _ d) (here_of same)
    | inr n ↦
        let n' = without-Listed l j e n ne in
        elim (ℕ_discrete i j) [ yes d ↦ rw (if_pos _ d) n' | no d ↦ rw (if_neg _ d) (there n') ]
  ]

  abbrev Found : List (ℕ × V) → Bounds ℕ → ℕ × V → Type 0
  Found t b e = (lookup ℕ_discrete t e.0 ≡ some e.1) × (inside ℕ_discrete ltb b e.0 ≡ true)

  Found-later :
      (k : ℕ) (v : V) (t : List (ℕ × V)) (b : Bounds ℕ) (e : ℕ × V)
      → k ≢ e.0
      → Found t b e
      → Found ((k, v) ∷ t) b e
  unfolding lookup
  Found-later k v t b e ne (at, i) = (rw (if_neg _ ne) at, i)

  Found-here :
      (k : ℕ) (v : V) (t : List (ℕ × V)) (b : Bounds ℕ) (e : ℕ × V)
      → (k, v) ≡ e
      → inside ℕ_discrete ltb b k ≡ true
      → Found ((k, v) ∷ t) b e
  unfolding lookup
  Found-here k v t b e same i =
      subst (Found ((k, v) ∷ t) b) same (if_pos (ℕ_discrete k k) refl _ _, i)

  entries_sound :
      (t : List (ℕ × V)) (b : Bounds ℕ) (e : ℕ × V) → Listed e (entries t b) → Found t b e
  unfolding entries
  entries_sound [] b e m = elim m [ ]
  entries_sound ((k, v) ∷ t) b e m =
      let later : Listed e (without ℕ_discrete (entries t b) k) → Found ((k, v) ∷ t) b e = λ n.
        let (n', ne) = Listed-without (entries t b) k e n in
        Found-later k v t b e ne (entries_sound t b e n') in
      elim (Bool-cases (inside ℕ_discrete ltb b k)) [
        | inl i ↦ elim (Listed-cons (rw (i) at m)) [
          | inl same ↦ Found-here k v t b e same i
          | inr n ↦ later n
        ]
        | inr i ↦ later (rw (i) at m)
      ]

  entries_complete :
      (t : List (ℕ × V)) (b : Bounds ℕ) (k : ℕ) (v : V)
      → lookup ℕ_discrete t k ≡ some v
      → inside ℕ_discrete ltb b k ≡ true
      → Listed (k, v) (entries t b)
  unfolding entries lookup
  entries_complete [] b k v h i = cc
  entries_complete ((j, w) ∷ t) b k v h i = elim (ℕ_discrete j k) [
    | yes d ↦
        let same : w ≡ v = some-inj (rw (if_pos _ d) at h) in
        let c : inside ℕ_discrete ltb b j ≡ true = rw (d) i in rw (c) (rw (d, same) here)
    | no d ↦
        let later =
          without-Listed (entries t b) j (k, v) (entries_complete t b k v (rw (if_neg _ d) at h) i)
            d in
        elim (Bool-cases (inside ℕ_discrete ltb b j)) [
          | inl c ↦ rw (c) (there later)
          | inr c ↦ rw (c) later
        ]
  ]

abbrev pub ranged : Ranged (assoc_trees ℕ_discrete)
ranged = record { before = ltb; entries = λ {V} t b. entries t b }

pub ranged-IsRanged : IsRanged ranged
ranged-IsRanged = record {
  sound = λ {V} t b k v m. entries_sound t b (k, v) m;
  complete = λ {V} t b k v h i. entries_complete t b k v h i;
}
