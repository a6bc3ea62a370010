-- ===== src/Catalog/Query/Logic.antt =====
-- `And` and `Or` find the documents that all, or some, of their queries find (catalog/query.py).
use zerodb.Common.{
  ℕ, ◌≡◌, refl, Bool, true, false, ◌&&◌, ◌||◌, [], ◌∷◌, arith, Bool-cases, inl, inr,
}
use zerodb.Common.Result.{Result, ok}
use zerodb.BTrees.{SetModule}
use zerodb.Catalog.Query.{
  Comparator, Query, Queries, compare, and_, or_, end, cons, Found, lazy, docs, has_doc, has_none,
  to_set, SetAlgebra, unite, meet, nothing_found, evaluate, evaluate_and, evaluate_or,
}

module _ {V : Type 0} (meaning : Comparator V → ℕ → Bool) where
  unfoldable mutual
    pub matches : Query V → ℕ → Bool
    matches (compare c) d = meaning c d
    matches (and_ q qs) d = matches q d && all_match qs d
    matches (or_ q qs) d = matches q d || any_matches qs d

    pub all_match : Queries V → ℕ → Bool
    all_match end d = true
    all_match (cons q qs) d = matches q d && all_match qs d

    pub any_matches : Queries V → ℕ → Bool
    any_matches end d = false
    any_matches (cons q qs) d = matches q d || any_matches qs d

module _ {S : SetModule} where
  has_doc-to_set : (f : Found S) (d : ℕ) → S.has (to_set f) d ≡ has_doc f d
  has_doc-to_set (lazy l) d = S.has-of_list l d
  has_doc-to_set (docs s) d = refl

  has_doc-has_none : (f : Found S) (d : ℕ) → has_none f ≡ true → has_doc f d ≡ false
  has_doc-has_none (lazy []) d h = refl
  has_doc-has_none (lazy (x ∷ l)) d h = cc
  has_doc-has_none (docs s) d h = S.has_of_is_empty s d h

module _ {V : Type 0} {S : SetModule} (W : SetAlgebra S) (leaf : Comparator V → Result (Found S))
    (meaning : Comparator V → ℕ → Bool) where
  has_doc-unite :
      (f g : Found S) (d : ℕ) → has_doc (unite W leaf f g) d ≡ (has_doc f d || has_doc g d)
  has_doc-unite f g d = ground (
    arith,
    has_doc-has_none f d,
    has_doc-has_none g d,
    W.has-union (to_set f) (to_set g) d,
    has_doc-to_set f d,
    has_doc-to_set g d,
  )

  has_doc-meet :
      (f g : Found S) (d : ℕ) → has_doc (meet W leaf f g) d ≡ (has_doc f d && has_doc g d)
  has_doc-meet f g d =
      ground
        (arith, W.has-intersection (to_set f) (to_set g) d, has_doc-to_set f d, has_doc-to_set g d)

  has_doc-nothing_found : (d : ℕ) → has_doc (nothing_found W leaf) d ≡ false
  has_doc-nothing_found d = S.has-of_list [] d

  -- The comparisons return what they mean.
  abbrev pub IsMeant : Type 0
  IsMeant =
      (c : Comparator V) → (f : Found S) × (leaf c ≡ ok f) × ((d : ℕ) → has_doc f d ≡ meaning c d)

  abbrev Finds : Result (Found S) → (ℕ → Bool) → Type 0
  Finds r test = (f : Found S) × (r ≡ ok f) × ((d : ℕ) → has_doc f d ≡ test d)

  mutual
    unfolding evaluate evaluate_and evaluate_or matches all_match any_matches

    evaluate-Finds : IsMeant → (q : Query V) → Finds (evaluate W leaf q) (matches meaning q)
    evaluate-Finds h (compare c) = h c
    evaluate-Finds h (and_ q qs) =
        let (f, e, t) = evaluate-Finds h q in
        let (g, e', t') = evaluate_and-Finds h f qs in
        (g, rw (e) e', λ d. ground (arith, t d, t' d))
    evaluate-Finds h (or_ q qs) =
        let (f, e, t) = evaluate-Finds h q in
        let (g, e', t') = evaluate_or-Finds h f qs in (g, rw (e) e', λ d. ground (arith, t d, t' d))

    evaluate_and-Finds :
        IsMeant
        → (result : Found S) (qs : Queries V)
        → Finds (evaluate_and W leaf result qs) (λ d. has_doc result d && all_match meaning qs d)
    evaluate_and-Finds h result end = (result, refl, λ d. ground arith)
    evaluate_and-Finds h result (cons q qs) =
        let (f, e, t) = evaluate-Finds h q in
        let (g, e', t') = evaluate_and-Finds h (meet W leaf result f) qs in
        elim (Bool-cases (has_none result)) [
          | inl b ↦ (
            nothing_found W leaf,
            rw (b) refl,
            λ d. ground (arith, has_doc-has_none result d b, has_doc-nothing_found d),
          )
          | inr b ↦ elim (Bool-cases (has_none f)) [
            | inl c ↦ (
              nothing_found W leaf,
              rw (b, e, c) refl,
              λ d. ground (arith, t d, has_doc-has_none f d c, has_doc-nothing_found d),
            )
            | inr c ↦ (g, rw (b, e, c) e', λ d. ground (arith, t d, t' d, has_doc-meet result f d))
          ]
        ]

    evaluate_or-Finds :
        IsMeant
        → (result : Found S) (qs : Queries V)
        → Finds (evaluate_or W leaf result qs) (λ d. has_doc result d || any_matches meaning qs d)
    evaluate_or-Finds h result end = (result, refl, λ d. ground arith)
    evaluate_or-Finds h result (cons q qs) =
        let (f, e, t) = evaluate-Finds h q in
        let (g, e', t') = evaluate_or-Finds h (unite W leaf result f) qs in
        (g, rw (e) e', λ d. ground (arith, t d, t' d, has_doc-unite result f d))

  -- Where the comparisons return what they mean, a query returns, whatever is empty on the way,
  -- exactly the documents that match it.
  pub evaluate_lem :
      IsMeant
      → (q : Query V)
      → (f : Found S) × (evaluate W leaf q ≡ ok f) × ((d : ℕ) → has_doc f d ≡ matches meaning q d)
  evaluate_lem h q = evaluate-Finds h q
