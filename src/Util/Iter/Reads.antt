-- ===== src/Util/Iter/Reads.antt =====
-- Reading a `Sliceable` by numbers: what it gives is what the iterator gives, in any order.
use zerodb.Common.{
  ℕ, zero, suc, ◌+◌, ◌-◌, ◌≤◌, ◌<◌, ◌≡◌, refl, ap, sym, ◌∙◌, true, false, Option, none, some, List,
  ltb, drop, length, get_elem?, get_elem?-drop, drop-drop, drop_at, drop_end, get_elem?_lt, arith,
  Option-cases, inl, inr, Bool-cases, ==_iff, ◌==◌,
}
use zerodb.Common.Result.{Result, ok, err, stop_iteration}
use zerodb.Util.Iter.{LruCache, Sliceable, init, get_item, fetch, next_of, renew, items_from}

-- What a list has at an index, where `StopIteration` says that it has nothing.
abbrev pub item_of : {A : Type 0} → Option A → Result A
item_of none = err stop_iteration
item_of (some x) = ok x

module _ (A : Type 0) (L : LruCache A) (xs : List A) where
  pub record Agrees (cache : L.Cache) : Type 0 where
    pub agrees : (i : ℕ) (x : A) → L.get? cache i ≡ some x → get_elem? xs i ≡ some x

  -- The cache holds elements of the list at their own places, and what `f()` returned is an iterator, which is
  -- where `stop` says.
  pub record IsServed (s : Sliceable A L) : Type 0 where
    pub owns : s.owns ≡ true
    pub consumed : s.raw ≡ false
    pub held : Agrees s.cache
    pub position : ℕ
    pub at : s.stop ≡ some position
    pub left : s.iterator ≡ drop position xs

  pub set-Agrees :
      (cache : L.Cache) (i : ℕ) (x : A)
      → Agrees cache
      → get_elem? xs i ≡ some x
      → Agrees (L.set cache i x)
  set-Agrees cache i x c e = record {
    agrees = λ j y h. elim (Bool-cases (i == j)) [
      | inl same ↦ ground (arith, ==_iff i j, L.get?-set cache i x)
      | inr other ↦
          c.agrees j y (L.get?-set_other cache i j x y (λ eq. ground (arith, ==_iff i j)) h)
    ];
  }

  touch-Agrees : (cache : L.Cache) (i : ℕ) → Agrees cache → Agrees (L.touch cache i)
  touch-Agrees cache i c = record {
    agrees = λ j y h. c.agrees j y (sym (L.get?-touch cache i j) ∙ h);
  }

  pub init-IsServed : IsServed (init A L xs true)
  unfolding init
  init-IsServed = record {
    owns = refl;
    consumed = refl;
    held = record { agrees = λ i x h. absurd (ground (arith, L.get?-empty i)) };
    position = 0;
    at = refl;
    left = refl;
  }

  -- the answer, and that the view stays in order
  Answers : Result A × Sliceable A L → ℕ → Type 0
  Answers (r, s) i = (r ≡ item_of (get_elem? xs i)) × IsServed s

  next_of-Answers :
      (s : Sliceable A L) (key stop : ℕ)
      → s.owns ≡ true
      → s.raw ≡ false
      → Agrees s.cache
      → s.iterator ≡ drop stop xs
      → stop ≤ key
      → Answers (next_of A L xs s key stop) key
  unfolding Answers
  next_of-Answers s key stop o r c d le = elim (Option-cases (get_elem? xs key)) [
    | inl e ↦
        rw (same ∙ e, e, next_of)
          (
            refl,
            record {
              owns = o;
              consumed = ground (arith, o);
              held = c;
              position = 0;
              at = refl;
              left = refl;
            },
          )
    | inr (x, e) ↦
        rw (same ∙ e, e, next_of)
          (
            refl,
            record {
              owns = o;
              consumed = r;
              held = set-Agrees s.cache key x c e;
              position = suc key;
              at = refl;
              left =
                  ground (arith, r)
                  ∙ ap (λ (l : List A). drop (suc (key - stop)) l) d
                  ∙ drop-drop (suc (key - stop)) stop xs
                  ∙ ap (λ (n : ℕ). drop n xs) moved;
            },
          )
  ]
    where
      moved : stop + suc (key - stop) ≡ suc key
      moved = omega arith

      same : get_elem? s.iterator (key - stop) ≡ get_elem? xs key
      same =
          ap (λ (l : List A). get_elem? l (key - stop)) d
          ∙ ground (arith, get_elem?-drop stop (key - stop) xs)

  fetch-Answers :
      (s : Sliceable A L) (key : ℕ) → IsServed s → Answers (fetch A L xs s key s.stop) key
  unfolding Answers
  fetch-Answers s key h = elim (Bool-cases (ltb key h.position)) [
    | inl e ↦
        rw (h.at, e) (next_of-Answers (renew A L xs s) key 0 h.owns refl h.held refl (omega arith))
    | inr e ↦
        rw (h.at, e)
          (next_of-Answers s key h.position h.owns h.consumed h.held h.left (ground arith))
  ]

  -- Read at a number, a view of an iterator (`f()` returns an iterator, not only what can be
  -- iterated over) whose cache agrees with the list gives the element that the list has
  -- there, or `StopIteration` beyond its end, and its
  -- cache still agrees.
  pub get_item-IsServed :
      (s : Sliceable A L) (i : ℕ)
      → IsServed s
      → ((get_item A L xs s i).0 ≡ item_of (get_elem? xs i)) × IsServed ((get_item A L xs s i).1)
  unfolding get_item Answers
  get_item-IsServed s i h = elim (Option-cases (L.get? s.cache i)) [
    | inl e ↦ rw (e, get_item) (fetch-Answers s i h)
    | inr (x, e) ↦
        rw (e, h.held.agrees i x e, get_item)
          (
            refl,
            record {
              owns = h.owns;
              consumed = h.consumed;
              held = touch-Agrees s.cache i h.held;
              position = h.position;
              at = h.at;
              left = h.left;
            },
          )
  ]

  items_from_lem :
      (fuel : ℕ) (s : Sliceable A L) (i : ℕ)
      → IsServed s
      → length xs < i + fuel
      → (items_from A L xs fuel s i).0 ≡ ok (drop i xs)
  unfolding items_from
  items_from_lem zero s i h l = ap ok (
      sym (
        drop_end i xs (elim (Option-cases (get_elem? xs i)) [
          | inl e ↦ e
          | inr (x, e) ↦ absurd (omega (arith, get_elem?_lt i xs x e))
        ])))
  items_from_lem (suc fuel) s i h l =
      let (r, t) = get_item-IsServed s i h in
      let rest = items_from_lem fuel ((get_item A L xs s i).1) (suc i) t (omega arith) in
      elim (Option-cases (get_elem? xs i)) [
        | inl e ↦ ground (arith, r, e, drop_end i xs e)
        | inr (x, e) ↦ ground (arith, r, e, drop_at i xs x e, rest)
      ]

  -- Iterating over a view whose cache agrees with the list gives the whole list, with more steps
  -- than the list is long: `StopIteration` ends it.
  items_from_all :
      (fuel : ℕ) (s : Sliceable A L)
      → IsServed s
      → length xs < fuel
      → (items_from A L xs fuel s 0).0 ≡ ok xs
  items_from_all fuel s h l = items_from_lem fuel s 0 h (omega arith)
