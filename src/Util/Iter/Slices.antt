-- ===== src/Util/Iter/Slices.antt =====
-- Reading a `Sliceable` by slices: right where nothing is cached yet, and what a slice over a
-- cached part does to the cache.
use zerodb.Common.{
  ℕ, zero, suc, ◌+◌, ◌-◌, ◌≤◌, ◌<◌, ◌≡◌, refl, Bool, false, Option, none, some, List, [], ◌∷◌, ltb,
  drop, take, drop-drop, arith, Option-cases, inl, inr, Bool-cases,
}
use zerodb.Common.Result.{ok, err, stop_iteration}
use zerodb.Util.Iter.{
  LruCache, Sliceable, strided, islice, init, get_item, get_slice, count_cached, slice_at,
}
use zerodb.Util.Iter.Reads.{IsServed}

module _ (A : Type 0) (L : LruCache A) (xs : List A) where
  islice_moved :
      (n start stop step : ℕ)
      → n ≤ start
      → (islice (drop n xs) (start - n) (some (stop - n)) step).0
        ≡ strided 0 step (take (stop - start) (drop start xs))
  islice_moved n start stop step le =
      let from_ : n + (start - n) ≡ start = omega arith in
      let size : (stop - n) - (start - n) ≡ stop - start = omega arith in
      rw (drop-drop (start - n) n xs, from_, size) refl

  slice_at_lem :
      (s : Sliceable A L) (start stop step : ℕ)
      → IsServed A L xs s
      → start < stop
      → (slice_at A L xs s s.stop start (some stop) step 0).0
        ≡ ok (strided 0 step (take (stop - start) (drop start xs)))
  slice_at_lem s start stop step h lt = elim (Bool-cases (ltb start h.position)) [
    | inl e ↦ ground (arith, h.at)
    | inr e ↦ ground (arith, h.at, h.left, islice_moved h.position start stop step (ground arith))
  ]

  count_cached-none :
      (fuel : ℕ) (cache : L.Cache) (i : ℕ) (stop : Option ℕ) (step : ℕ)
      → L.get? cache i ≡ none
      → count_cached A L xs fuel cache i stop step ≡ 0
  unfolding count_cached
  count_cached-none zero cache i stop step h = refl
  count_cached-none (suc fuel) cache i stop step h = ground (arith, h)

  -- A slice that is not empty and whose first index is not cached gives every (step + 1)-th
  -- element between its ends, on a view whose cache agrees with the list.
  get_slice_lem :
      (s : Sliceable A L) (start stop step : ℕ)
      → IsServed A L xs s
      → start < stop
      → L.get? s.cache start ≡ none
      → (get_slice A L xs s (some start) (some stop) step).0
        ≡ ok (strided 0 step (take (stop - start) (drop start xs)))
  unfolding get_slice
  get_slice_lem s start stop step h lt e =
      rw (count_cached-none stop s.cache start (some stop) step e)
        (slice_at_lem s start stop step h lt)

-- On a list of two elements or more, after reading the index 0 and the slice from 0 to 2, which
-- is right, reading the index 0 gives the second element.
pub get_item_misplaced :
    (A : Type 0) (L : LruCache A) (owns : Bool) (x y : A) (rest : List A)
    → (let xs = x ∷ y ∷ rest in
        let s = (get_item A L xs (init A L xs owns) 0).1 in
        let after = get_slice A L xs s (some 0) (some 2) 0 in
        (after.0 ≡ ok (x ∷ y ∷ [])) × ((get_item A L xs (after.1) 0).0 ≡ ok y))
unfolding get_item get_slice init count_cached
get_item_misplaced A L owns x y rest =
    let xs = x ∷ y ∷ rest in
    let one : L.get? (L.set L.empty 0 x) 1 ≡ none =
      elim (Option-cases (L.get? (L.set L.empty 0 x) 1)) [
        | inl e ↦ e
        | inr (z, e) ↦
            absurd
              (ground (arith, L.get?-set_other L.empty 0 1 x z (omega arith) e, L.get?-empty 1))
      ] in
    ground (
      arith,
      one,
      L.get?-empty 0,
      L.get?-set L.empty 0 x,
      L.get?-touch (L.set L.empty 0 x) 0 0,
      L.get?-set (L.touch (L.set L.empty 0 x) 0) 0 y,
    )

-- Where `f()` returns what is not an iterator, after a read beyond the end of a list of two
-- elements, which raises `StopIteration`, reading the index 0 is right and reading the index 1
-- gives the first element again.
get_item_rewound :
    (A : Type 0) (L : LruCache A) (x y : A)
    → (let xs = x ∷ y ∷ [] in
        let s = get_item A L xs (init A L xs false) 2 in
        let t = get_item A L xs (s.1) 0 in
        (s.0 ≡ err stop_iteration) × (t.0 ≡ ok x) × ((get_item A L xs (t.1) 1).0 ≡ ok x))
unfolding get_item init
get_item_rewound A L x y =
    let one : L.get? (L.set L.empty 0 x) 1 ≡ none =
      elim (Option-cases (L.get? (L.set L.empty 0 x) 1)) [
        | inl e ↦ e
        | inr (z, e) ↦
            absurd
              (ground (arith, L.get?-set_other L.empty 0 1 x z (omega arith) e, L.get?-empty 1))
      ] in
    ground (arith, one, L.get?-empty 0, L.get?-empty 2)
