-- ===== src/Storage/Search.antt =====
-- storage/__init__.py: `btree_state_search`, the binary search in the raw state of a BTree.
use zerodb.Common.{
  ℕ, zero, suc, ◌+◌, ◌-◌, ◌*◌, ◌/◌, ◌≤◌, ◌<◌, ◌≡◌, refl, ap, sym, ◌∙◌, Option, none, some, List, [],
  ◌∷◌, ltb, if◌then◌else◌, length, get_elem?, arith, Bool-cases, inl, inr, some-inj, subst,
}
use zerodb.Common.Result.{Result, ok, err, ◌>>=◌, type_error, index_error, value_error}

-- An element of the raw state: a child or a key.
pub data Cell (T : Type 0) : Type 0 where
  branch : T → Cell T
  key : ℕ → Cell T

module _ (T : Type 0) where
  abbrev key_of : Option (Cell T) → Result ℕ
  key_of none = err index_error
  key_of (some (branch t)) = err type_error
  key_of (some (key k)) = ok k

  abbrev cell_of : Option (Cell T) → Result (Cell T)
  cell_of none = err index_error
  cell_of (some c) = ok c

  abbrev turn : Result ℕ → ℕ → Result ℕ → Result ℕ → ℕ → Result ℕ
  turn (err e) wanted above below i = err e
  turn (ok k) wanted above below i =
      if ltb k wanted then above else if ltb wanted k then below else ok i

  -- The loop. The fuel is for its passes.
  unfoldable pub search : ℕ → List (Cell T) → ℕ → ℕ → ℕ → ℕ → Result ℕ
  search zero state wanted lo hi i = err value_error
  search (suc fuel) state wanted lo hi i =
      let above = search fuel state wanted i hi ((i + hi) / 2) in
      let below = search fuel state wanted lo i ((lo + i) / 2) in
      if ltb lo i then turn (key_of (get_elem? state (i * 2 - 1))) wanted above below i else ok i

  -- `btree_state_search`: `none` is `(-1, None)`
  unfoldable pub btree_state_search : Option (List (Cell T)) → ℕ → Result (Option (ℕ × Cell T))
  btree_state_search none wanted = ok none
  btree_state_search (some state) wanted =
      let hi = (length state + 1) / 2 in
      do
        i ← search (suc hi) state wanted 0 hi (hi / 2)
        child ← cell_of (get_elem? state (i * 2))
        ok (some (i, child))

  -- The raw state of an inner node: its first child, then each key with the child after it.
  abbrev pub cells : T → List (ℕ × T) → List (Cell T)
  cells first [] = branch first ∷ []
  cells first ((k, child) ∷ rest) = branch first ∷ key k ∷ cells child rest

  -- the key before the i-th child, and the i-th child
  abbrev pub key_at : List (ℕ × T) → ℕ → Option ℕ
  key_at pairs zero = none
  key_at [] (suc i) = none
  key_at ((k, child) ∷ rest) (suc zero) = some k
  key_at ((k, child) ∷ rest) (suc (suc i)) = key_at rest (suc i)

  abbrev pub child_at : T → List (ℕ × T) → ℕ → Option T
  child_at first pairs zero = some first
  child_at first [] (suc i) = none
  child_at first ((k, child) ∷ rest) (suc i) = child_at child rest i

  pub record IsAscending (pairs : List (ℕ × T)) : Type 0 where
    pub ascends : (i j k l : ℕ) → i < j → key_at pairs i ≡ some k → key_at pairs j ≡ some l → k < l

  -- A place where the wanted key belongs: not before the key on its left, before that on its right.
  pub record Belongs (pairs : List (ℕ × T)) (wanted i : ℕ) : Type 0 where
    pub in_range : i ≤ length pairs
    pub left : (k : ℕ) → key_at pairs i ≡ some k → k ≤ wanted
    pub right : (k : ℕ) → key_at pairs (suc i) ≡ some k → wanted < k

  length-cells :
      (first : T) (pairs : List (ℕ × T)) → length (cells first pairs) ≡ 2 * length pairs + 1
  length-cells first [] = omega arith
  length-cells first ((k, child) ∷ rest) = omega (arith, length-cells child rest)

  cells_key :
      (first : T) (pairs : List (ℕ × T)) (i k : ℕ)
      → key_at pairs (suc i) ≡ some k
      → get_elem? (cells first pairs) (suc (i + i)) ≡ some (key k)
  cells_key first [] i k h = cc
  cells_key first ((k', child) ∷ rest) zero k h = ap (λ z. some (key z)) (some-inj h)
  cells_key first ((k', child) ∷ rest) (suc i) k h =
      let there = cells_key child rest i k h in ground (arith, there)

  cells_child :
      (first : T) (pairs : List (ℕ × T)) (i : ℕ) (t : T)
      → child_at first pairs i ≡ some t
      → get_elem? (cells first pairs) (i + i) ≡ some (branch t)
  cells_child first [] zero t h = ap (λ z. some (branch z)) (some-inj h)
  cells_child first (p ∷ pairs) zero t h = ap (λ z. some (branch z)) (some-inj h)
  cells_child first [] (suc i) t h = cc
  cells_child first ((k', child) ∷ rest) (suc i) t h =
      let there = cells_child child rest i t h in ground (arith, there)

  has_key :
      (pairs : List (ℕ × T)) (i : ℕ) → i < length pairs → (k : ℕ) × (key_at pairs (suc i) ≡ some k)
  has_key [] i h = absurd (omega arith)
  has_key ((k, child) ∷ rest) zero h = (k, refl)
  has_key ((k, child) ∷ rest) (suc i) h = has_key rest i (omega arith)

  has_child :
      (first : T) (pairs : List (ℕ × T)) (i : ℕ)
      → i ≤ length pairs
      → (t : T) × (child_at first pairs i ≡ some t)
  has_child first pairs zero h = (first, refl)
  has_child first [] (suc i) h = absurd (omega arith)
  has_child first ((k, child) ∷ rest) (suc i) h = has_child child rest i (omega arith)

  cell_before :
      (first : T) (pairs : List (ℕ × T)) (i k : ℕ)
      → key_at pairs i ≡ some k
      → get_elem? (cells first pairs) (i * 2 - 1) ≡ some (key k)
  cell_before first pairs zero k h = cc
  cell_before first pairs (suc i) k h =
      let there = cells_key first pairs i k h in ground (arith, there)

  key_before :
      (pairs : List (ℕ × T)) (i : ℕ)
      → 0 < i
      → i ≤ length pairs
      → (k : ℕ) × (key_at pairs i ≡ some k)
  key_before pairs zero p h = absurd (omega arith)
  key_before pairs (suc i) p h = has_key pairs i (omega arith)

  key_at_end : (pairs : List (ℕ × T)) (i k : ℕ) → key_at pairs i ≡ some k → i ≤ length pairs
  key_at_end pairs zero k h = omega arith
  key_at_end [] (suc i) k h = cc
  key_at_end ((l, child) ∷ rest) (suc zero) k h = omega arith
  key_at_end ((l, child) ∷ rest) (suc (suc i)) k h = omega (arith, key_at_end rest (suc i) k h)

  -- where the loop stands: the place is between the two ends, and the fuel is enough
  record Bracket (pairs : List (ℕ × T)) (wanted fuel lo hi : ℕ) : Type 0 where
    ends : lo < hi
    size : hi ≤ suc (length pairs)
    enough : hi < fuel + lo
    low : (k : ℕ) → key_at pairs lo ≡ some k → k ≤ wanted
    high : (k : ℕ) → key_at pairs hi ≡ some k → wanted < k

  found_key :
      (pairs : List (ℕ × T)) (wanted i : ℕ)
      → IsAscending pairs
      → i ≤ length pairs
      → key_at pairs i ≡ some wanted
      → Belongs pairs wanted i
  found_key pairs wanted i asc le e = record {
    in_range = le;
    left = λ k h. omega (arith, some-inj (sym e ∙ h));
    right = λ k h. asc.ascends i (suc i) wanted k (omega arith) e h;
  }

  search_lem :
      (first : T) (pairs : List (ℕ × T)) (wanted fuel lo hi : ℕ)
      → IsAscending pairs
      → Bracket pairs wanted fuel lo hi
      → (j : ℕ) × (search fuel (cells first pairs) wanted lo hi ((lo + hi) / 2) ≡ ok j)
        × Belongs pairs wanted j
  unfolding search
  search_lem first pairs wanted zero lo hi asc b = absurd (omega (arith, b.ends, b.enough))
  search_lem first pairs wanted (suc fuel) lo hi asc b = elim (Bool-cases (ltb lo i)) [
    | inl e ↦
        let over : lo < i = ground (arith, e) in
        let (k, at) = key_before pairs i (omega (arith, over)) (omega (arith, b.size, below_hi)) in
        let cell = cell_before first pairs i k at in
        elim (Bool-cases (ltb k wanted)) [
          | inl up ↦
              let (j, r, place) = search_lem first pairs wanted fuel i hi asc (record {
                ends = below_hi;
                size = b.size;
                enough = omega (arith, over, b.enough);
                low = λ l h. ground (arith, up, some-inj (sym at ∙ h));
                high = b.high;
              }) in
              (j, rw (e, cell, up) r, place)
          | inr not_up ↦ elim (Bool-cases (ltb wanted k)) [
            | inl down ↦
                let (j, r, place) = search_lem first pairs wanted fuel lo i asc (record {
                  ends = over;
                  size = omega (arith, b.size, below_hi);
                  enough = omega (arith, b.enough, below_hi);
                  low = b.low;
                  high = λ l h. ground (arith, down, some-inj (sym at ∙ h));
                }) in
                (j, rw (e, cell, not_up, down) r, place)
            | inr not_down ↦
                let same : k ≡ wanted = ground (arith, not_up, not_down) in
                (
                  i,
                  rw (e, cell, not_up, not_down) refl,
                  found_key pairs wanted i asc (omega (arith, b.size, below_hi))
                      (at ∙ ap some same),
                )
          ]
        ]
    | inr e ↦
        let here : i ≡ lo = ground (arith, e, b.ends) in
        let next : hi ≡ suc lo = ground (arith, here, b.ends) in
        (
          i,
          rw (e) refl,
          record {
            in_range = omega (arith, here, next, b.size);
            left = λ k h. b.low k (subst (λ (n : ℕ). key_at pairs n ≡ some k) here h);
            right = λ k h.
                b.high k (subst (λ (n : ℕ). key_at pairs n ≡ some k) (ap suc here ∙ sym next) h);
          },
        )
  ]
    where
      i : ℕ
      i = (lo + hi) / 2

      below_hi : i < hi
      below_hi = omega (arith, b.ends)

  plus_zero : (n : ℕ) → 0 + n ≡ n
  plus_zero n = omega arith

  -- In the state of a node whose keys ascend, the search returns the child in whose range the
  -- wanted key is.
  pub btree_state_search_lem :
      (first : T) (pairs : List (ℕ × T)) (wanted : ℕ)
      → IsAscending pairs
      → (i : ℕ) × (child : T) × (btree_state_search (some (cells first pairs)) wanted
          ≡ ok (some (i, branch child)))
        × (child_at first pairs i ≡ some child)
        × Belongs pairs wanted i
  unfolding btree_state_search
  btree_state_search_lem first pairs wanted asc =
      let hi = (length (cells first pairs) + 1) / 2 in
      let size : hi ≡ suc (length pairs) = omega (arith, length-cells first pairs) in
      let (i, r, place) = search_lem first pairs wanted (suc hi) 0 hi asc (record {
        ends = omega (arith, size);
        size = omega (arith, size);
        enough = omega arith;
        low = λ k h. absurd (cc);
        high = λ k h. absurd (omega (arith, size, key_at_end pairs hi k h));
      }) in
      let (child, at) = has_child first pairs i place.in_range in
      let double : i * 2 ≡ i + i = omega arith in
      let twice : get_elem? (cells first pairs) (i * 2) ≡ some (branch child) =
        rw (double) (cells_child first pairs i child at) in
      let started : search (suc hi) (cells first pairs) wanted 0 hi (hi / 2) ≡ ok i =
        ap (λ (n : ℕ). search (suc hi) (cells first pairs) wanted 0 hi (n / 2)) (sym (plus_zero hi))
        ∙ r in
      (i, child, rw (started, twice) refl, at, place)
