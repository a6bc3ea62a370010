-- ===== src/Storage/Tests.antt =====
-- The search in a BTree's state, at a node with three keys, and the fetching of small trees.
use zerodb.Storage.Prefetch.{Heap, prefetch_trees, fetched, root, child, prefetch_trees_lem}
use zerodb.Storage.Traverse.{Nodes, next_of, IsTree}
use zerodb.Common.{
  Bool, true, false, Option, none, ◌<◌, ◌==◌, ltb, if◌then◌else◌, Bool-cases, inl, inr, ℕ, zero,
  suc, ◌*◌, sym, some-inj, ◌≡◌, refl, List, [], ◌∷◌, some, arith,
}
use zerodb.Common.Result.{ok}
use zerodb.Storage.Search.{
  Cell, branch, cells, key_at, child_at, IsAscending, Belongs, search, btree_state_search,
  btree_state_search_lem,
}

abbrev pairs : List (ℕ × ℕ)
pairs = (10, 1) ∷ (20, 2) ∷ (30, 3) ∷ []

key_at-pairs : (i k : ℕ) → key_at ℕ pairs i ≡ some k → k ≡ i * 10
key_at-pairs zero k h = cc
key_at-pairs (suc zero) k h = sym (some-inj h)
key_at-pairs (suc (suc zero)) k h = sym (some-inj h)
key_at-pairs (suc (suc (suc zero))) k h = sym (some-inj h)
key_at-pairs (suc (suc (suc (suc i)))) k h = cc

pairs-IsAscending : IsAscending ℕ pairs
pairs-IsAscending = record {
  ascends = λ i j k l lt p q. omega (arith, key_at-pairs i k p, key_at-pairs j l q);
}

btree_state_search_example :
    (i : ℕ) × (child : ℕ) × (btree_state_search ℕ (some (cells ℕ 0 pairs)) 25
      ≡ ok (some (i, branch child)))
    × (child_at ℕ 0 pairs i ≡ some child)
    × Belongs ℕ pairs 25 i
btree_state_search_example = btree_state_search_lem ℕ 0 pairs 25 pairs-IsAscending

btree_state_search_test : btree_state_search ℕ (some (cells ℕ 0 pairs)) 25 ≡ ok (some (2, branch 2))
unfolding btree_state_search search
btree_state_search_test = refl

-- the tree 1 has the children 2 and 3
abbrev heap : Heap
heap = record {
  is_object = λ o. true;
  is_followed = λ o. true;
  state = λ t. if t == 1 then some (2 ∷ 3 ∷ []) else none;
}

prefetch_trees_lem_example : fetched heap 3 (prefetch_trees heap 2 (1 ∷ [])) ≡ true
prefetch_trees_lem_example =
    prefetch_trees_lem heap 2 1 3 1 (1 ∷ []) (omega arith) refl
      (child (2 ∷ 3 ∷ []) refl refl refl refl (root refl))

-- the tree 0 has the buckets 10 and 11, with the key 5 between them
abbrev state_of : ℕ → Option (List (Cell ℕ))
state_of zero = some (cells ℕ 10 ((5, 11) ∷ []))
state_of (suc t) = none

abbrev is_zero : ℕ → Bool
is_zero zero = true
is_zero (suc t) = false

abbrev nodes : Nodes
nodes = record { is_tree = is_zero; is_stored = is_zero; is_next = λ t c. true; state = state_of }

abbrev next_node : ℕ → ℕ → Option ℕ
next_node wanted zero = some (if ltb 5 wanted then 11 else if ltb wanted 5 then 10 else 11)
next_node wanted (suc t) = none

abbrev rank_of : ℕ → ℕ
rank_of zero = 1
rank_of (suc t) = 0

next_of-nodes : (wanted t : ℕ) → next_of nodes wanted t ≡ ok (next_node wanted t)
unfolding next_of btree_state_search search
next_of-nodes wanted zero = elim (Bool-cases (ltb 5 wanted)) [
  | inl a ↦ rw (a) refl
  | inr a ↦ elim (Bool-cases (ltb wanted 5)) [ inl b ↦ rw (a, b) refl | inr b ↦ rw (a, b) refl ]
]
next_of-nodes wanted (suc t) = refl

next_node-down : (wanted t c : ℕ) → next_node wanted t ≡ some c → rank_of c < rank_of t
next_node-down wanted zero c h = ground (arith, h)
next_node-down wanted (suc t) c h = cc

abbrev tree : IsTree nodes
tree = record { rank = rank_of; next = next_node; found = next_of-nodes; down = next_node-down }
