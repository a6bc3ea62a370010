-- ===== src/Storage/Traverse.antt =====
-- storage/__init__.py: `parallel_traversal`, which follows several keys down their trees at once
-- and asks for the nodes of one level together. Objects are numbers.
use zerodb.Common.{
  ℕ, zero, suc, ◌<◌, ◌≡◌, Bool, true, false, Option, none, some, List, [], ◌∷◌, elem, if◌then◌else◌,
  ◌==◌,
}
use zerodb.Common.Result.{Result, ok, err, ◌>>=◌, value_error}
use zerodb.Storage.Search.{Cell, branch, key, btree_state_search}

-- `is_tree` is `isinstance(tree, Persistent) and hasattr(tree, "_bucket_type")`, `is_next` whether a
-- child is a tree of the same type or a bucket. `is_stored` is
-- `isinstance(t, Persistent) and getattr(t, "_p_oid", None)`.
pub record Nodes : Type 0 where
  pub is_tree : ℕ → Bool
  pub is_stored : ℕ → Bool
  pub is_next : ℕ → ℕ → Bool
  pub state : ℕ → Option (List (Cell ℕ))

module _ (H : Nodes) where
  abbrev next_cell : ℕ → Option (ℕ × Cell ℕ) → Option ℕ
  next_cell t none = none
  next_cell t (some (i, key k)) = none
  next_cell t (some (i, branch c)) = if H.is_next t c then some c else none

  -- the node that the search for a key leads to
  unfoldable pub next_of : ℕ → ℕ → Result (Option ℕ)
  next_of wanted t =
      if H.is_tree t
      then (do found ← btree_state_search ℕ (H.state t) wanted; ok (next_cell t found))
      else ok none

  abbrev add_next : ℕ → Option ℕ → List (ℕ × ℕ) → List (ℕ × ℕ)
  add_next wanted none pairs = pairs
  add_next wanted (some c) pairs = (wanted, c) ∷ pairs

  -- `nxt_keys` and `nxt_trees`, as pairs
  unfoldable pub next_pairs : List (ℕ × ℕ) → Result (List (ℕ × ℕ))
  next_pairs [] = ok []
  next_pairs ((wanted, t) ∷ pairs) = do
    nxt ← next_of wanted t
    rest ← next_pairs pairs
    ok (add_next wanted nxt rest)

  -- `to_fetch`, of which the source makes a set
  abbrev pub trees_of : List (ℕ × ℕ) → List ℕ
  trees_of [] = []
  trees_of ((wanted, t) ∷ pairs) = if H.is_stored t then t ∷ trees_of pairs else trees_of pairs

  abbrev if_any : List (ℕ × ℕ) → Result (List (List ℕ)) → Result (List (List ℕ))
  if_any [] rest = ok []
  if_any (p ∷ pairs) rest = rest

  -- The requests, a list of trees for each level; the fuel is for the levels.
  unfoldable pub parallel_traversal : ℕ → List (ℕ × ℕ) → Result (List (List ℕ))
  unfolding next_pairs
  parallel_traversal zero pairs = err value_error
  parallel_traversal (suc fuel) pairs = do
    nxt ← next_pairs pairs
    rest ← if_any nxt (parallel_traversal fuel nxt)
    ok (trees_of pairs ∷ rest)

  -- Nodes whose searches do not raise, and which lead down.
  pub record IsTree : Type 0 where
    pub rank : ℕ → ℕ
    pub next : ℕ → ℕ → Option ℕ
    pub found : (wanted t : ℕ) → next_of wanted t ≡ ok (next wanted t)
    pub down : (wanted t c : ℕ) → next wanted t ≡ some c → rank c < rank t

  module _ (T : IsTree) where
    abbrev nexts : List (ℕ × ℕ) → List (ℕ × ℕ)
    nexts [] = []
    nexts ((wanted, t) ∷ pairs) = add_next wanted (T.next wanted t) (nexts pairs)

    -- all trees are low
    abbrev pub AreBelow : ℕ → List (ℕ × ℕ) → Type 0
    AreBelow fuel [] = Unit
    AreBelow fuel ((wanted, t) ∷ pairs) = (T.rank t < fuel) × AreBelow fuel pairs

    abbrev pub has_pair : ℕ → ℕ → List (ℕ × ℕ) → Bool
    has_pair wanted t [] = false
    has_pair wanted t ((w, u) ∷ pairs) =
        if w == wanted
        then (if u == t then true else has_pair wanted t pairs)
        else has_pair wanted t pairs

    -- The stored nodes that one key passes are in the requests, level by level.
    abbrev pub Follows : ℕ → ℕ → ℕ → List (List ℕ) → Type 0
    Follows zero wanted t batches = Unit
    Follows (suc n) wanted t [] = ⊥
    Follows (suc n) wanted t (batch ∷ batches) =
        (H.is_stored t ≡ true → elem t batch ≡ true)
        × ((c : ℕ) → T.next wanted t ≡ some c → Follows n wanted c batches)
