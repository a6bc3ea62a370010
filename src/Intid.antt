-- ===== src/Intid.antt =====
-- intid.py: `IdStore`, the objects of a model under unique integer ids. What `random.randrange`
-- returns is a list of draws; an object's attribute `_p_uid` is a field of the world.
pub mod Laws
pub mod Tests
use zerodb.Common.{
  ℕ, zero, suc, ◌+◌, Bool, true, false, Option, none, some, List, [], ◌∷◌, ltb, if◌then◌else◌, ite,
}
use zerodb.Common.Int.{ℤ, pos, negsuc, ◌+ℤ◌}
use zerodb.Common.Result.{Result, ok, err, Error, key_error, type_error}
use zerodb.BTrees.{TreeModule}

-- `_p_uid`: not set, set to `None`, or an id.
pub data PUid : Type 0 where
  absent : PUid
  cleared : PUid
  assigned : ℕ → PUid

-- `length` is absent in a store that an older version wrote.
pub record IdStore (R : TreeModule ℕ) (Obj : Type 0) : Type 0 where
  pub tree : R.Tree Obj
  pub length : Option ℤ
  pub v_nextid : Option ℕ

pub record World (R : TreeModule ℕ) (Obj : Type 0) : Type 0 where
  pub store : IdStore R Obj
  pub open store use *
  pub p_uid : Obj → PUid

-- an argument of `remove`
pub data Target (Obj : Type 0) : Type 0 where
  by_uid : ℕ → Target Obj
  by_obj : Obj → Target Obj

module _ (R : TreeModule ℕ) (Obj : Type 0) where
  abbrev pub new_store : IdStore R Obj
  new_store = record { tree = R.empty Obj; length = some (pos 0); v_nextid = none }

  module _ (maxint : ℕ) where
    -- the id that `_v_nextid` keeps after `uid` was given out
    abbrev pub successor : ℕ → Option ℕ
    successor uid = if ltb maxint (uid + 1) then none else some (uid + 1)

    -- the loop of `_generateId` from `nextid = None` on; `none` if the draws do not suffice
    unfoldable pub generate_random : R.Tree Obj → List ℕ → Option (ℕ × Option ℕ × List ℕ)
    generate_random tree [] = none
    generate_random tree (r ∷ draws) = elim (R.get tree r) [
      | none ↦ some (r, successor r, draws)
      | some _ ↦ generate_random tree draws
    ]

    unfoldable pub generate_id : R.Tree Obj → Option ℕ → List ℕ → Option (ℕ × Option ℕ × List ℕ)
    unfolding generate_random
    generate_id tree none draws = generate_random tree draws
    generate_id tree (some nextid) draws = elim (R.get tree nextid) [
      | none ↦ some (nextid, successor nextid, draws)
      | some _ ↦ generate_random tree draws
    ]

    -- `BTree.insert`: whether the key was new, and the tree
    abbrev pub tree_insert : R.Tree Obj → ℕ → Obj → Bool × R.Tree Obj
    tree_insert tree k obj = elim (R.get tree k) [
      | none ↦ (true, R.put tree k obj)
      | some _ ↦ (false, tree)
    ]

    -- the `while True` of `add`, on fuel
    unfoldable pub add_loop : ℕ → IdStore R Obj → Obj → List ℕ → Option (ℕ × IdStore R Obj × List ℕ)
    add_loop zero s obj draws = none
    add_loop (suc fuel) s obj draws = elim (generate_id s.tree s.v_nextid draws) [
      | none ↦ none
      | some (uid, next, rest) ↦
          let (fresh, tree) = tree_insert s.tree uid obj in
          elim fresh [
            | true ↦ some (uid, record s { tree = tree; v_nextid = next }, rest)
            | false ↦ add_loop fuel (record s { v_nextid = next }) obj rest
          ]
    ]

-- `if not hasattr(self, "length")`
abbrev pub counter : {R : TreeModule ℕ} {Obj : Type 0} → IdStore R Obj → ℤ
counter {R} s = elim s.length [ none ↦ pos (R.len s.tree) | some n ↦ n ]

abbrev pub set_p_uid : {Obj : Type 0} → Discrete Obj → (Obj → PUid) → Obj → PUid → Obj → PUid
set_p_uid dec f obj p o = ite (dec obj o) p (f o)

module _ {R : TreeModule ℕ} {Obj : Type 0} (dec : Discrete Obj) where
  -- `none` if the draws do not suffice; the loop inserts a fresh id, so that it runs once
  unfoldable pub add : ℕ → Obj → List ℕ → World R Obj → Option (ℕ × World R Obj)
  add maxint obj draws w = elim (add_loop R Obj maxint 1 w.store obj draws) [
    | none ↦ none
    | some (uid, s, rest) ↦ some (
      uid,
      record {
        store = record s { length = some (counter w.store +ℤ pos 1) };
        p_uid = set_p_uid dec w.p_uid obj (assigned uid);
      },
    )
  ]

  abbrev drop_uid : IdStore R Obj → ℕ → IdStore R Obj
  drop_uid s uid = record s { tree = R.del s.tree uid; length = some (counter s +ℤ negsuc 0) }

  abbrev with_counter : IdStore R Obj → IdStore R Obj
  with_counter s = record s { length = some (counter s) }

  abbrev remove_obj : Obj → PUid → World R Obj → Result (Unit {0}) × World R Obj
  remove_obj obj absent w = (err type_error, record w { store = with_counter w.store })
  remove_obj obj cleared w = (err type_error, record w { store = with_counter w.store })
  remove_obj obj (assigned uid) w = elim (R.get w.tree uid) [
    | none ↦ (err key_error, record w { store = with_counter w.store })
    | some _ ↦
        (ok tt, record { store = drop_uid w.store uid; p_uid = set_p_uid dec w.p_uid obj cleared })
  ]

  -- what an exception leaves is the second component
  unfoldable pub remove : Target Obj → World R Obj → Result (Unit {0}) × World R Obj
  remove (by_uid uid) w = elim (R.get w.tree uid) [
    | none ↦ (err key_error, record w { store = with_counter w.store })
    | some _ ↦ (ok tt, record w { store = drop_uid w.store uid })
  ]
  remove (by_obj obj) w = remove_obj obj (w.p_uid obj) w

  unfoldable pub get_item : ℕ → World R Obj → Result Obj
  get_item uid w = elim (R.get w.tree uid) [ none ↦ err key_error | some obj ↦ ok obj ]

  unfoldable pub len : World R Obj → ℤ
  len w = counter w.store
