-- ===== src/Intid/Laws.antt =====
-- What `IdStore` promises: ids are fresh, ids and objects are kept, the counter counts them
-- (intid.py).
use zerodb.Common.{
  ℕ, ◌≡◌, ◌≢◌, refl, true, Option, none, some, List, [], ◌∷◌, arith, if◌then◌else◌, ite, ◌==◌,
  Option-cases, inl, inr, elem,
}
use zerodb.Common.Int.{pos, ◌+ℤ◌, incr_pos, decr_pos}
use zerodb.Common.Result.{ok}
use zerodb.BTrees.{TreeModule}
use zerodb.Intid.{
  assigned, cleared, IdStore, World, Target, by_uid, by_obj, generate_random, generate_id,
  successor, add_loop, add, remove, counter,
}

-- The counter, where the store has one, is the number of objects.
abbrev pub IsCounted : {R : TreeModule ℕ} {Obj : Type 0} → IdStore R Obj → Type 0
IsCounted {R} s = counter s ≡ pos (R.len s.tree)

-- `_generateId` gave an id that is not in the tree.
abbrev pub GivesUnused :
    (R : TreeModule ℕ) (Obj : Type 0) (maxint : ℕ)
    → R.Tree Obj
    → Option (ℕ × Option ℕ × List ℕ)
    → Type 0
GivesUnused R Obj maxint tree out =
    (uid : ℕ) × (rest : List ℕ) × (out ≡ some (uid, successor R Obj maxint uid, rest))
    × (R.get tree uid ≡ none)

module _ (R : TreeModule ℕ) (Obj : Type 0) (maxint : ℕ) where
  generate_random_total :
      (tree : R.Tree Obj) (draws : List ℕ) (r : ℕ)
      → elem r draws ≡ true
      → R.get tree r ≡ none
      → GivesUnused R Obj maxint tree (generate_random R Obj maxint tree draws)
  unfolding generate_random
  generate_random_total tree [] r m free = absurd (cc)
  generate_random_total tree (x ∷ draws) r m free = elim (Option-cases (R.get tree x)) [
    | inl e ↦ (x, draws, rw (e, generate_random) refl, e)
    | inr (o, e) ↦
        rw (e, generate_random) (generate_random_total tree draws r (ground (arith, e, free)) free)
  ]

  -- `_generateId` ends once a draw is free, and gives an id that is not taken.
  pub generate_id_total :
      (tree : R.Tree Obj) (next : Option ℕ) (draws : List ℕ) (r : ℕ)
      → elem r draws ≡ true
      → R.get tree r ≡ none
      → GivesUnused R Obj maxint tree (generate_id R Obj maxint tree next draws)
  unfolding generate_id
  generate_id_total tree none draws r m free = generate_random_total tree draws r m free
  generate_id_total tree (some n) draws r m free = elim (Option-cases (R.get tree n)) [
    | inl e ↦ (n, draws, rw (e, generate_id) refl, e)
    | inr (o, e) ↦ rw (e, generate_id) (generate_random_total tree draws r m free)
  ]

-- What `add` did: the object stands under a fresh id, which it carries, all else is as before,
-- and the counter is right.
pub record Added {R : TreeModule ℕ} {Obj : Type 0} (dec : Discrete Obj) (obj : Obj) (uid : ℕ)
    (w w' : World R Obj) : Type 0 where
  pub fresh : R.get w.tree uid ≡ none
  pub stored : (k : ℕ) → R.get w'.tree k ≡ (if uid == k then some obj else R.get w.tree k)
  pub carried : w'.p_uid obj ≡ assigned uid
  pub kept : (o : Obj) → ¬ (obj ≡ o) → w'.p_uid o ≡ w.p_uid o
  pub counted : IsCounted w'.store

module _ {R : TreeModule ℕ} {Obj : Type 0} (dec : Discrete Obj) (maxint : ℕ) where
  -- With a free id among the draws, and a right counter, `add` returns: it stores the object under
  -- an id that was not taken, gives it that id, changes no other entry, and counts it.
  pub add_adds :
      (obj : Obj) (draws : List ℕ) (r : ℕ) (w : World R Obj)
      → elem r draws ≡ true
      → R.get w.tree r ≡ none
      → IsCounted w.store
      → (uid : ℕ) × (w' : World R Obj) × (add dec maxint obj draws w ≡ some (uid, w'))
        × Added dec obj uid w w'
  unfolding add add_loop
  add_adds obj draws r w m free c =
      let (uid, rest, made, unused) =
        generate_id_total R Obj maxint w.tree w.v_nextid draws r m free in
      (
        uid,
        record {
          store = record {
            tree = R.put w.tree uid obj;
            length = some (counter w.store +ℤ pos 1);
            v_nextid = successor R Obj maxint uid;
          };
          p_uid = λ o. ite (dec obj o) (assigned uid) (w.p_uid o);
        },
        ground (arith, made, unused),
        record {
          fresh = unused;
          stored = λ k. ground (arith, R.get-put w.tree uid obj k);
          carried = ground arith;
          kept = λ o ne. ground arith;
          counted =
              ground (arith, c, R.len-put_new w.tree uid obj, unused, incr_pos (R.len w.tree));
        },
      )

module _ {R : TreeModule ℕ} {Obj : Type 0} (dec : Discrete Obj) where
  -- Removing an object that is stored under the id it carries takes that id, and no other, out of
  -- the store; the counter stays right, and the object loses its id.
  remove_by_obj :
      (obj : Obj) (uid : ℕ) (o : Obj) (k : ℕ) (w : World R Obj)
      → w.p_uid obj ≡ assigned uid
      → R.get w.tree uid ≡ some o
      → IsCounted w.store
      → ((remove dec (by_obj obj) w).0 ≡ ok tt)
        × (R.get (remove dec (by_obj obj) w).1.tree k ≡ (if uid == k then none else R.get w.tree k))
        × ((remove dec (by_obj obj) w).1.p_uid obj ≡ cleared)
        × IsCounted (remove dec (by_obj obj) w).1.store
  unfolding remove
  remove_by_obj obj uid o k w has at c = ground (
    arith,
    has,
    at,
    c,
    R.get-del w.tree uid k,
    R.len-del w.tree uid,
    decr_pos (R.len (R.del w.tree uid)),
  )

  -- A removal that raises, by an id or by an object, takes nothing out of the store, and leaves
  -- the objects' own ids as they were.
  pub remove_raises :
      (t : Target Obj) (w : World R Obj)
      → (remove dec t w).0 ≢ ok tt
      → ((remove dec t w).1.tree ≡ w.tree) × ((remove dec t w).1.p_uid ≡ w.p_uid)
  unfolding remove
  remove_raises (by_uid uid) w h = ground arith
  remove_raises (by_obj obj) w h = ground arith
