-- ===== src/Db/Table.antt =====
-- A class's objects as a table of contents by id, which the object store and every index agree on
-- (db.py, `DbModel`).
use zerodb.Common.{
  ap, ◌∙◌, ◌⊎◌, ℕ, ◌≡◌, ◌≢◌, true, Option, none, some, List, elem, ◌==◌, if◌then◌else◌, refl, arith,
  Bool-cases, inl, inr, sym,
}
use zerodb.Common.Result.{ok}
use zerodb.Intid.{assigned, World, by_uid, by_obj}
use zerodb.Intid
use zerodb.BTrees.{TreeModule}
use zerodb.Intid.Laws.{IsCounted, Added, add_adds}
use zerodb.Db.{Site, ModelState, add, of_class}

-- the contents of the object that is stored under an id
abbrev pub contents_of : {A B : Type 0} → (A → B) → Option A → Option B
contents_of docs none = none
contents_of docs (some o) = some (docs o)

abbrev pub table : {S : Site} → ModelState S → ℕ → Option S.Doc
table {S} s k = contents_of s.docs (S.trees.get s.world.tree k)

-- what an index has of contents
abbrev pub indexed : (S : Site) → S.Attr → Option S.Doc → Option S.catalogs.Value
indexed S a t = contents_of (S.catalogs.value a) t

-- Every index has exactly the stored objects, with what they hold now; a stored object carries its
-- id and is of the class; the counter counts.
pub record IsSynced {S : Site} (cls : S.Class) (s : ModelState S) : Type 0 where
  pub agrees :
      (a : S.Attr) (k : ℕ)
      → S.catalogs.has_index s.catalog a ≡ true
      → S.catalogs.entry s.catalog a k ≡ indexed S a (table s k)
  pub carried :
      (k : ℕ) (o : S.Obj) → S.trees.get s.world.tree k ≡ some o → s.world.p_uid o ≡ assigned k
  pub typed : (k : ℕ) (o : S.Obj) → S.trees.get s.world.tree k ≡ some o → S.class_of o ≡ cls
  pub counted : IsCounted s.world.store

-- What a successful `add` did: a fresh id has the object's contents, and no other id changed.
pub record Inserted {S : Site} (cls : S.Class) (o : S.Obj) (u : ℕ) (s s' : ModelState S)
    : Type 0 where
  pub fresh : table s u ≡ none
  pub written : (k : ℕ) → table s' k ≡ (if u == k then some (s.docs o) else table s k)
  pub stored : S.trees.get s'.world.tree u ≡ some o
  pub same_docs : s'.docs ≡ s.docs
  pub same_uids : (x : S.Obj) → ¬ (o ≡ x) → s'.world.p_uid x ≡ s.world.p_uid x
  pub synced : IsSynced cls s'

-- What stands in the store after an `add` is the new object or stood there before.
Added-before :
    {R : TreeModule ℕ} {Obj : Type 0} {dec : Discrete Obj} {o : Obj} {u : ℕ} {w w' : World R Obj}
    → Added dec o u w w'
    → (k : ℕ) (x : Obj) → R.get w'.tree k ≡ some x
    → ((u ≡ k) × (o ≡ x)) ⊎ (R.get w.tree k ≡ some x)
Added-before {u = u} added k x h = elim (Bool-cases (u == k)) [
  | inl e ↦ inl (ground (arith, e), ground (arith, e, h, added.stored k))
  | inr e ↦ inr (ground (arith, e, h, added.stored k))
]

module _ {S : Site} (cls : S.Class) where
  -- the state after the object store has added an object under an id
  abbrev with_added : S.Obj → ℕ → World S.trees S.Obj → ModelState S → ModelState S
  with_added o u w s = record s {
    world = record w { p_uid = Intid.set_p_uid S.dec w.p_uid o (assigned u) };
    catalog = S.catalogs.index_doc s.catalog u (s.docs o);
  }

  Added-IsSynced :
      (o : S.Obj) (u : ℕ) (w : World S.trees S.Obj) {s : ModelState S}
      → S.class_of o ≡ cls
      → ((k : ℕ) → S.trees.get s.world.tree k ≢ some o)
      → Added S.dec o u s.world w
      → IsSynced cls s
      → IsSynced cls (with_added o u w s)
  Added-IsSynced o u w {s} is new added c =
      let before = Added-before added in
      record {
        agrees = λ a k h. ground (
          arith,
          h,
          S.catalogs.index-index_doc s.catalog u (s.docs o) a,
          S.catalogs.entry-index_doc s.catalog u (s.docs o) a k,
          added.stored k,
          c.agrees a k,
        );
        carried = λ k x h. elim (before k x h) [
          | inl (e, same) ↦ ground (arith, e, same, added.carried)
          | inr old ↦
              let other : ¬ (o ≡ x) = λ e. new k (old ∙ ap some (sym e)) in
              ground (arith, other, added.kept x other, c.carried k x old)
        ];
        typed = λ k x h. elim (before k x h) [
          | inl (e, same) ↦ ap S.class_of (sym same) ∙ is
          | inr old ↦ c.typed k x old
        ];
        counted = added.counted;
      }

  -- With a free id among the draws, adding an object of the class that is not stored yet returns a
  -- fresh id: the store and every index have the object under it, and nothing else changed.
  pub add-Inserted :
      (o : S.Obj) (draws : List ℕ) (r : ℕ) {s : ModelState S}
      → S.class_of o ≡ cls
      → elem r draws ≡ true
      → S.trees.get s.world.tree r ≡ none
      → ((k : ℕ) → S.trees.get s.world.tree k ≢ some o)
      → IsSynced cls s
      → (u : ℕ) × (s' : ModelState S) × (add S cls o draws s ≡ some (ok u, s'))
        × Inserted cls o u s s'
  unfolding add
  add-Inserted o draws r {s} is m free new c =
      let (u, w, made, added) = add_adds S.dec S.maxint o draws r s.world m free c.counted in
      let mine : of_class S cls o ≡ true = ground (arith, is) in
      (
        u,
        with_added o u w s,
        rw (mine, add, made) refl,
        record {
          fresh = ground (arith, added.fresh);
          written = λ k. ground (arith, added.stored k);
          stored = ground (arith, added.stored u);
          same_docs = refl;
          same_uids = λ x n. ground (arith, n, added.kept x n);
          synced = Added-IsSynced o u w is new added c;
        },
      )
