-- ===== src/Db/Dispatch/Synced.antt =====
-- The operations of `DB` keep all classes in agreement with their catalogs (db.py).
use zerodb.Common.{
  subst, ap, ◌∙◌, ℕ, ◌≡◌, ◌≢◌, true, false, Option, none, some, List, [], ◌∷◌, elem, refl, arith,
  Option-cases, Bool-cases, inl, inr, sym,
}
use zerodb.Common.Result.{Result, ok, err}
use zerodb.Intid.{IdStore, PUid, assigned, new_store}
use zerodb.Db.{Site, ModelState, Item, uid, obj, one}
use zerodb.Db
use zerodb.Intid
use zerodb.Db.Table.{IsSynced, Inserted, add-Inserted}
use zerodb.Db.Reindex.{is_asked, reindex_one-IsSynced}
use zerodb.Db.Removal.{remove-IsSynced}
use zerodb.Db.Dispatch.{
  Bases, DbState, Arg, single, several, focus, put_back, add_one, remove_one, remove_all,
  count_next, remove, reindex_one,
}
use zerodb.Catalog.Contract.{IsQuiet}
use zerodb.Db.Dispatch.Frame.{AllSynced, Local, put_back-AllSynced, focus-here, assign_in}

module _ (S : Site) (B : Bases S) where
  remove-Local :
      (cls : S.Class) (o : S.Obj) (db : DbState S)
      → Local S B cls db (Db.remove S cls (one (obj o)) (focus S B cls db)).1
  unfolding Db.remove Intid.remove
  remove-Local cls o db = record { docs = ground arith; p_uids = λ x n. ground arith }

  -- Removing an object, whatever the outcome, keeps all classes in agreement.
  remove_one-AllSynced :
      (o : S.Obj) (db : DbState S)
      → IsQuiet S.catalogs
      → AllSynced S B db
      → AllSynced S B (remove_one S B o db).1
  unfolding remove_one
  remove_one-AllSynced o db q all = elim (Bool-cases (B.is_model (S.class_of o))) [
    | inl t ↦ rw t (
        put_back-AllSynced S B (S.class_of o)
          (Db.remove S (S.class_of o) (one (obj o)) (focus S B (S.class_of o) db)).1 db
          (remove-Local (S.class_of o) o db)
          (remove-IsSynced (S.class_of o) (one (obj o)) q (all (S.class_of o))) (λ d n. all d))
    | inr f ↦ rw f all
  ]

  count_next-AllSynced :
      (p : Result ℕ × DbState S) (f : DbState S → Result ℕ × DbState S)
      → AllSynced S B p.1
      → ((d : DbState S) → AllSynced S B d → AllSynced S B (f d).1)
      → AllSynced S B (count_next S B p f).1
  count_next-AllSynced (ok n, d) f h k = k d h
  count_next-AllSynced (err e, d) f h k = h

  remove_all-AllSynced :
      (os : List S.Obj) (db : DbState S)
      → IsQuiet S.catalogs
      → AllSynced S B db
      → AllSynced S B (remove_all S B os db).1
  unfolding remove_all
  remove_all-AllSynced [] db q all = all
  remove_all-AllSynced (o ∷ os) db q all =
      count_next-AllSynced (remove_one S B o db) (remove_all S B os)
        (remove_one-AllSynced o db q all) (λ d h. remove_all-AllSynced os d q h)

  -- `DB.remove`, of one object or of several, of whatever classes, keeps every class's catalog and
  -- objects in agreement, over a catalog whose un-indexing raises for no document: also where the
  -- removal raises on the way, for an object that is of no model or not in the store.
  pub remove-AllSynced :
      (x : Arg S) (db : DbState S)
      → IsQuiet S.catalogs
      → AllSynced S B db
      → AllSynced S B (remove S B x db).1
  unfolding remove
  remove-AllSynced (single o) db q all = remove_one-AllSynced o db q all
  remove-AllSynced (several os) db q all = remove_all-AllSynced os db q all

  -- With a free id among the draws, adding an object of a model that is not stored yet returns a
  -- fresh id of its class, and every class's catalog and objects still agree.
  pub add_one-AllSynced :
      (o : S.Obj) (draws : List ℕ) (r : ℕ) (db : DbState S)
      → B.is_model (S.class_of o) ≡ true
      → elem r draws ≡ true
      → S.trees.get (focus S B (S.class_of o) db).world.tree r ≡ none
      → ((k : ℕ) → S.trees.get (focus S B (S.class_of o) db).world.tree k ≢ some o)
      → AllSynced S B db
      → (u : ℕ) × (db' : DbState S) × (add_one S B o draws db ≡ some (ok u, db'))
        × AllSynced S B db'
        × Inserted (S.class_of o) o u (focus S B (S.class_of o) db) (focus S B (S.class_of o) db')
  unfolding add_one
  add_one-AllSynced o draws r db is m free new all =
      let cls = S.class_of o in
      let (u, s', ran, ins) =
        add-Inserted cls o draws r {s = focus S B cls db} refl m free new (all cls) in
      let local : Local S B cls db s' = record {
        docs = ins.same_docs;
        p_uids = λ x n. ins.same_uids x (λ e. n (ap S.class_of (sym e)));
      } in
      (
        u,
        put_back S B cls s' db,
        rw (is, ran) refl,
        put_back-AllSynced S B cls s' db local ins.synced (λ d n. all d),
        subst (λ (t : ModelState S). Inserted cls o u (focus S B cls db) t)
            (focus-here S B cls s' db local.docs) ins,
      )

  reindex_at_keeps :
      (cls : S.Class) (r : Result (Option ℕ × S.Obj)) (attrs : Option (List S.Attr))
      (s : ModelState S)
      → ((Db.reindex_at S cls r attrs s).1.docs ≡ s.docs)
        × ((x : S.Obj) → (Db.reindex_at S cls r attrs s).1.world.p_uid x ≡ s.world.p_uid x)
  reindex_at_keeps cls (err e) attrs s = (refl, λ x. refl)
  reindex_at_keeps cls (ok (none, o)) attrs s = (refl, λ x. refl)
  reindex_at_keeps cls (ok (some u, o)) attrs s = (refl, λ x. refl)

  reindex_one_keeps :
      (cls : S.Class) (i : Item S) (attrs : Option (List S.Attr)) (s : ModelState S)
      → ((Db.reindex_one S cls i attrs s).1.docs ≡ s.docs)
        × ((x : S.Obj) → (Db.reindex_one S cls i attrs s).1.world.p_uid x ≡ s.world.p_uid x)
  unfolding Db.reindex_one
  reindex_one_keeps cls i attrs s = reindex_at_keeps cls (Db.reindexed S cls i s) attrs s

  -- A change of an object leaves the other classes in agreement.
  assign_in-IsSynced :
      (cls : S.Class) (o : S.Obj) (d : S.Doc) (db : DbState S)
      → ¬ (S.class_of o ≡ cls)
      → IsSynced cls (focus S B cls db)
      → IsSynced cls (focus S B cls (assign_in S o d db))
  assign_in-IsSynced cls o d db n c = record {
    agrees = λ a k h. elim (Option-cases (S.trees.get (focus S B cls db).world.tree k)) [
      | inl e ↦ ground (arith, e, h, c.agrees a k)
      | inr (x, e) ↦
          let other : ¬ (o ≡ x) = λ q. n (ap S.class_of q ∙ c.typed k x e) in
          ground (arith, e, h, other, c.agrees a k)
    ];
    carried = c.carried;
    typed = c.typed;
    counted = c.counted;
  }

  -- Re-indexing an object that is stored, after a change of what the indexes named in `attributes`
  -- read of it, returns, and every class's catalog and objects agree again.
  reindex_one-AllSynced :
      (o : S.Obj) (u : ℕ) (d : S.Doc) (attrs : Option (List S.Attr)) (db : DbState S)
      → B.is_model (S.class_of o) ≡ true
      → S.trees.get (focus S B (S.class_of o) db).world.tree u ≡ some o
      → ((a : S.Attr)
          → is_asked S (S.class_of o) attrs a ≡ false
          → S.catalogs.value a d ≡ S.catalogs.value a (db.docs o))
      → AllSynced S B db
      → (db' : DbState S) × (reindex_one S B o attrs (assign_in S o d db) ≡ (ok tt, db'))
        × AllSynced S B db'
  unfolding reindex_one
  reindex_one-AllSynced o u d attrs db is at same all =
      let cls = S.class_of o in
      let s = focus S B cls (assign_in S o d db) in
      let (s', ran, synced, after) = reindex_one-IsSynced cls o u d attrs (all cls) at same in
      let kept = ap (λ (p : Result (Unit {0}) × ModelState S). p.1) ran in
      let local : Local S B cls (assign_in S o d db) s' = record {
        docs =
            ap (λ (t : ModelState S). t.docs) (sym kept)
            ∙ (reindex_one_keeps cls (obj o) attrs s).0;
        p_uids = λ x n.
            ap (λ (t : ModelState S). t.world.p_uid x) (sym kept)
            ∙ (reindex_one_keeps cls (obj o) attrs s).1 x;
      } in
      (
        put_back S B cls s' (assign_in S o d db),
        rw (is, ran) refl,
        put_back-AllSynced S B cls s' (assign_in S o d db) local synced
            (λ c n. assign_in-IsSynced c o d db (λ e. n e) (all c)),
      )
