-- ===== src/Db/Dispatch/Frame.antt =====
-- An operation of `DB` touches one class; all classes stay in agreement with their catalogs
-- (db.py).
use zerodb.Common.{
  subst, ap, ◌∙◌, ◌≡◌, ◌≢◌, none, true, false, some, ite, if_pos, if_neg, refl, arith, sym,
}
use zerodb.Intid.{IdStore, PUid}
use zerodb.Db.{Site, ModelState}
use zerodb.Db.Table.{IsSynced}
use zerodb.Db.Dispatch.{Bases, DbState, model_of, or_new, focus, put_back}

-- an attribute of an object is assigned
abbrev pub assign_in : (S : Site) → S.Obj → S.Doc → DbState S → DbState S
assign_in S o d db = record db { docs = λ x. ite (S.dec o x) d (db.docs x) }

-- Every class's catalog agrees with its objects.
abbrev pub AllSynced : (S : Site) → Bases S → DbState S → Type 0
AllSynced S B db = (cls : S.Class) → IsSynced cls (focus S B cls db)

module _ (S : Site) (B : Bases S) where
  -- an empty database
  abbrev pub new_db : (S.Obj → S.Doc) → (S.Obj → PUid) → DbState S
  new_db docs p_uid = record {
    models = λ c. none;
    p_uid = p_uid;
    docs = docs;
    enabled = true;
    subscribed = false;
  }

  pub new_db-AllSynced :
      (docs : S.Obj → S.Doc) (p_uid : S.Obj → PUid) → AllSynced S B (new_db docs p_uid)
  new_db-AllSynced docs p_uid cls = record {
    agrees = λ a k h. ground (arith, B.entry-new_catalog cls a k, S.trees.get-empty S.Obj k);
    carried = λ k o h. ground (arith, h, S.trees.get-empty S.Obj k);
    typed = λ k o h. ground (arith, h, S.trees.get-empty S.Obj k);
    counted = ground (arith, S.trees.len-empty S.Obj);
  }

  -- A method left the contents alone, and the ids of the objects of other classes.
  pub record Local (cls : S.Class) (db : DbState S) (s : ModelState S) : Type 0 where
    pub docs : s.docs ≡ db.docs
    pub p_uids : (o : S.Obj) → S.class_of o ≢ cls → s.world.p_uid o ≡ db.p_uid o

  pub model_of-here :
      (cls : S.Class) (s : ModelState S) (db : DbState S)
      → model_of S B cls (put_back S B cls s db) ≡ (s.world.store, s.catalog)
  model_of-here cls s db =
      ap (or_new S B cls)
        (if_pos (S.class_dec cls cls) refl (some (s.world.store, s.catalog)) (db.models cls))

  pub model_of-other :
      (cls d : S.Class) (s : ModelState S) (db : DbState S)
      → ¬ (cls ≡ d)
      → model_of S B d (put_back S B cls s db) ≡ model_of S B d db
  model_of-other cls d s db n =
      ap (or_new S B d)
        (if_neg (S.class_dec cls d) n (some (s.world.store, s.catalog)) (db.models d))

  pub focus-here :
      (cls : S.Class) (s : ModelState S) (db : DbState S)
      → s.docs ≡ db.docs
      → s ≡ focus S B cls (put_back S B cls s db)
  focus-here cls s db h =
      let m = sym (model_of-here cls s db) in
      λ i. record {
        world = record { store = (m i).0; p_uid = s.world.p_uid };
        catalog = (m i).1;
        docs = h i;
      }

  IsSynced-p_uid :
      (cls : S.Class) (p : S.Obj → PUid) {s : ModelState S}
      → ((o : S.Obj) → S.class_of o ≡ cls → p o ≡ s.world.p_uid o)
      → IsSynced cls s
      → IsSynced cls (record s { world = record s.world { p_uid = p } })
  IsSynced-p_uid cls p same c = record {
    agrees = c.agrees;
    carried = λ k o h. same o (c.typed k o h) ∙ c.carried k o h;
    typed = c.typed;
    counted = c.counted;
  }

  -- An operation on one class that keeps its objects and catalog in agreement keeps all classes'.
  pub put_back-AllSynced :
      (cls : S.Class) (s : ModelState S) (db : DbState S)
      → Local cls db s
      → IsSynced cls s
      → ((d : S.Class) → ¬ (cls ≡ d) → IsSynced d (focus S B d db))
      → AllSynced S B (put_back S B cls s db)
  put_back-AllSynced cls s db l c all d = elim (S.class_dec cls d) [
    | yes e ↦
        subst (λ (x : S.Class). IsSynced x (focus S B x (put_back S B cls s db))) e
          (subst (λ (t : ModelState S). IsSynced cls t) (focus-here cls s db l.docs) c)
    | no n ↦
        let m = sym (model_of-other cls d s db n) in
        let p = s.world.p_uid in
        subst
          (λ (x : IdStore S.trees S.Obj × S.catalogs.Catalog).
            IsSynced {S = S} d
              (record { world = record { store = x.0; p_uid = p }; catalog = x.1; docs = db.docs }))
          m (IsSynced-p_uid d p (λ o t. l.p_uids o (λ q. n (sym q ∙ t))) (all d n))
  ]
