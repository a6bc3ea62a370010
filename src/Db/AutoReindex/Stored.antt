-- ===== src/Db/AutoReindex/Stored.antt =====
-- Re-indexing an object of one class, where objects of all classes may be pending (db.py).
use zerodb.Common.{ap, ◌∙◌, subst, sym, ℕ, ◌≡◌, Bool, true, false, Option, some, List, arith}
use zerodb.Intid.{IdStore}
use zerodb.Db.{Site, ModelState, obj}
use zerodb.Db
use zerodb.Db.Dispatch.{Bases, DbState, focus, model_of, put_back}
use zerodb.Db.Dispatch.Frame.{focus-here, model_of-here, model_of-other}
use zerodb.Db.AutoReindex.Pending.{IsSyncedBut, less}

module _ (S : Site) (B : Bases S) where
  abbrev pub AllSyncedBut : (S.Obj → S.Attr → Bool) → DbState S → Type 0
  AllSyncedBut pending db = (cls : S.Class) → IsSyncedBut pending cls (focus S B cls db)

  -- an object that its class's store has
  abbrev pub IsHeld : DbState S → S.Obj → Type 0
  IsHeld db o =
      (B.is_model (S.class_of o) ≡ true)
      × (u : ℕ) × (S.trees.get (focus S B (S.class_of o) db).world.tree u ≡ some o)

  pub IsSyncedBut-less :
      (p q : S.Obj → S.Attr → Bool) (cls : S.Class) (s : ModelState S)
      → ((o : S.Obj) (a : S.Attr) → S.class_of o ≡ cls → q o a ≡ false → p o a ≡ false)
      → IsSyncedBut p cls s
      → IsSyncedBut q cls s
  IsSyncedBut-less p q cls s h c = record {
    absent = c.absent;
    agrees = λ a k o i e f. c.agrees a k o i e (h o a (c.typed k o e) f);
    carried = c.carried;
    typed = c.typed;
    counted = c.counted;
  }

  -- an operation on the catalog of one class leaves the other classes as they are
  focus-other :
      (cls d : S.Class) (s : ModelState S) (db : DbState S)
      → ¬ (cls ≡ d)
      → s.world ≡ (focus S B cls db).world
      → focus S B d db ≡ focus S B d (put_back S B cls s db)
  focus-other cls d s db n w =
      let m = sym (model_of-other S B cls d s db n) in
      λ i. record {
        world = record { store = (m i).0; p_uid = (sym w i).p_uid };
        catalog = (m i).1;
        docs = db.docs;
      }

  pub store-put_back :
      (cls d : S.Class) (s : ModelState S) (db : DbState S)
      → s.world ≡ (focus S B cls db).world
      → (model_of S B d (put_back S B cls s db)).0 ≡ (model_of S B d db).0
  store-put_back cls d s db w = elim (S.class_dec cls d) [
    | yes e ↦
        subst (λ (x : S.Class). (model_of S B x (put_back S B cls s db)).0 ≡ (model_of S B x db).0)
          e
          (ap (λ (m : IdStore S.trees S.Obj × S.catalogs.Catalog). m.0) (model_of-here S B cls s db)
            ∙ ap (λ (x : Db.World S.trees S.Obj). x.store) w)
    | no n ↦
        ap (λ (m : IdStore S.trees S.Obj × S.catalogs.Catalog). m.0)
          (model_of-other S B cls d s db n)
  ]

  pub put_back-But :
      (cls : S.Class) (pending : S.Obj → S.Attr → Bool) (o : S.Obj) (attrs : Option (List S.Attr))
      (s : ModelState S) (db : DbState S)
      → S.class_of o ≡ cls
      → s.world ≡ (focus S B cls db).world
      → s.docs ≡ db.docs
      → IsSyncedBut (less S cls pending o attrs) cls s
      → AllSyncedBut pending db
      → AllSyncedBut (less S cls pending o attrs) (put_back S B cls s db)
  put_back-But cls pending o attrs s db is w docs c all d = elim (S.class_dec cls d) [
    | yes e ↦
        subst
          (λ (x : S.Class).
            IsSyncedBut (less S cls pending o attrs) x (focus S B x (put_back S B cls s db)))
          e
          (subst (λ (t : ModelState S). IsSyncedBut (less S cls pending o attrs) cls t)
            (focus-here S B cls s db docs) c)
    | no n ↦
        subst (λ (t : ModelState S). IsSyncedBut (less S cls pending o attrs) d t)
          (focus-other cls d s db n w)
          (IsSyncedBut-less pending (less S cls pending o attrs) d (focus S B d db)
            (λ x a t f.
              let other : ¬ (o ≡ x) = λ q. n (sym is ∙ ap S.class_of q ∙ t) in
              ground (arith, other, f))
            (all d))
  ]
