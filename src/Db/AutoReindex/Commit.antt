-- ===== src/Db/AutoReindex/Commit.antt =====
-- The re-indexings that are queued when a transaction commits bring every index up to date (db.py
-- with collective/indexing).
use zerodb.Common.{
  ap, ◌∙◌, ◌≡◌, refl, Bool, true, false, Option, none, some, List, [], ◌∷◌, arith, Bool-cases, inl,
  inr,
}
use zerodb.Common.Result.{Result, ok}
use zerodb.Intid.{IdStore}
use zerodb.Collective.Queue.Reduce.{Keys, Entry, reindex_op, optimized, has_attr}
use zerodb.Collective.Queue.Reduce.Attributes.{covers}
use zerodb.Collective.Queue.Reduce.Asked.{asks, AllReindex, optimized-asks}
use zerodb.Collective.Queue.{Call, reindex, contents, call_all, before_commit}
use zerodb.Collective.Queue.Process.{call_of, calls_of}
use zerodb.Db.{Site}
use zerodb.Db.Reindex.{is_asked, named}
use zerodb.Db.Dispatch.{Bases, DbState, focus, model_of, put_back, auto_reindex}
use zerodb.Db.Dispatch.Frame.{AllSynced}
use zerodb.Db.AutoReindex.{
  Hashes, keys, App, perform, then_perform, perform_all, raises_from, flush,
}
use zerodb.Db.AutoReindex.Pending.{IsSyncedBut-none, less, reindex_pending}
use zerodb.Db.AutoReindex.Stored.{
  AllSyncedBut, IsHeld, IsSyncedBut-less, store-put_back, put_back-But,
}
use zerodb.Db.AutoReindex.Hook.{hook-ok}

module _ (S : Site) (B : Bases S) (H : Hashes S) where
  abbrev K : Keys
  K = keys S H

  -- What re-indexing an object did: it returned, and left the stores as they were.
  abbrev Carried : (S.Obj → S.Attr → Bool) → DbState S → Result (Unit {0}) × DbState S → Type 0
  Carried pending db out =
      (db' : DbState S) × (out ≡ (ok tt, db'))
      × (db'.enabled ≡ true)
      × (db'.docs ≡ db.docs)
      × ((cls : S.Class) → (model_of S B cls db').0 ≡ (model_of S B cls db).0)
      × AllSyncedBut S B pending db'

  auto_reindex-Carried :
      (pending : S.Obj → S.Attr → Bool) (o : S.Obj) (attrs : Option (List S.Attr)) (db : DbState S)
      → db.enabled ≡ true
      → IsHeld S B db o
      → AllSyncedBut S B pending db
      → Carried (less S (S.class_of o) pending o attrs) db (auto_reindex S B o attrs db)
  unfolding auto_reindex
  auto_reindex-Carried pending o attrs db on (is, u, at) all =
      let cls = S.class_of o in
      let (s', ran, world, docs, c) =
        reindex_pending cls pending o u attrs {s = focus S B cls db} (all cls) at in
      (
        put_back S B cls s' db,
        rw (on, is, ran) refl,
        on,
        refl,
        (λ d. store-put_back S B cls d s' db world),
        put_back-But S B cls pending o attrs s' db refl world docs c all,
      )

  -- what is still pending after these entries were carried out
  abbrev left : (S.Obj → S.Attr → Bool) → List (Entry K) → S.Obj → S.Attr → Bool
  left pending [] = pending
  left pending (e ∷ l) = left (less S (S.class_of e.obj) pending e.obj e.attr) l

  IsHeld-same :
      (db db' : DbState S) (o : S.Obj)
      → ((cls : S.Class) → (model_of S B cls db').0 ≡ (model_of S B cls db).0)
      → IsHeld S B db o
      → IsHeld S B db' o
  IsHeld-same db db' o same (is, u, at) =
      (is, u, ap (λ (st : IdStore S.trees S.Obj). S.trees.get st.tree u) (same (S.class_of o)) ∙ at)

  AllReindex-same :
      (db db' : DbState S) (l : List (Entry K))
      → ((cls : S.Class) → (model_of S B cls db').0 ≡ (model_of S B cls db).0)
      → AllReindex K (λ o. IsHeld S B db o) l
      → AllReindex K (λ o. IsHeld S B db' o) l
  AllReindex-same db db' [] same h = tt
  AllReindex-same db db' (e ∷ l) same ((r, held), h) =
      ((r, IsHeld-same db db' e.obj same held), AllReindex-same db db' l same h)

  call_of-reindex : (e : Entry K) → e.op ≡ reindex_op → call_of e ≡ reindex e.obj e.attr
  call_of-reindex e r = ground (arith, r)

  -- The calls for entries that re-index stored objects return, and what they asked for is no
  -- longer pending.
  calls-Carried :
      (pending : S.Obj → S.Attr → Bool) (l : List (Entry K)) (db : DbState S)
      → db.enabled ≡ true
      → AllReindex K (λ o. IsHeld S B db o) l
      → AllSyncedBut S B pending db
      → Carried (left pending l) db (perform_all S B H (calls_of 1 l) db)
  unfolding perform_all call_all
  calls-Carried pending [] db on h all = (db, refl, on, refl, (λ d. refl), all)
  calls-Carried pending (e ∷ l) db on ((r, held), h) all =
      let (db1, ran, on1, docs1, same, all1) =
        auto_reindex-Carried pending e.obj e.attr db on held all in
      let (db2, ran2, on2, docs2, same2, all2) =
        calls-Carried (less S (S.class_of e.obj) pending e.obj e.attr) l db1 on1
          (AllReindex-same db db1 l same h) all1 in
      (
        db2,
        ap
              (λ (c : Call K).
                then_perform S B H (perform S B H c db) (perform_all S B H (calls_of 1 l)))
              (call_of-reindex e r)
            ∙ ap (λ p. then_perform S B H p (perform_all S B H (calls_of 1 l))) ran
            ∙ ran2,
        on2,
        docs2 ∙ docs1,
        (λ d. same2 d ∙ same d),
        all2,
      )

  left-settled :
      (l : List (Entry K)) (pending : S.Obj → S.Attr → Bool) (o : S.Obj) (a : S.Attr)
      → pending o a ≡ false
      → left pending l o a ≡ false
  left-settled [] pending o a h = h
  left-settled (e ∷ l) pending o a h =
      left-settled l (less S (S.class_of e.obj) pending e.obj e.attr) o a (ground (arith, h))

  named-has_attr :
      (cls : S.Class) (attrs : List S.Attr) (a : S.Attr) → named S cls attrs a ≡ has_attr K a attrs
  named-has_attr cls [] a = refl
  named-has_attr cls (b ∷ attrs) a = ground (arith, named-has_attr cls attrs a)

  is_asked-covers :
      (cls : S.Class) (attrs : Option (List S.Attr)) (a : S.Attr)
      → is_asked S cls attrs a ≡ covers K attrs a
  is_asked-covers cls none a = refl
  is_asked-covers cls (some attrs) a = named-has_attr cls attrs a

  -- What the entries ask for is not left, where the queue's ids tell objects apart.
  left-asked :
      (l : List (Entry K)) (pending : S.Obj → S.Attr → Bool) (o : S.Obj) (a : S.Attr)
      → ((x y : S.Obj) → H.oid x ≡ H.oid y → x ≡ y)
      → asks K l (H.oid o) a ≡ true
      → left pending l o a ≡ false
  left-asked [] pending o a inj h = absurd (cc)
  left-asked (e ∷ l) pending o a inj h = elim (Bool-cases (asks K l (H.oid o) a)) [
    | inl t ↦ left-asked l (less S (S.class_of e.obj) pending e.obj e.attr) o a inj t
    | inr f ↦ elim (H.dec_oid (H.oid e.obj) (H.oid o)) [
      | yes y ↦
          let same = inj e.obj o y in
          left-settled l (less S (S.class_of e.obj) pending e.obj e.attr) o a
            (ground (arith, h, f, y, same, is_asked-covers (S.class_of e.obj) e.attr a))
      | no n ↦ absurd (ground (arith, h, f, n))
    ]
  ]

  AllSyncedBut-none :
      (pending : S.Obj → S.Attr → Bool) (db : DbState S)
      → ((o : S.Obj) (a : S.Attr) → pending o a ≡ false)
      → AllSyncedBut S B pending db
      → AllSynced S B db
  AllSyncedBut-none pending db h all cls = IsSyncedBut-none cls (
      IsSyncedBut-less S B pending (λ o a. false) cls (focus S B cls db) (λ o a t f. h o a)
        (all cls))

  -- Where every change that is still missing in an index is asked for by a queued re-indexing of a
  -- stored object, automatic re-indexing is enabled, and the queue's ids tell objects apart, the
  -- hook before the commit returns: every index of every class agrees with the objects, which are
  -- as before, and the queue is empty.
  pub flush-AllSynced :
      (pending : S.Obj → S.Attr → Bool) (app : App S H)
      → app.db.enabled ≡ true
      → ((x y : S.Obj) → H.oid x ≡ H.oid y → x ≡ y)
      → AllSyncedBut S B pending app.db
      → AllReindex K (λ o. IsHeld S B app.db o) (contents app.queue)
      → ((o : S.Obj) (a : S.Attr)
          → pending o a ≡ true
          → asks K (contents app.queue) (H.oid o) a ≡ true)
      → (app' : App S H) × (flush S B H app ≡ (ok tt, app'))
        × AllSynced S B app'.db
        × (app'.db.docs ≡ app.db.docs)
        × ((cls : S.Class) → (model_of S B cls app'.db).0 ≡ (model_of S B cls app.db).0)
        × (contents app'.queue ≡ [])
  unfolding flush
  flush-AllSynced pending app on inj all queued asked =
      let l = optimized K (contents app.queue) in
      let (kept, asking) =
        optimized-asks K (λ o. IsHeld S B app.db o) (contents app.queue) queued in
      let (db', ran, on', docs, same, all') = calls-Carried pending l app.db on kept all in
      let settled : (o : S.Obj) (a : S.Attr) → left pending l o a ≡ false = λ o a.
        elim (Bool-cases (pending o a)) [
          | inl t ↦ left-asked l pending o a inj (asking (H.oid o) a (asked o a t))
          | inr f ↦ left-settled l pending o a f
        ] in
      let raises = raises_from S B H app.db in
      let (returned, emptied, log) = hook-ok S B H app.queue app.db db' ran in
      (
        record { db = db'; queue = (before_commit raises 1 app.queue).2 },
        rw (returned, log) refl,
        AllSyncedBut-none (left pending l) db' settled all',
        docs,
        same,
        emptied,
      )
