-- ===== src/Db/AutoReindex/Assign.antt =====
-- Assignments to attributes of stored objects, and the commit that follows them (models/__init__.py,
-- `__setattr__`, with collective/indexing and db.py).
use zerodb.Common.{◌≡◌, Bool, true, false, ◌&&◌, ◌||◌, ite}
use zerodb.Collective.Queue.Reduce.Asked.{asks, AllReindex}
use zerodb.Collective.Queue.{Queue, contents}
use zerodb.Db.{Site}
use zerodb.Db.Dispatch.{Bases}
use zerodb.Db.AutoReindex.{Hashes, Fields, keys, App, notifies, set_attr}
use zerodb.Db.AutoReindex.Stored.{AllSyncedBut, IsHeld}

module _ (S : Site) (B : Bases S) (H : Hashes S) where
  -- Automatic re-indexing is on, and what is missing in an index is asked for by the queue.
  pub record IsOwed (pending : S.Obj → S.Attr → Bool) (app : App S H) : Type 0 where
    pub enabled : app.db.enabled ≡ true
    pub subscribed : app.db.subscribed ≡ true
    pub synced : AllSyncedBut S B pending app.db
    pub queued : AllReindex (keys S H) (λ o. IsHeld S B app.db o) (contents app.queue)
    pub asked :
        (o : S.Obj) (a : S.Attr)
        → pending o a ≡ true
        → asks (keys S H) (contents app.queue) (H.oid o) a ≡ true

  abbrev pub more : (S.Obj → S.Attr → Bool) → S.Obj → S.Attr → S.Obj → S.Attr → Bool
  more pending o a x b =
      pending x b || (ite (S.dec o x) true false && ite (S.catalogs.attr_dec a b) true false)

  -- An assignment to an attribute of a stored object that notifies: the attribute is an indexed
  -- field with a value, and no other index reads it.
  pub record Notified (F : Fields S) (o : S.Obj) (a : S.Attr) (v : F.Val) (app : App S H)
      : Type 0 where
    pub notified : notifies S B H F o a app.db ≡ true
    pub held : IsHeld S B app.db o
    pub local :
        (b : S.Attr)
        → ¬ (a ≡ b)
        → S.catalogs.value b (F.write (app.db.docs o) a v) ≡ S.catalogs.value b (app.db.docs o)

  -- Assignments that follow one another in a transaction.
  pub data Assigns (F : Fields S) : App S H → App S H → Type 0 where
    nothing_assigned : {app : App S H} → Assigns F app app
    assigns :
        (can_join : Bool) (o : S.Obj) (a : S.Attr) (v : F.Val) {app app' : App S H}
        → Notified F o a v app
        → Assigns F (set_attr S B H F can_join o a v app) app'
        → Assigns F app app'
