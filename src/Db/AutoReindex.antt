-- ===== src/Db/AutoReindex.antt =====
-- An assignment to an attribute of a model's object (models/__init__.py, `__setattr__`) notifies the
-- dispatcher of collective/indexing/subscribers.py, which queues a re-indexing; before the commit
-- the queue asks the processors, db.py's `AutoReindexQueueProcessor` over that of
-- collective/indexing/indexer.py, to carry it out.
pub mod Pending
pub mod Stored
pub mod Hook
pub mod Commit
pub mod Assign
use zerodb.Common.{
  ℕ, ◌≡◌, Bool, true, false, ◌&&◌, Option, none, some, List, [], ◌∷◌, if◌then◌else◌,
}
use zerodb.Common.Result.{Error, Result, ok, err}
use zerodb.Intid.{PUid, absent, cleared, assigned}
use zerodb.Collective.Queue.Reduce.{Keys}
use zerodb.Collective.Queue.{
  Queue, Call, begin, index, reindex, unindex, commit, abort, Log, enqueue, reindex_entry,
  before_commit, Raises,
}
use zerodb.Db.{Site}
use zerodb.Db.Dispatch.{Bases, DbState, auto_reindex}
use zerodb.Db.Dispatch.Frame.{assign_in}

-- What the queue asks of objects.
pub record Hashes (S : Site) : Type 1 where
  pub Oid : Type 0
  pub oid : S.Obj → Oid
  pub rank : S.Obj → ℕ
  pub dec_oid : Discrete Oid

abbrev pub keys : (S : Site) → Hashes S → Keys
keys S H = record {
  Obj = S.Obj;
  Oid = H.Oid;
  Attr = S.Attr;
  oid = H.oid;
  rank = H.rank;
  dec_oid = H.dec_oid;
  dec_attr = S.catalogs.attr_dec;
}

-- What `getattr(self, name, None)` gives: `None`, the class's field, or a value.
pub data Held (V : Type 0) : Type 0 where
  nothing : Held V
  indexable : Held V
  valued : V → Held V

-- `_z_indexed_fields`, and how an object's contents hold attributes.
pub record Fields (S : Site) : Type 1 where
  pub Val : Type 0
  pub is_indexed : S.Class → S.Attr → Bool
  pub read : S.Doc → S.Attr → Held Val
  pub write : S.Doc → S.Attr → Val → S.Doc

pub record App (S : Site) (H : Hashes S) : Type 0 where
  pub db : DbState S
  pub queue : Queue (keys S H)

module _ (S : Site) (B : Bases S) (H : Hashes S) where
  module _ (F : Fields S) where
    abbrev pub is_valued : Held F.Val → Bool
    is_valued nothing = false
    is_valued indexable = false
    is_valued (valued v) = true

    -- `hasattr(self, "_p_uid")`
    abbrev pub has_uid : PUid → Bool
    has_uid absent = false
    has_uid cleared = true
    has_uid (assigned u) = true

    -- the condition of `__setattr__`
    abbrev pub notifies : S.Obj → S.Attr → DbState S → Bool
    notifies o a db =
        is_valued (F.read (db.docs o) a) && F.is_indexed (S.class_of o) a && has_uid (db.p_uid o)

    -- `modified(self, name)` reaches `objectAutoReindex` where the dispatcher is a subscriber
    unfoldable pub modified : Bool → S.Obj → S.Attr → App S H → App S H
    modified can_join o a app =
        if app.db.subscribed && B.is_model (S.class_of o)
        then record app { queue = enqueue can_join (reindex_entry o (some (a ∷ []))) app.queue }
        else app

    unfoldable pub set_attr : Bool → S.Obj → S.Attr → F.Val → App S H → App S H
    unfolding modified
    set_attr can_join o a v app =
        let app1 = if notifies o a app.db then modified can_join o a app else app in
        record app1 { db = assign_in S o (F.write (app.db.docs o) a v) app1.db }

  -- what the processor does when it is called
  abbrev pub perform : Call (keys S H) → DbState S → Result (Unit {0}) × DbState S
  perform (reindex o attrs) db = auto_reindex S B o attrs db
  perform begin db = (ok tt, db)
  perform (index o attrs) db = (ok tt, db)
  perform (unindex o) db = (ok tt, db)
  perform commit db = (ok tt, db)
  perform abort db = (ok tt, db)

  abbrev then_perform :
      Result (Unit {0}) × DbState S
      → (DbState S → Result (Unit {0}) × DbState S)
      → Result (Unit {0}) × DbState S
  then_perform (err e, db) f = (err e, db)
  then_perform (ok u, db) f = f db

  unfoldable pub perform_all : Log (keys S H) → DbState S → Result (Unit {0}) × DbState S
  perform_all [] db = (ok tt, db)
  perform_all ((u, c) ∷ log) db = then_perform (perform c db) (perform_all log)

  -- which call raises, the database being `db` before them all
  abbrev error_of : Result (Unit {0}) → Option Error
  error_of (ok u) = none
  error_of (err e) = some e

  unfoldable pub raises_from : DbState S → Raises (keys S H)
  unfolding perform_all
  raises_from db log (u, c) = error_of (perform c (perform_all log db).1).0

  -- The hook before a commit, with this processor. An exception leaves what the calls until then,
  -- and that which raised, did.
  unfoldable pub flush : App S H → Result (Unit {0}) × App S H
  unfolding perform_all raises_from
  flush app =
      let (r, log, q) = before_commit (raises_from app.db) 1 app.queue in
      (r, record { db = (perform_all log app.db).1; queue = q })
