-- ===== src/Db/Dispatch.antt =====
-- db.py: `DB`, which finds the model of an object by its class: `__getitem__`, `add`, `remove` and
-- `reindex`, and the processor that re-indexes what the index queue names.
pub mod Frame
pub mod Synced
use zerodb.Common.{
  ℕ, ◌≡◌, Bool, true, false, ◌||◌, Option, none, some, List, [], ◌∷◌, ite, if◌then◌else◌, suc,
}
use zerodb.Common.Result.{Result, ok, err, ◌>>=◌, model_exception, type_error, assertion_error}
use zerodb.Intid.{IdStore, PUid, new_store}
use zerodb.Db.{Site, ModelState, Item, uid, obj, one, and_then}
use zerodb.Db

-- Which classes are models, and the catalog that is made for a class.
pub record Bases (S : Site) : Type 0 where
  pub is_model : S.Class → Bool
  pub new_catalog : S.Class → S.catalogs.Catalog
  pub entry-new_catalog :
      (cls : S.Class) (a : S.Attr) (k : ℕ) → S.catalogs.entry (new_catalog cls) a k ≡ none

-- What the root keeps of a class, the processor's flag, and whether `subscribers.init()` has put the
-- dispatcher among the subscribers to events.
pub record DbState (S : Site) : Type 0 where
  pub models : S.Class → Option (IdStore S.trees S.Obj × S.catalogs.Catalog)
  pub p_uid : S.Obj → PUid
  pub docs : S.Obj → S.Doc
  pub enabled : Bool
  pub subscribed : Bool

-- An argument of `remove` or of `reindex`.
pub data Arg (S : Site) : Type 0 where
  single : S.Obj → Arg S
  several : List S.Obj → Arg S

module _ (S : Site) (B : Bases S) where
  -- the store and the catalog of a class, new where the root has none
  abbrev pub or_new :
      S.Class
      → Option (IdStore S.trees S.Obj × S.catalogs.Catalog)
      → IdStore S.trees S.Obj × S.catalogs.Catalog
  or_new cls none = (new_store S.trees S.Obj, B.new_catalog cls)
  or_new cls (some m) = m

  abbrev pub model_of : S.Class → DbState S → IdStore S.trees S.Obj × S.catalogs.Catalog
  model_of cls db = or_new cls (db.models cls)

  abbrev pub focus : S.Class → DbState S → ModelState S
  focus cls db = record {
    world = record { store = (model_of cls db).0; p_uid = db.p_uid };
    catalog = (model_of cls db).1;
    docs = db.docs;
  }

  abbrev pub put_back : S.Class → ModelState S → DbState S → DbState S
  put_back cls s db = record db {
    models = λ c. ite (S.class_dec cls c) (some (s.world.store, s.catalog)) (db.models c);
    p_uid = s.world.p_uid;
  }

  -- `self[obj.__class__]`, and then a method of the model
  abbrev pub with_model {ℓ} :
      {A : Type ℓ}
      → S.Class
      → (ModelState S → Result A × ModelState S)
      → DbState S
      → Result A × DbState S
  with_model cls method db =
      if B.is_model cls
      then (let (r, s) = method (focus cls db) in (r, put_back cls s db))
      else (err model_exception, db)

  -- `none` if the draws of the object store do not suffice
  unfoldable pub add_one : S.Obj → List ℕ → DbState S → Option (Result ℕ × DbState S)
  add_one o draws db =
      let cls = S.class_of o in
      if B.is_model cls
      then elim (Db.add S cls o draws (focus cls db)) [
        | none ↦ none
        | some (r, s) ↦ some (r, put_back cls s db)
      ]
      else some (err model_exception, db)

  abbrev pub list_next :
      Result ℕ × DbState S
      → (DbState S → Option (Result (List ℕ) × DbState S))
      → Option (Result (List ℕ) × DbState S)
  list_next (err e, db) f = some (err e, db)
  list_next (ok u, db) f = elim (f db) [
    | none ↦ none
    | some (r, db') ↦ some ((do us ← r; ok (u ∷ us)), db')
  ]

  -- `add` of several, each with its draws
  unfoldable pub add_all : List (S.Obj × List ℕ) → DbState S → Option (Result (List ℕ) × DbState S)
  unfolding add_one
  add_all [] db = some (ok [], db)
  add_all ((o, draws) ∷ l) db = elim (add_one o draws db) [
    | none ↦ none
    | some p ↦ list_next p (add_all l)
  ]

  unfoldable pub remove_one : S.Obj → DbState S → Result ℕ × DbState S
  remove_one o db = let cls = S.class_of o in with_model cls (Db.remove S cls (one (obj o))) db

  abbrev pub count_next :
      Result ℕ × DbState S → (DbState S → Result ℕ × DbState S) → Result ℕ × DbState S
  count_next (err e, db) f = (err e, db)
  count_next (ok n, db) f = let (r, db') = f db in ((do m ← r; ok (suc m)), db')

  unfoldable pub remove_all : List S.Obj → DbState S → Result ℕ × DbState S
  unfolding remove_one
  remove_all [] db = (ok 0, db)
  remove_all (o ∷ os) db = count_next (remove_one o db) (remove_all os)

  -- `remove`; a single object that is no model raises
  unfoldable pub remove : Arg S → DbState S → Result ℕ × DbState S
  unfolding remove_all
  remove (single o) db = remove_one o db
  remove (several os) db = remove_all os db

  unfoldable pub reindex_one :
      S.Obj → Option (List S.Attr) → DbState S → Result (Unit {0}) × DbState S
  reindex_one o attrs db =
      let cls = S.class_of o in with_model cls (Db.reindex_one S cls (obj o) attrs) db

  abbrev pub then_next :
      Result (Unit {0}) × DbState S
      → (DbState S → Result (Unit {0}) × DbState S)
      → Result (Unit {0}) × DbState S
  then_next (err e, db) f = (err e, db)
  then_next (ok u, db) f = f db

  unfoldable pub reindex_all :
      List S.Obj → Option (List S.Attr) → DbState S → Result (Unit {0}) × DbState S
  unfolding reindex_one
  reindex_all [] attrs db = (ok tt, db)
  reindex_all (o ∷ os) attrs db =
      if B.is_model (S.class_of o)
      then then_next (reindex_one o attrs db) (reindex_all os attrs)
      else (err assertion_error, db)

  unfoldable pub reindex : Arg S → Option (List S.Attr) → DbState S → Result (Unit {0}) × DbState S
  unfolding reindex_all
  reindex (single o) attrs db =
      if B.is_model (S.class_of o) then reindex_one o attrs db else (err type_error, db)
  reindex (several os) attrs db = reindex_all os attrs db

  -- `AutoReindexQueueProcessor.reindex`, and `enableAutoReindex`
  unfoldable pub auto_reindex :
      S.Obj → Option (List S.Attr) → DbState S → Result (Unit {0}) × DbState S
  unfolding reindex
  auto_reindex o attrs db = if db.enabled then reindex (single o) attrs db else (ok tt, db)

  unfoldable pub enable_auto_reindex : Bool → DbState S → DbState S
  enable_auto_reindex on db = record db { enabled = on; subscribed = on || db.subscribed }
