-- ===== src/Db.antt =====
-- db.py: `DbModel`, the objects of one class under ids with their catalog, and `query`. The
-- catalog, zerodbext's, is a parameter; so is what its indexes read of an object.
pub mod Table
pub mod Reindex
pub mod Removal
pub mod History
pub mod Lookup
pub mod Dispatch
pub mod AutoReindex
pub mod Tests
use Prim.Native.String.{String}
use zerodb.Common.{
  ℕ, zero, suc, ◌+◌, ◌≡◌, Bool, true, false, Option, none, some, List, [], ◌∷◌, ite, is_some, elem,
  ◌==◌, if◌then◌else◌, take, drop, length,
}
use zerodb.Common.Result.{
  Result, ok, err, ◌>>=◌, key_error, type_error, attribute_error, assertion_error, model_exception,
}
use zerodb.BTrees.{TreeModule}
use zerodb.Catalog.Contract.{CatalogModule}
use zerodb.Intid.{PUid, absent, cleared, assigned, World, by_uid, get_item, set_p_uid}
use zerodb.Intid

-- Objects, their contents and classes; `maxint` and the trees are the family's.
pub record Site : Type 1 where
  pub Obj : Type 0
  pub dec : Discrete Obj
  pub Attr : Type 0
  pub Doc : Type 0
  pub Query : Type 0
  pub Keyword : Type 0
  pub trees : TreeModule ℕ
  pub catalogs : CatalogModule Attr Doc Query Keyword
  pub Class : Type 0
  pub class_dec : Discrete Class
  pub class_of : Obj → Class
  pub is_instance : Obj → Class → Bool
  pub is_instance-class_of : (o : Obj) → is_instance o (class_of o) ≡ true
  pub maxint : ℕ

-- The objects of a class with their ids, and its catalog; `docs` is what the objects hold.
pub record ModelState (S : Site) : Type 0 where
  pub world : World S.trees S.Obj
  pub catalog : S.catalogs.Catalog
  pub docs : S.Obj → S.Doc

-- what `reindex_one` and `remove` are given: an id, an object, or something else
pub data Item (S : Site) : Type 0 where
  uid : ℕ → Item S
  obj : S.Obj → Item S
  alien : Item S

-- An argument of `remove`: an iterable may hold iterables.
mutual
  pub data Removable (S : Site) : Type 0 where
    one : Item S → Removable S
    many : Removables S → Removable S

  pub data Removables (S : Site) : Type 0 where
    end : Removables S
    cons : Removable S → Removables S → Removables S

module _ (S : Site) (cls : S.Class) where
  -- `obj.__class__ == self._model`
  abbrev pub of_class : S.Obj → Bool
  of_class o = ite (S.class_dec (S.class_of o) cls) true false

  -- `none` if the draws of the object store do not suffice
  unfoldable pub add : S.Obj → List ℕ → ModelState S → Option (Result ℕ × ModelState S)
  add o draws s =
      if of_class o
      then elim (Intid.add S.dec S.maxint o draws s.world) [
        | none ↦ none
        | some (u, w) ↦ some (
          ok u,
          record s {
            world = record w { p_uid = set_p_uid S.dec w.p_uid o (assigned u) };
            catalog = S.catalogs.index_doc s.catalog u (s.docs o);
          },
        )
      ]
      else some (err assertion_error, s)

  -- which id, or `None`, and which object `reindex_one` means
  abbrev pub reindexed_uid : PUid → S.Obj → Result (Option ℕ × S.Obj)
  reindexed_uid absent o = err model_exception
  reindexed_uid cleared o = ok (none, o)
  reindexed_uid (assigned u) o = ok (some u, o)

  abbrev pub reindexed : Item S → ModelState S → Result (Option ℕ × S.Obj)
  reindexed (uid u) s = do o ← get_item S.dec u s.world; ok (some u, o)
  reindexed (obj o) s =
      if S.is_instance o cls then reindexed_uid (s.world.p_uid o) o else err type_error
  reindexed alien s = err type_error

  -- the loop over `attributes`
  unfoldable pub reindex_attrs : List S.Attr → ℕ → S.Doc → S.catalogs.Catalog → S.catalogs.Catalog
  reindex_attrs [] u d c = c
  reindex_attrs (a ∷ attrs) u d c =
      reindex_attrs attrs u d
        (if S.catalogs.has_index c a then S.catalogs.reindex_index c a u d else c)

  abbrev pub reindex_catalog :
      Option (List S.Attr) → ℕ → S.Doc → S.catalogs.Catalog → S.catalogs.Catalog
  reindex_catalog none u d c = S.catalogs.reindex_doc c u d
  reindex_catalog (some attrs) u d c = reindex_attrs attrs u d c

  -- an index raises for the id `None`, before it changes anything
  abbrev pub reindex_none : Option (List S.Attr) → S.catalogs.Catalog → Result (Unit {0})
  reindex_none none c = err type_error
  reindex_none (some []) c = ok tt
  reindex_none (some (a ∷ attrs)) c =
      let rest = reindex_none (some attrs) c in
      if S.catalogs.has_index c a then err type_error else rest

  abbrev pub reindex_at :
      Result (Option ℕ × S.Obj)
      → Option (List S.Attr)
      → ModelState S
      → Result (Unit {0}) × ModelState S
  reindex_at (err e) attrs s = (err e, s)
  reindex_at (ok (none, o)) attrs s = (reindex_none attrs s.catalog, s)
  reindex_at (ok (some u, o)) attrs s =
      (ok tt, record s { catalog = reindex_catalog attrs u (s.docs o) s.catalog })

  unfoldable pub reindex_one :
      Item S → Option (List S.Attr) → ModelState S → Result (Unit {0}) × ModelState S
  unfolding reindex_attrs
  reindex_one i attrs s = reindex_at (reindexed i s) attrs s

  -- one after the other; an exception leaves what was done before
  abbrev pub and_then :
      Result (Unit {0}) × ModelState S
      → (ModelState S → Result (Unit {0}) × ModelState S)
      → Result (Unit {0}) × ModelState S
  and_then (err e, s) f = (err e, s)
  and_then (ok u, s) f = f s

  -- `reindex` of several; of one, it is `reindex_one`
  unfoldable pub reindex : List (Item S) → ModelState S → Result (Unit {0}) × ModelState S
  unfolding reindex_one
  reindex [] s = (ok tt, s)
  reindex (i ∷ items) s = and_then (reindex_one i none s) (reindex items)

  -- `remove` of an id: the document is taken out of the catalog first
  abbrev pub count_one : Result (Unit {0}) → Result ℕ
  count_one (err e) = err e
  count_one (ok u) = ok 1

  abbrev pub remove_quietly : ℕ → ModelState S → Result ℕ × ModelState S
  remove_quietly u s =
      let (r, w) = Intid.remove S.dec (by_uid u) s.world in
      (count_one r, record s { catalog = S.catalogs.unindex_doc s.catalog u; world = w })

  abbrev pub remove_uid : ℕ → ModelState S → Result ℕ × ModelState S
  remove_uid u s = elim (S.catalogs.unindex_error s.catalog u) [
    | none ↦ remove_quietly u s
    | some e ↦ (err e, record s { catalog = S.catalogs.unindex_partly s.catalog u })
  ]

  -- the id of an object; unindexing the document `None` raises
  abbrev pub remove_known : PUid → ModelState S → Result ℕ × ModelState S
  remove_known absent s = (err attribute_error, s)
  remove_known cleared s = (err type_error, s)
  remove_known (assigned u) s = remove_uid u s

  abbrev pub remove_item : Item S → ModelState S → Result ℕ × ModelState S
  remove_item (uid u) s = remove_uid u s
  remove_item (obj o) s =
      if of_class o then remove_known (s.world.p_uid o) s else (err assertion_error, s)
  remove_item alien s = (err assertion_error, s)

  -- `ctr += 1` after each
  abbrev pub count_next :
      Result ℕ × ModelState S → (ModelState S → Result ℕ × ModelState S) → Result ℕ × ModelState S
  count_next (err e, s) f = (err e, s)
  count_next (ok n, s) f = let (r, s') = f s in ((do m ← r; ok (suc m)), s')

  unfoldable mutual
    pub remove : Removable S → ModelState S → Result ℕ × ModelState S
    remove (one i) s = remove_item i s
    remove (many l) s = remove_each l s

    pub remove_each : Removables S → ModelState S → Result ℕ × ModelState S
    remove_each end s = (ok 0, s)
    remove_each (cons x l) s = count_next (remove x s) (remove_each l)
