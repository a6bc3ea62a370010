-- ===== src/Db/Tests.antt =====
-- Two classes of objects, the even and the odd numbers, in catalogs of two indexes over association
-- lists.
pub mod Runs
pub mod Assignments
use zerodb.Common.{
  ℕ, zero, suc, ◌+◌, ◌*◌, ◌/◌, ◌%◌, ◌≡◌, ◌≢◌, refl, sym, Bool, true, false, Option, none, some,
  List, [], ◌∷◌, elem, length, map, ◌==◌, ==_refl, ite, is_some, if◌then◌else◌, arith, ℕ_discrete,
}
use zerodb.Common.Result.{Result, ok, err}
use zerodb.BTrees.{TreeModule, assoc_trees}
use zerodb.BTrees.Assoc.{lookup, without, insert}
use zerodb.Intid.{PUid, absent, assigned, IdStore, World}
use zerodb.Catalog.Contract.{CatalogModule}
use zerodb.Db.{Site, ModelState, Item, uid, obj, Removable, one, many, add, remove, reindex_one}
use zerodb.Db.Table.{contents_of, table, indexed, IsSynced, Inserted}
use zerodb.Db.Reindex.{assign, is_asked}
use zerodb.Db.Removal.{reindex_removed}
use zerodb.Db.History.{
  Change, written, erased, unchanged, replay, Step, adds, removes, changes, Run, start, then_,
  Run-refines,
}
use zerodb.Db.Lookup.{Queries, Name, limit, Answer, found, query, whole_query, options, or_zero}
use zerodb.Db.Lookup.Finds.{AreStored, query_limited}
use zerodb.Db.Dispatch
use zerodb.Db.Dispatch.{Bases, DbState, Arg, single, several, focus}

abbrev pub trees : TreeModule ℕ
trees = assoc_trees ℕ_discrete

pub true_ne_false : ¬ (true ≡ false)
true_ne_false e = cc e

abbrev pub bool_dec : Discrete Bool
bool_dec true true = yes refl
bool_dec false false = yes refl
bool_dec true false = no true_ne_false
bool_dec false true = no (λ e. true_ne_false (sym e))

-- what the two indexes read of an object's number
abbrev pub value : Bool → ℕ → ℕ
value true d = d / 10
value false d = d % 10

abbrev pub keys : List (ℕ × ℕ) → List ℕ
keys [] = []
keys ((k, v) ∷ t) = k ∷ keys t

pub lookup-keys :
    (t : List (ℕ × ℕ)) (k : ℕ) → elem k (keys t) ≡ true → is_some (lookup ℕ_discrete t k) ≡ true
unfolding lookup
lookup-keys [] k h = h
lookup-keys ((j, v) ∷ t) k h = ground (arith, h, lookup-keys t k)

abbrev pub Index : Type 0
Index = Bool → List (ℕ × ℕ)

abbrev pub put_doc : Index → ℕ → ℕ → Index
put_doc c u d a = trees.put (c a) u (value a d)

abbrev pub put_one : Index → Bool → ℕ → ℕ → Index
put_one c b u d a = ite (bool_dec b a) (trees.put (c a) u (value a d)) (c a)

pub get-put_doc :
    (c : Index) (u d : ℕ) (a : Bool) (k : ℕ)
    → trees.get (put_doc c u d a) k ≡ (if u == k then some (value a d) else trees.get (c a) k)
get-put_doc c u d a k = ground (arith, trees.get-put (c a) u (value a d) k)

pub get-put_one :
    (c : Index) (b : Bool) (u d : ℕ) (a : Bool) (k : ℕ)
    → trees.get (put_one c b u d a) k ≡ (
        if u == k
        then ite (bool_dec b a) (some (value a d)) (trees.get (c a) k)
        else trees.get (c a) k)
get-put_one c b u d a k = ground (arith, trees.get-put (c a) u (value a d) k)

pub get-del_doc :
    (c : Index) (u : ℕ) (a : Bool) (k : ℕ)
    → trees.get (trees.del (c a) u) k ≡ (if u == k then none else trees.get (c a) k)
get-del_doc c u a k = ground (arith, trees.get-del (c a) u k)

pub known_doc :
    (c : Index) (n : ℕ) (uids : List ℕ) (u : ℕ)
    → ◌≡◌ {A = Result (ℕ × List ℕ)} (ok (length (keys (c true)), keys (c true))) (ok (n, uids))
    → elem u uids ≡ true
    → (a : Bool) × (true ≡ true) × (is_some (trees.get (c a) u) ≡ true)
known_doc c n uids u e h = (true, refl, lookup-keys (c true) u (ground (arith, e, h)))

abbrev pub catalogs : CatalogModule Bool ℕ (Unit {0}) (Unit {0})
catalogs = record {
  Value = ℕ;
  value = value;
  Catalog = Index;
  has_index = λ c a. true;
  entry = λ c a k. trees.get (c a) k;
  index_doc = put_doc;
  unindex_doc = λ c u a. trees.del (c a) u;
  unindex_error = λ c u. none;
  unindex_partly = λ c u. c;
  reindex_doc = put_doc;
  reindex_index = put_one;
  query = λ c q kw. ok (length (keys (c true)), keys (c true));
  attr_dec = bool_dec;
  index-index_doc = λ c u d a. refl;
  index-unindex_doc = λ c u a. refl;
  index-reindex_doc = λ c u d a. refl;
  index-reindex_index = λ c b u d a. refl;
  entry-index_doc = λ c u d a k h. get-put_doc c u d a k;
  entry-unindex_doc = λ c u a k h. get-del_doc c u a k;
  entry-reindex_doc = λ c u d a k h. get-put_doc c u d a k;
  entry-reindex_index = λ c b u d a k h. get-put_one c b u d a k;
  query_known = λ c q kw n uids u e h. known_doc c n uids u e h;
}

abbrev pub site : Site
site = record {
  Obj = ℕ;
  dec = ℕ_discrete;
  Attr = Bool;
  Doc = ℕ;
  Query = Unit {0};
  Keyword = Unit {0};
  trees = trees;
  catalogs = catalogs;
  Class = ℕ;
  class_dec = ℕ_discrete;
  class_of = λ o. o % 2;
  is_instance = λ o c. o % 2 == c;
  is_instance-class_of = λ o. ==_refl (o % 2);
  maxint = 1000;
}

abbrev pub bases : Bases site
bases = record {
  is_model = λ c. true;
  new_catalog = λ c a. [];
  entry-new_catalog = λ c a k. trees.get-empty ℕ k;
}
