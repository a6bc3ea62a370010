-- ===== src/Db/Tests/Runs.antt =====
-- The object 4 is added under the id 42, to one class and to a database.
use zerodb.Common.{
  ℕ, ◌*◌, ◌%◌, ◌≡◌, ◌≢◌, refl, Bool, true, none, some, List, [], ◌∷◌, elem, ite, is_some, arith,
  ℕ_discrete,
}
use zerodb.Common.Int.{pos, ◌+ℤ◌}
use zerodb.Common.Result.{ok}
use zerodb.BTrees.Assoc.{lookup}
use zerodb.Intid.{PUid, absent, assigned, IdStore, World}
use zerodb.Intid
use zerodb.Db.{ModelState, obj, one, add, remove, reindex_one}
use zerodb.Db.Table.{table, indexed, IsSynced, Inserted}
use zerodb.Db.Removal.{reindex_removed}
use zerodb.Db.History.{written, erased, replay, Step, adds, removes, start, then_, Run-refines}
use zerodb.Db.Lookup.{Queries, found, query, options}
use zerodb.Db.Lookup.Finds.{AreStored, query_limited}
use zerodb.Db.Dispatch
use zerodb.Db.Dispatch.{Bases, DbState, Arg, single, several, focus, put_back}
use zerodb.Db.Dispatch.Frame.{AllSynced, new_db, new_db-AllSynced, put_back-AllSynced}
use zerodb.Db.Dispatch.Synced.{add_one-AllSynced, remove-AllSynced}
use zerodb.Db.Tests.{site, bases, trees, value}

abbrev pub empty_db : DbState site
empty_db = new_db site bases (λ o. o * 10) (λ o. absent)

abbrev empty_model : ModelState site
empty_model = focus site bases 0 empty_db

empty_model-IsSynced : IsSynced 0 empty_model
empty_model-IsSynced = new_db-AllSynced site bases (λ o. o * 10) (λ o. absent) 0

-- the model after 4 was added
abbrev pub with_four : ModelState site
with_four = record {
  world = record {
    store = record { tree = (42, 4) ∷ []; length = some (pos 1); v_nextid = some 43 };
    p_uid = (λ o. ite (ℕ_discrete 4 o) (assigned 42) (ite (ℕ_discrete 4 o) (assigned 42) absent));
  };
  catalog = λ a. (42, value a 40) ∷ [];
  docs = λ o. o * 10;
}

none_stored : (k : ℕ) → trees.get empty_model.world.tree k ≢ some 4
unfolding lookup
none_stored k h = cc h

four_added : Step site 0 empty_model (written 42 40) with_four
unfolding add Intid.add Intid.add_loop Intid.generate_id Intid.generate_random lookup ℕ_discrete
    ◌+ℤ◌
four_added = adds 4 (42 ∷ []) 42 42 refl refl refl none_stored refl

with_four-IsSynced : IsSynced 0 with_four
with_four-IsSynced = (Run-refines empty_model-IsSynced (then_ four_added start)).0

four_at : trees.get with_four.world.tree 42 ≡ some 4
unfolding lookup ℕ_discrete
four_at = refl

abbrev without_four : ModelState site
without_four = (remove site 0 (one (obj 4)) with_four).1

Run-refines_example :
    IsSynced 0 without_four
    × ((k : ℕ)
        → table without_four k ≡ replay (written 42 40 ∷ erased 42 ∷ []) (table empty_model) k)
    × ((a : Bool) (k : ℕ)
        → true ≡ true
        → trees.get (without_four.catalog a) k
          ≡ indexed site a (replay (written 42 40 ∷ erased 42 ∷ []) (table empty_model) k))
Run-refines_example =
    Run-refines empty_model-IsSynced (then_ four_added (then_ (removes 4 42 four_at refl) start))

four_listed : (u : ℕ) → elem u (42 ∷ []) ≡ true → is_some (table with_four u) ≡ true
unfolding lookup
four_listed u h = ground (arith, h)

reindex_removed_example :
    ((reindex_one site 0 (obj 4) none without_four).0 ≡ ok tt)
    × (table (reindex_one site 0 (obj 4) none without_four).1 42 ≡ none)
    × (trees.get ((reindex_one site 0 (obj 4) none without_four).1.catalog true) 42 ≡ some 4)
reindex_removed_example = reindex_removed 0 4 42 true with_four-IsSynced four_at refl refl

abbrev queries : Queries site
queries = record {
  Arg = ℕ;
  eq = λ f x. tt;
  all_of = λ qs. tt;
  conj = λ p q. tt;
  optimize = λ q. q;
  keyword = λ n x. tt;
  limit_of = λ n. tt;
}

query_limited_example :
    (os : List ℕ) × (query site queries none (some 0) (some 5) [] with_four
      ≡ (ok (found os), with_four))
    × AreStored with_four (42 ∷ []) os
unfolding options
query_limited_example = query_limited queries none (some 0) 4 [] 1 (42 ∷ []) with_four-IsSynced refl

not_four : (o : ℕ) → o % 2 ≢ 0 → with_four.world.p_uid o ≡ absent
not_four o n = ground (arith, n)

abbrev pub db_with_four : DbState site
db_with_four = put_back site bases 0 with_four empty_db

pub db_with_four-AllSynced : AllSynced site bases db_with_four
db_with_four-AllSynced =
    put_back-AllSynced site bases 0 with_four empty_db
      (record { docs = refl; p_uids = λ o n. not_four o n }) with_four-IsSynced
      (λ d n. new_db-AllSynced site bases (λ o. o * 10) (λ o. absent) d)

add_one-AllSynced_example :
    (u : ℕ) × (db' : DbState site) × (Dispatch.add_one site bases 4 (42 ∷ []) empty_db
      ≡ some (ok u, db'))
    × AllSynced site bases db'
    × Inserted 0 4 u empty_model (focus site bases 0 db')
unfolding lookup
add_one-AllSynced_example =
    add_one-AllSynced site bases 4 (42 ∷ []) 42 empty_db refl refl refl none_stored
      (new_db-AllSynced site bases (λ o. o * 10) (λ o. absent))

remove-AllSynced_example :
    AllSynced site bases (Dispatch.remove site bases (several (4 ∷ 5 ∷ [])) db_with_four).1
remove-AllSynced_example =
    remove-AllSynced site bases (several (4 ∷ 5 ∷ [])) db_with_four (λ c u. refl)
      db_with_four-AllSynced
