-- ===== src/Util/Tests.antt =====
-- A view of a list, with a cache that holds one entry.
use zerodb.Util.ThreadWatcher.{new_watcher, unwatch, Event, watches, unwatches, ends, handle_all}
use zerodb.Util.ThreadWatcher.Due.{happen_all, handle_all-refines}
use zerodb.Common.{
  ℕ, suc, ◌≤◌, ◌≡◌, refl, true, arith, Option, none, some, List, [], ◌∷◌, ◌==◌, if◌then◌else◌,
  get_elem?,
}
use zerodb.Common.Result.{ok}
use zerodb.Util.Iter.{LruCache, init, get_item, get_slice}
use zerodb.Util.Iter.Reads.{IsServed, item_of, init-IsServed, get_item-IsServed}
use zerodb.Util.Iter.Slices.{get_item_misplaced}

abbrev get_one : Option (ℕ × ℕ) → ℕ → Option ℕ
get_one none i = none
get_one (some (k, x)) i = if k == i then some x else none

abbrev beyond_one : Option (ℕ × ℕ) → ℕ
beyond_one none = 0
beyond_one (some (k, x)) = suc k

get_one-beyond : (c : Option (ℕ × ℕ)) (i : ℕ) → beyond_one c ≤ i → get_one c i ≡ none
get_one-beyond none i h = refl
get_one-beyond (some (k, x)) i h = ground arith

abbrev one_entry : LruCache ℕ
one_entry = record {
  Cache = Option (ℕ × ℕ);
  empty = none;
  get? = get_one;
  touch = λ c i. c;
  set = λ c i x. some (i, x);
  beyond = beyond_one;
  get?-beyond = get_one-beyond;
  get?-empty = λ i. refl;
  get?-touch = λ c i j. refl;
  get?-set = λ c i x. ground arith;
  get?-set_other = λ c i j x y ne h. absurd (ground (arith, ne, h));
}

abbrev numbers : List ℕ
numbers = 7 ∷ 8 ∷ 9 ∷ []

get_item-IsServed_example :
    ((get_item ℕ one_entry numbers (init ℕ one_entry numbers true) 1).0
      ≡ item_of (get_elem? numbers 1))
    × IsServed ℕ one_entry numbers
        ((get_item ℕ one_entry numbers (init ℕ one_entry numbers true) 1).1)
get_item-IsServed_example =
    get_item-IsServed ℕ one_entry numbers (init ℕ one_entry numbers true) 1
      (init-IsServed ℕ one_entry numbers)

get_item_misplaced_example :
    (let s = (get_item ℕ one_entry numbers (init ℕ one_entry numbers true) 0).1 in
      let after = get_slice ℕ one_entry numbers s (some 0) (some 2) 0 in
      (after.0 ≡ ok (7 ∷ 8 ∷ [])) × ((get_item ℕ one_entry numbers (after.1) 0).0 ≡ ok 8))
get_item_misplaced_example = get_item_misplaced ℕ one_entry true 7 8 (9 ∷ [])

-- Thread 1 is watched and ends, thread 2 takes its callback back.
abbrev events : List Event
events = watches 1 10 ∷ watches 2 20 ∷ watches 1 30 ∷ unwatches 2 ∷ ends 1 ∷ ends 2 ∷ []

handle_all-refines_example :
    ((handle_all events new_watcher).called
      ≡ (happen_all events (record { due = λ u. none; called = [] })).called)
    × ((unwatch 1 (handle_all events new_watcher)).0 ≡ ok tt)
handle_all-refines_example = handle_all-refines events 1
