-- ===== src/Util/Iter.antt =====
-- util/iter.py: `Sliceable`, a cached list-like view of an iterator that can be made again. What
-- the iterator gives is a list; the cache (cachetools' `LRUCache`) is a parameter.
pub mod Reads
pub mod Slices
use zerodb.Common.{
  ℕ, zero, suc, ◌+◌, ◌-◌, ◌*◌, ◌≤◌, ◌≡◌, ◌≢◌, Bool, true, false, not, ◌&&◌, ◌||◌, Option, none,
  some, List, [], ◌∷◌, ◌++◌, ltb, if◌then◌else◌, drop, take, length, get_elem?, is_some,
}
use zerodb.Common.Result.{Result, ok, err, stop_iteration, type_error, name_error}

-- A cache of bounded size: reading an entry may change which are dropped first, setting one may
-- drop others, and an entry that is there holds what was last set.
pub record LruCache (A : Type 0) : Type 1 where
  pub Cache : Type 0
  pub empty : Cache
  pub get? : Cache → ℕ → Option A
  pub touch : Cache → ℕ → Cache
  pub set : Cache → ℕ → A → Cache
  -- no key from here on
  pub beyond : Cache → ℕ
  pub get?-beyond : (c : Cache) (i : ℕ) → beyond c ≤ i → get? c i ≡ none
  pub get?-empty : (i : ℕ) → get? empty i ≡ none
  pub get?-touch : (c : Cache) (i j : ℕ) → get? (touch c i) j ≡ get? c j
  pub get?-set : (c : Cache) (i : ℕ) (x : A) → get? (set c i x) i ≡ some x
  pub get?-set_other :
      (c : Cache) (i j : ℕ) (x y : A) → i ≢ j → get? (set c i x) j ≡ some y → get? c j ≡ some y

-- `iterator` is what the current iterator has left, `stop` the source's account of how far it is,
-- which a slice without an end sets to `None`. `owns` says whether what `f()` returns is an
-- iterator itself; where it is not, `raw` holds after `self.iterator = self.f()`: each read of such
-- an object starts at its beginning and takes nothing from it.
pub record Sliceable (A : Type 0) (L : LruCache A) : Type 0 where
  pub owns : Bool
  pub raw : Bool
  pub cache : L.Cache
  pub stop : Option ℕ
  pub iterator : List A

-- every (step + 1)-th element, after some that are skipped
abbrev pub strided : {A : Type 0} → ℕ → ℕ → List A → List A
strided skip step [] = []
strided zero step (x ∷ xs) = x ∷ strided step step xs
strided (suc skip) step (x ∷ xs) = strided skip step xs

-- `key.stop is None or index_upd < key.stop`
abbrev pub is_before : ℕ → Option ℕ → Bool
is_before i none = true
is_before i (some stop) = ltb i stop

abbrev pub prepend : {A : Type 0} → Option A → List A → List A
prepend none xs = xs
prepend (some x) xs = x ∷ xs

-- `list(islice(it, start, stop, step + 1))`, and what the iterator has left
abbrev pub islice : {A : Type 0} → List A → ℕ → Option ℕ → ℕ → List A × List A
islice it start none step = (strided 0 step (drop start it), [])
islice it start (some stop) step = (
  strided 0 step (take (stop - start) (drop start it)),
  drop (if ltb start stop then stop else start) it,
)

-- The methods, over what `f()` iterates over.
module _ (A : Type 0) (L : LruCache A) (xs : List A) where
  unfoldable pub init : Bool → Sliceable A L
  init owns = record { owns = owns; raw = false; cache = L.empty; stop = some 0; iterator = xs }

  -- `iter(self.f())`
  abbrev pub renew : Sliceable A L → Sliceable A L
  renew s = record s { raw = false; stop = some 0; iterator = xs }

  -- what is left of the iterator, of which `islice` took the front
  abbrev left_of : Sliceable A L → List A → List A
  left_of s rest = if s.raw then s.iterator else rest

  -- `self.iterator = self.f()` and `self.stop = 0`
  abbrev pub reset : Sliceable A L → Sliceable A L
  reset s = record s { raw = not s.owns; stop = some 0; iterator = xs }

  abbrev next_of : Sliceable A L → ℕ → ℕ → Result A × Sliceable A L
  next_of s key stop = elim (get_elem? s.iterator (key - stop)) [
    | none ↦ (err stop_iteration, reset s)
    | some x ↦ (
      ok x,
      record s {
        cache = L.set s.cache key x;
        stop = some (suc key);
        iterator = left_of s (drop (suc (key - stop)) s.iterator);
      },
    )
  ]

  abbrev pub fetch : Sliceable A L → ℕ → Option ℕ → Result A × Sliceable A L
  fetch s key none = (err type_error, s)
  fetch s key (some stop) = if ltb key stop then next_of (renew s) key 0 else next_of s key stop

  -- `__getitem__` of a non-negative number
  unfoldable pub get_item : Sliceable A L → ℕ → Result A × Sliceable A L
  get_item s key = elim (L.get? s.cache key) [
    | some x ↦ (ok x, record s { cache = L.touch s.cache key })
    | none ↦ fetch s key s.stop
  ]

  abbrev item_then :
      Result A → Result (List A) × Sliceable A L → Sliceable A L → Result (List A) × Sliceable A L
  item_then (ok x) (ok rest, u) t = (ok (x ∷ rest), u)
  item_then (ok x) (err e, u) t = (err e, u)
  item_then (err stop_iteration) after t = (ok [], t)
  item_then (err e) after t = (err e, t)

  -- `list(iter(self))` from an index on, for so many steps: `StopIteration` ends it
  unfoldable pub items_from : ℕ → Sliceable A L → ℕ → Result (List A) × Sliceable A L
  unfolding get_item
  items_from zero s i = (ok [], s)
  items_from (suc fuel) s i =
      let (x, t) = get_item s i in let after = items_from fuel t (suc i) in item_then x after t

  -- how many of the indexes from one on are cached, up to the end of the slice
  unfoldable pub count_cached : ℕ → L.Cache → ℕ → Option ℕ → ℕ → ℕ
  count_cached zero cache i stop step = 0
  count_cached (suc fuel) cache i stop step =
      let more = count_cached fuel cache (i + suc step) stop step in
      if is_before i stop && is_some (L.get? cache i) then suc more else 0

  -- `[self.cache[i] for i in xrange(start, index_upd, step)]`, where each is there
  abbrev cached : ℕ → L.Cache → ℕ → ℕ → List A × L.Cache
  cached zero cache i step = ([], cache)
  cached (suc n) cache i step =
      let (rest, after) = cached n (L.touch cache i) (i + suc step) step in
      (prepend (L.get? cache i) rest, after)

  -- `for i, value in izip(indexes, result): self.cache[i] = value`
  abbrev set_all : L.Cache → ℕ → ℕ → List A → L.Cache
  set_all cache i step [] = cache
  set_all cache i step (x ∷ values) = set_all (L.set cache i x) (i + suc step) step values

  -- a fresh iterator; `self.stop = i + 1 if key.stop is None else key.stop`, where `i` may not be bound
  abbrev refreshed :
      Sliceable A L → List A × List A → ℕ → Option ℕ → ℕ → Result (List A) × Sliceable A L
  refreshed s (values, left) start (some stop) step = (
    ok values,
    record s {
      raw = false;
      cache = set_all s.cache start step values;
      stop = some stop;
      iterator = left;
    },
  )
  refreshed s ([], left) start none step =
      (err name_error, record s { raw = false; iterator = left })
  refreshed s (x ∷ values, left) start none step = (
    ok (x ∷ values),
    record s {
      raw = false;
      cache = set_all s.cache start step (x ∷ values);
      stop = some (suc (start + length values * suc step));
      iterator = left;
    },
  )

  -- the cached part and the rest from the present iterator; the indexes start over at `start`
  abbrev extended :
      Sliceable A L
      → List A × L.Cache
      → List A × List A
      → ℕ
      → Option ℕ
      → ℕ
      → Result (List A) × Sliceable A L
  extended s (result, cache) (result_upd, left) start stop step = (
    ok (result ++ result_upd),
    record s {
      cache = set_all cache start step result_upd;
      stop = stop;
      iterator = left_of s left;
    },
  )

  abbrev rest_of : List A → ℕ → ℕ → Option ℕ → ℕ → List A × List A
  rest_of it i stop none step = islice it (i - stop) none step
  rest_of it i stop (some end_) step =
      if ltb i end_ then islice it (i - stop) (some (end_ - stop)) step else ([], it)

  abbrev slice_at :
      Sliceable A L → Option ℕ → ℕ → Option ℕ → ℕ → ℕ → Result (List A) × Sliceable A L
  slice_at s none start end_ step n = (err type_error, s)
  slice_at s (some stop) start end_ step n =
      let i = start + n * suc step in
      if ltb i stop && is_before i end_
      then refreshed s (islice xs start end_ step) start end_ step
      else extended s (cached n s.cache start step) (rest_of s.iterator i stop end_ step) start end_
          step

  abbrev slice_fuel : L.Cache → Option ℕ → ℕ
  slice_fuel cache none = L.beyond cache
  slice_fuel cache (some stop) = stop

  abbrev slice_from : Sliceable A L → ℕ → Option ℕ → ℕ → Result (List A) × Sliceable A L
  slice_from s start end_ step =
      slice_at s s.stop start end_ step
        (count_cached (slice_fuel s.cache end_) s.cache start end_ step)

  -- `__getitem__` of a slice with a step of one more than the last argument
  unfoldable pub get_slice :
      Sliceable A L → Option ℕ → Option ℕ → ℕ → Result (List A) × Sliceable A L
  unfolding count_cached
  get_slice s none none step = (ok xs, s)
  get_slice s none (some stop) step = slice_from s 0 (some stop) step
  get_slice s (some start) end_ step = slice_from s start end_ step
