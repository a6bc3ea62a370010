-- ===== src/Util/ThreadWatcher.antt =====
-- util/thread_watcher.py: `ThreadWatcher`, which calls a function when a thread that it watches has
-- ended. A thread's `vigil` is freed with the thread's local storage; its weak reference then calls
-- `_on_death`. Vigils are numbered as they are made, and a dictionary is a function.
pub mod Due
use zerodb.Common.{
  ℕ, suc, ◌+◌, ◌≡◌, ◌<◌, ◌≢◌, refl, Bool, true, false, Option, none, some, List, [], ◌∷◌,
  if◌then◌else◌, ◌==◌, ltb, is_some, arith, Option-cases, inl, inr, ap, sym, ◌∙◌, some-inj,
}
use zerodb.Common.Result.{Result, ok, err, key_error}

-- `refs` is `_refs` with the callbacks; `called` has the callbacks that ran, the last one first.
pub record Watcher : Type 0 where
  pub vigil : ℕ → Option ℕ
  pub refs : ℕ → Option ℕ
  pub next : ℕ
  pub called : List ℕ

abbrev pub updated : (ℕ → Option ℕ) → ℕ → Option ℕ → ℕ → Option ℕ
updated f k x j = if k == j then x else f j

abbrev pub new_watcher : Watcher
new_watcher = record { vigil = λ t. none; refs = λ v. none; next = 0; called = [] }

abbrev known : (ℕ → Option ℕ) → Option ℕ → Bool
known refs none = false
known refs (some v) = is_some (refs v)

unfoldable pub is_watching : ℕ → Watcher → Bool
is_watching t w = known w.refs (w.vigil t)

-- in thread `t`
unfoldable pub watch : ℕ → ℕ → Watcher → Watcher
unfolding is_watching
watch t callback w = if is_watching t w then w else record w {
  vigil = updated w.vigil t (some w.next);
  refs = updated w.refs w.next (some callback);
  next = w.next + 1;
}

abbrev pop : ℕ → Option ℕ → Watcher → Result (Unit {0}) × Watcher
pop v none w = (err key_error, w)
pop v (some callback) w = (ok tt, record w { refs = updated w.refs v none })

abbrev unwatch_vigil : ℕ → Option ℕ → Watcher → Result (Unit {0}) × Watcher
unwatch_vigil t none w = (ok tt, w)
unwatch_vigil t (some v) w = pop v (w.refs v) (record w { vigil = updated w.vigil t none })

unfoldable pub unwatch : ℕ → Watcher → Result (Unit {0}) × Watcher
unwatch t w = unwatch_vigil t (w.vigil t) w

abbrev on_death : ℕ → Option ℕ → Watcher → Watcher
on_death v none w = w
on_death v (some callback) w = record w {
  refs = updated w.refs v none;
  called = callback ∷ w.called;
}

abbrev free_vigil : Option ℕ → Watcher → Watcher
free_vigil none w = w
free_vigil (some v) w = on_death v (w.refs v) w

-- the thread ends
unfoldable pub end_thread : ℕ → Watcher → Watcher
end_thread t w = free_vigil (w.vigil t) (record w { vigil = updated w.vigil t none })

-- What threads do, and what happens to them.
pub data Event : Type 0 where
  watches : ℕ → ℕ → Event
  unwatches : ℕ → Event
  ends : ℕ → Event

abbrev pub handle : Event → Watcher → Watcher
handle (watches t callback) w = watch t callback w
handle (unwatches t) w = (unwatch t w).1
handle (ends t) w = end_thread t w

abbrev pub handle_all : List Event → Watcher → Watcher
handle_all [] w = w
handle_all (e ∷ es) w = handle_all es (handle e w)
