-- ===== src/Util/ThreadWatcher/Due.antt =====
-- Watching threads as a table of the callback that is due for each (util/thread_watcher.py).
use zerodb.Common.{
  ℕ, ◌≡◌, refl, true, Option, none, some, List, [], ◌∷◌, if◌then◌else◌, ltb, is_some, arith,
  Option-cases, inl, inr, ◌∙◌,
}
use zerodb.Common.Result.{ok}
use zerodb.Util.ThreadWatcher.{
  Watcher, updated, new_watcher, is_watching, watch, unwatch, end_thread, Event, watches, unwatches,
  ends, handle_all,
}

-- Each vigil belongs to one thread, is referred to, and was made before.
record IsSound (w : Watcher) : Type 0 where
  pub referred : (t v : ℕ) → w.vigil t ≡ some v → is_some (w.refs v) ≡ true
  pub apart : (t u v : ℕ) → w.vigil t ≡ some v → w.vigil u ≡ some v → t ≡ u
  pub made : (t v : ℕ) → w.vigil t ≡ some v → ltb v w.next ≡ true

new_watcher-IsSound : IsSound new_watcher
new_watcher-IsSound = record {
  referred = λ t v h. cc h;
  apart = λ t u v h k. cc h;
  made = λ t v h. cc h;
}

watch-IsSound : (t callback : ℕ) {w : Watcher} → IsSound w → IsSound (watch t callback w)
unfolding watch
watch-IsSound t callback {w} s = record {
  referred = λ u v h. ground (arith, h, s.referred u v, s.made u v);
  apart = λ a b v h k. ground (arith, h, k, s.apart a b v, s.made a v, s.made b v);
  made = λ u v h. ground (arith, h, s.made u v);
}

end_thread-IsSound : (t : ℕ) {w : Watcher} → IsSound w → IsSound (end_thread t w)
unfolding end_thread
end_thread-IsSound t {w} s = elim (Option-cases (w.vigil t)) [
  | inl e ↦ record {
    referred = λ u v h. ground (arith, e, h, s.referred u v);
    apart = λ a b v h k. ground (arith, e, h, k, s.apart a b v);
    made = λ u v h. ground (arith, e, h, s.made u v);
  }
  | inr (x, e) ↦ record {
    referred = λ u v h. ground (arith, e, h, s.referred u v, s.apart t u v);
    apart = λ a b v h k. ground (arith, e, h, k, s.apart a b v);
    made = λ u v h. ground (arith, e, h, s.made u v);
  }
]

unwatch-IsSound : (t : ℕ) {w : Watcher} → IsSound w → IsSound (unwatch t w).1
unfolding unwatch
unwatch-IsSound t {w} s = elim (Option-cases (w.vigil t)) [
  | inl e ↦ record {
    referred = λ u v h. ground (arith, e, h, s.referred u v);
    apart = λ a b v h k. ground (arith, e, h, k, s.apart a b v);
    made = λ u v h. ground (arith, e, h, s.made u v);
  }
  | inr (x, e) ↦ record {
    referred = λ u v h. ground (arith, e, h, s.referred u v, s.apart t u v, s.referred t x);
    apart = λ a b v h k. ground (arith, e, h, k, s.apart a b v, s.referred t x);
    made = λ u v h. ground (arith, e, h, s.made u v, s.referred t x);
  }
]

-- The abstract table: the callback that is due when a thread ends, and those that were called.
pub record Table : Type 0 where
  pub due : ℕ → Option ℕ
  pub called : List ℕ

abbrev pub with_call : Option ℕ → List ℕ → List ℕ
with_call none called = called
with_call (some callback) called = callback ∷ called

abbrev pub happen : Event → Table → Table
happen (watches t callback) s =
    if is_some (s.due t) then s else record s { due = updated s.due t (some callback) }
happen (unwatches t) s = record s { due = updated s.due t none }
happen (ends t) s = record { due = updated s.due t none; called = with_call (s.due t) s.called }

abbrev pub happen_all : List Event → Table → Table
happen_all [] s = s
happen_all (e ∷ es) s = happen_all es (happen e s)

abbrev refs_of : (ℕ → Option ℕ) → Option ℕ → Option ℕ
refs_of refs none = none
refs_of refs (some v) = refs v

-- the table that a watcher stands for
abbrev pub table : Watcher → Table
table w = record { due = λ t. refs_of w.refs (w.vigil t); called = w.called }

-- Two tables agree.
abbrev Same : Table → Table → Type 0
Same a b = ((t : ℕ) → a.due t ≡ b.due t) × (a.called ≡ b.called)

watch-happen :
    (t callback : ℕ) {w : Watcher}
    → IsSound w
    → Same (table (watch t callback w)) (happen (watches t callback) (table w))
unfolding watch is_watching
watch-happen t callback {w} s = elim (Option-cases (w.vigil t)) [
  | inl e ↦ (
    (λ u. elim (Option-cases (w.vigil u)) [
      | inl f ↦ ground (arith, e, f)
      | inr (y, f) ↦ ground (arith, e, f, s.made u y)
    ]),
    ground (arith, e),
  )
  | inr (x, e) ↦ ((λ u. ground (arith, e, s.referred t x)), ground (arith, e, s.referred t x))
]

unwatch-happen :
    (t : ℕ) {w : Watcher}
    → IsSound w
    → Same (table (unwatch t w).1) (happen (unwatches t) (table w))
unfolding unwatch
unwatch-happen t {w} s = elim (Option-cases (w.vigil t)) [
  | inl e ↦ ((λ u. ground (arith, e)), ground (arith, e))
  | inr (x, e) ↦ (
    (λ u. elim (Option-cases (w.vigil u)) [
      | inl f ↦ ground (arith, e, f, s.referred t x)
      | inr (y, f) ↦ ground (arith, e, f, s.referred t x, s.apart t u x)
    ]),
    ground (arith, e, s.referred t x),
  )
]

end_thread-happen :
    (t : ℕ) {w : Watcher} → IsSound w → Same (table (end_thread t w)) (happen (ends t) (table w))
unfolding end_thread
end_thread-happen t {w} s = elim (Option-cases (w.vigil t)) [
  | inl e ↦ ((λ u. ground (arith, e)), ground (arith, e))
  | inr (x, e) ↦ (
    (λ u. elim (Option-cases (w.vigil u)) [
      | inl f ↦ ground (arith, e, f, s.referred t x)
      | inr (y, f) ↦ ground (arith, e, f, s.referred t x, s.apart t u x)
    ]),
    ground (arith, e, s.referred t x),
  )
]

happen-Same : (e : Event) (a b : Table) → Same a b → Same (happen e a) (happen e b)
happen-Same (watches t callback) a b (due, calls) =
    ((λ u. ground (arith, due t, due u)), ground (arith, due t, calls))
happen-Same (unwatches t) a b (due, calls) = ((λ u. ground (arith, due u)), calls)
happen-Same (ends t) a b (due, calls) = ((λ u. ground (arith, due u)), ground (arith, due t, calls))

handle_all-happen_all :
    (es : List Event) (w : Watcher) (s : Table)
    → IsSound w
    → Same (table w) s
    → IsSound (handle_all es w) × Same (table (handle_all es w)) (happen_all es s)
handle_all-happen_all [] w s i h = (i, h)
handle_all-happen_all (watches t callback ∷ es) w s i (due, calls) =
    let (d, c) = watch-happen t callback i in
    let (d', c') = happen-Same (watches t callback) (table w) s (due, calls) in
    handle_all-happen_all es (watch t callback w) (happen (watches t callback) s)
      (watch-IsSound t callback i) ((λ u. d u ∙ d' u), c ∙ c')
handle_all-happen_all (unwatches t ∷ es) w s i (due, calls) =
    let (d, c) = unwatch-happen t i in
    let (d', c') = happen-Same (unwatches t) (table w) s (due, calls) in
    handle_all-happen_all es (unwatch t w).1 (happen (unwatches t) s) (unwatch-IsSound t i)
      ((λ u. d u ∙ d' u), c ∙ c')
handle_all-happen_all (ends t ∷ es) w s i (due, calls) =
    let (d, c) = end_thread-happen t i in
    let (d', c') = happen-Same (ends t) (table w) s (due, calls) in
    handle_all-happen_all es (end_thread t w) (happen (ends t) s) (end_thread-IsSound t i)
      ((λ u. d u ∙ d' u), c ∙ c')

-- Whatever threads watch, stop watching and end, in whatever order: the callbacks that ran are those
-- of a table in which the first callback of a thread is due until it is taken back or the thread
-- ends, each once and in order; and taking back never raises.
pub handle_all-refines :
    (es : List Event) (t : ℕ)
    → ((handle_all es new_watcher).called
        ≡ (happen_all es (record { due = λ u. none; called = [] })).called)
      × ((unwatch t (handle_all es new_watcher)).0 ≡ ok tt)
unfolding unwatch
handle_all-refines es t =
    let w = handle_all es new_watcher in
    let (sound, same) =
      handle_all-happen_all es new_watcher (record { due = λ u. none; called = [] })
        new_watcher-IsSound ((λ u. refl), refl) in
    (
      same.1,
      elim (Option-cases (w.vigil t)) [
        | inl e ↦ ground (arith, e)
        | inr (x, e) ↦ ground (arith, e, sound.referred t x)
      ],
    )
