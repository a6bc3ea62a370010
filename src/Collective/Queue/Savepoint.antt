-- ===== src/Collective/Queue/Savepoint.antt =====
-- Savepoints of the queue: `QueueSavepoint` of collective/indexing/transactions.py.
use zerodb.Common.{ℕ, ◌+◌, ◌<◌, ◌≡◌, Bool, true, List, [], ◌∷◌, ◌++◌, arith, ◌≢◌}
use zerodb.Collective.Queue.Reduce.{Keys, Entry}
use zerodb.Collective.Queue.{Queue, write, contents, enqueue, hook, get_state, set_state}

module _ {K : Keys} where
  -- `__init__`: the address of the kept state
  abbrev pub savepoint : Queue K → ℕ × Queue K
  savepoint q = get_state q

  abbrev pub rollback : ℕ → Queue K → Queue K
  rollback state q = set_state state q

  -- several operations, one after the other
  abbrev pub enqueue_all : List (Entry K) → Queue K → Queue K
  enqueue_all [] q = q
  enqueue_all (e ∷ l) q = enqueue_all l (enqueue true e q)

  -- the savepoint's list is its own
  record Apart (state : ℕ) (l : List (Entry K)) (q : Queue K) : Type 0 where
    kept : q.heap state ≡ l
    other : q.queue ≢ state

  heap-hook : (b : Bool) (q : Queue K) → (hook b q).heap ≡ q.heap
  unfolding hook
  heap-hook b q = ground arith

  queue-hook : (b : Bool) (q : Queue K) → (hook b q).queue ≡ q.queue
  unfolding hook
  queue-hook b q = ground arith

  enqueue-Apart :
      (a : ℕ) (l : List (Entry K)) (e : Entry K) (q : Queue K)
      → Apart a l q
      → Apart a l (enqueue true e q)
  unfolding enqueue
  enqueue-Apart a l e q h =
      let q1 : Queue K = record q { heap = write q.heap q.queue (contents q ++ e ∷ []) } in
      record {
        kept = rw (heap-hook true q1) (ground (arith, h.kept, h.other));
        other = rw (queue-hook true q1) h.other;
      }

  enqueue_all-Apart :
      (a : ℕ) (l es : List (Entry K)) (q : Queue K) → Apart a l q → Apart a l (enqueue_all es q)
  enqueue_all-Apart a l [] q h = h
  enqueue_all-Apart a l (e ∷ es) q h = enqueue_all-Apart a l es _ (enqueue-Apart a l e q h)

  -- Rolling back, after any operations, to a savepoint for the first time restores the queue.
  rollback_restores :
      (q : Queue K) (es : List (Entry K))
      → q.queue < q.next
      → contents (rollback (savepoint q).0 (enqueue_all es (savepoint q).1)) ≡ contents q
  unfolding get_state set_state
  rollback_restores q es h =
      let q1 : Queue K = record q { heap = write q.heap q.next (contents q); next = q.next + 1 } in
      (enqueue_all-Apart q.next (contents q) es q1
        (record { kept = ground arith; other = λ (e : q.queue ≡ q.next). omega arith })).kept

  -- Where a savepoint is rolled back to twice, with an operation queued in between, the queue
  -- still holds that operation.
  pub second_rollback :
      (q : Queue K) (e : Entry K)
      → contents
          (rollback (savepoint q).0 (enqueue true e (rollback (savepoint q).0 (savepoint q).1)))
        ≡ contents q ++ e ∷ []
  unfolding get_state set_state enqueue
  second_rollback q e =
      let q1 : Queue K = record q {
        heap = write q.heap q.next (contents q);
        next = q.next + 1;
        queue = q.next;
      } in
      let q2 : Queue K = record q1 { heap = write q1.heap q.next (contents q1 ++ e ∷ []) } in
      rw (heap-hook true q2) (ground arith)
