-- ===== src/Collective/Queue/Hooked.antt =====
-- The queue in its transactions: `processQueue`, the hook before a commit, and that a hook stands
-- where something is queued (collective/indexing/queue.py and transactions.py).
use zerodb.Common.{
  ℕ, ◌≡◌, refl, true, false, some, List, [], ◌∷◌, arith, inl, inr, ◌≢◌, ◌⊎◌, Option-cases, subst,
  sym, ◌≤◌, List-cases, ◌∙◌,
}
use zerodb.Common.Result.{Error, Result, ok, err, Result-cases_any}
use zerodb.Collective.Queue.Reduce.{Keys, Entry, optimized}
use zerodb.Collective.Queue.{
  Queue, Log, Raises, count_on, begin_all, finish, contents, enqueue, process_optimized, optimize,
  clear, process_entries, process, process_queue, before_commit, tpc_finish, tpc_abort,
}
use zerodb.Collective.Queue.Process.{contents-optimize, contents-clear, ran, process-Processed}

module _ {K : Keys} where
  -- A nested `processQueue()` makes no call and leaves the queue as it is; an outer one does what
  -- `process` does, where there is something queued, and leaves the queue free again.
  pub process_queue_guard :
      (raises : Raises K) (utilities : ℕ) (q : Queue K)
      → (process_queue raises utilities (true, q) ≡ (ok 0, [], true, q))
        × (contents q ≢ []
            → process_queue raises utilities (false, q) ≡ (
              (process raises utilities q).0,
              (process raises utilities q).1,
              false,
              (process raises utilities q).2,
            ))
  unfolding process_queue
  process_queue_guard raises n q = elim (List-cases (contents q)) [
    | inl e ↦ (ground (arith, e), λ ne. absurd (ne e))
    | inr (f, r, e) ↦ (ground (arith, e), λ ne. ground (arith, e))
  ]

  -- The hook's work and the end of the transaction; where the hook raises the transaction is not
  -- ended.
  abbrev end_transaction : ℕ → Result (Unit {0}) × Log K × Queue K → Queue K
  end_transaction utilities (ok u, log, q) = (tpc_finish utilities q).1
  end_transaction utilities (err x, log, q) = q

  abbrev pub commit_transaction : Raises K → ℕ → Queue K → Queue K
  commit_transaction raises utilities q =
      end_transaction utilities (before_commit raises utilities q)

  -- What happens to a queue, every join of a transaction succeeding.
  pub data Step (raises : Raises K) (utilities : ℕ) : Queue K → Queue K → Type 0 where
    enqueues : (e : Entry K) (q : Queue K) → Step raises utilities q (enqueue true e q)
    flushes : (q : Queue K) → Step raises utilities q (process_queue raises utilities (false, q)).3
    commits : (q : Queue K) → Step raises utilities q (commit_transaction raises utilities q)
    aborts : (q : Queue K) → Step raises utilities q (tpc_abort utilities q).1

  pub data Reach (raises : Raises K) (utilities : ℕ) (s : Queue K) : Queue K → Type 0 where
    start : Reach raises utilities s s
    next :
        {t u : Queue K}
        → Reach raises utilities s t
        → Step raises utilities t u
        → Reach raises utilities s u

  -- Where something is queued, a hook stands that has joined the transaction.
  pub record IsHooked (q : Queue K) : Type 0 where
    pub hooked : contents q ≢ [] → q.tmhook ≡ some true
    pub has_joined : q.tmhook ≡ some true → 1 ≤ q.joined

  IsHooked-of_empty : (q : Queue K) → contents q ≡ [] → q.tmhook ≢ some true → IsHooked q
  IsHooked-of_empty q e t = record { hooked = λ ne. absurd (ne e); has_joined = λ h. absurd (t h) }

  enqueue-IsHooked : (e : Entry K) (q : Queue K) → IsHooked q → IsHooked (enqueue true e q)
  unfolding enqueue
  enqueue-IsHooked e q h = elim (Option-cases q.tmhook) [
    | inl t ↦ record { hooked = λ _. ground (arith, t); has_joined = λ _. ground (arith, t) }
    | inr (true, t) ↦ record {
      hooked = λ _. ground (arith, t);
      has_joined = λ _. ground (arith, t, h.has_joined);
    }
    | inr (false, t) ↦ record {
      hooked = λ _. ground (arith, t);
      has_joined = λ _. ground (arith, t);
    }
  ]

  optimize-hook :
      (q : Queue K) → ((optimize q).tmhook ≡ q.tmhook) × ((optimize q).joined ≡ q.joined)
  unfolding optimize
  optimize-hook q = (refl, refl)

  -- The hook is released, and then nothing is queued, or kept.
  process-hook :
      (raises : Raises K) (n : ℕ) (q : Queue K)
      → ((process raises n q).2 ≡ optimize q) ⊎ ((process raises n q).2 ≡ clear (optimize q))
  unfolding process
  process-hook raises n q = from_list (contents (optimize q))
    where
      from_list :
          (l : List (Entry K))
          → ((process_optimized raises n (optimize q) l).2 ≡ optimize q)
            ⊎ ((process_optimized raises n (optimize q) l).2 ≡ clear (optimize q))
      from_list [] = inl refl
      from_list (f ∷ l) =
          from_out (count_on (begin_all raises n 0 []) (process_entries raises n (f ∷ l) 0))
        where
          from_out :
              (out : Result ℕ × Log K)
              → ((finish (optimize q) out).2 ≡ optimize q)
                ⊎ ((finish (optimize q) out).2 ≡ clear (optimize q))
          from_out (ok k, log) = inr refl
          from_out (err x, log) = inl refl

  optimized-nonempty : (l : List (Entry K)) → optimized K l ≢ [] → l ≢ []
  unfolding optimized
  optimized-nonempty [] h e = h refl
  optimized-nonempty (f ∷ l) h e = cc

  optimize-IsHooked : (q : Queue K) → IsHooked q → IsHooked (optimize q)
  optimize-IsHooked q h = record {
    hooked = λ ne.
        (optimize-hook q).0
        ∙ h.hooked (optimized-nonempty (contents q) (λ e. ne (contents-optimize q ∙ e)));
    has_joined = λ t.
        subst (λ (j : ℕ). 1 ≤ j) (sym (optimize-hook q).1)
          (h.has_joined (sym (optimize-hook q).0 ∙ t));
  }

  clear-IsHooked : (q : Queue K) → IsHooked (clear q)
  clear-IsHooked q = IsHooked-of_empty (clear q) (contents-clear q) (unfold clear in ground arith)

  process-IsHooked :
      (raises : Raises K) (n : ℕ) (q : Queue K) → IsHooked q → IsHooked (process raises n q).2
  process-IsHooked raises n q h = elim (process-hook raises n q) [
    | inl e ↦ subst IsHooked (sym e) (optimize-IsHooked q h)
    | inr e ↦ subst IsHooked (sym e) (clear-IsHooked (optimize q))
  ]

  process_queue_empty :
      (raises : Raises K) (n : ℕ) (q : Queue K)
      → contents q ≡ []
      → process_queue raises n (false, q) ≡ (ok 0, [], false, q)
  unfolding process_queue
  process_queue_empty raises n q e = ground (arith, e)

  flush-IsHooked :
      (raises : Raises K) (n : ℕ) (q : Queue K)
      → IsHooked q
      → IsHooked (process_queue raises n (false, q)).3
  flush-IsHooked raises n q h = elim (List-cases (contents q)) [
    | inl e ↦ rw (process_queue_empty raises n q e) h
    | inr (f, r, e) ↦
        let guard = (process_queue_guard raises n q).1 (λ none. cc (none, e)) in
        rw guard (process-IsHooked raises n q h)
  ]

  tpc_finish-IsHooked : (n : ℕ) (q : Queue K) → IsHooked (tpc_finish n (clear q)).1
  unfolding tpc_finish
  tpc_finish-IsHooked n q =
      IsHooked-of_empty (tpc_finish n (clear q)).1 (contents-clear q) (unfold clear in ground arith)

  before_commit-ok :
      (raises : Raises K) (n : ℕ) (q : Queue K) (k : ℕ)
      → (process raises n q).0 ≡ ok k
      → before_commit raises n q ≡ (ok tt, (process raises n q).1, clear (process raises n q).2)
  unfolding before_commit
  before_commit-ok raises n q k r = ground (arith, r)

  before_commit-err :
      (raises : Raises K) (n : ℕ) (q : Queue K) (x : Error)
      → (process raises n q).0 ≡ err x
      → before_commit raises n q ≡ (err x, (process raises n q).1, (process raises n q).2)
  unfolding before_commit
  before_commit-err raises n q x r = ground (arith, r)

  commit-IsHooked :
      (raises : Raises K) (n : ℕ) (q : Queue K)
      → IsHooked q
      → IsHooked (commit_transaction raises n q)
  commit-IsHooked raises n q h = elim (Result-cases_any (process raises n q).0) [
    | inl (k, r) ↦
        rw (before_commit-ok raises n q k r) (tpc_finish-IsHooked n (process raises n q).2)
    | inr (x, r) ↦ rw (before_commit-err raises n q x r) (process-IsHooked raises n q h)
  ]

  Step-IsHooked :
      {raises : Raises K} {n : ℕ} {q r : Queue K} → Step raises n q r → IsHooked q → IsHooked r
  Step-IsHooked (enqueues e q) h = enqueue-IsHooked e q h
  Step-IsHooked {raises} {n} (flushes q) h = flush-IsHooked raises n q h
  Step-IsHooked {raises} {n} (commits q) h = commit-IsHooked raises n q h
  Step-IsHooked {n = n} (aborts q) h =
      IsHooked-of_empty (tpc_abort n q).1 (unfold tpc_abort in contents-clear (clear q))
        (unfold tpc_abort clear in ground arith)

  -- From a queue that is hooked if it holds something, operations, flushes, commits and aborts,
  -- every join of a transaction succeeding and the processors' `index`, `reindex`, `unindex` and
  -- `begin` raising or not, lead only to queues that, where they hold something, have a hook that
  -- joined the transaction.
  pub Reach-IsHooked :
      {raises : Raises K} {n : ℕ} {q r : Queue K} → IsHooked q → Reach raises n q r → IsHooked r
  Reach-IsHooked h start = h
  Reach-IsHooked h (next p s) = Step-IsHooked s (Reach-IsHooked h p)

  -- Where no call raises, the hook before a commit returns and leaves nothing queued and no hook
  -- behind.
  pub before_commit_lem :
      (raises : Raises K) (utilities : ℕ) (q : Queue K)
      → (ran raises utilities (optimized K (contents q))).0 ≡ ok tt
      → ((before_commit raises utilities q).0 ≡ ok tt)
        × (contents (before_commit raises utilities q).2 ≡ [])
        × ((before_commit raises utilities q).1 ≡ (process raises utilities q).1)
  before_commit_lem raises n q h = elim (Result-cases_any (process raises n q).0) [
    | inl (k, r) ↦
        rw (before_commit-ok raises n q k r) (refl, contents-clear (process raises n q).2, refl)
    | inr (x, r) ↦ absurd (no_error x r)
  ]
    where
      no_error : (x : Error) → (process raises n q).0 ≢ err x
      no_error x r =
          let p = process-Processed raises n q in
          elim (List-cases (optimized K (contents q))) [
            | inl e ↦ let z = (p.silent e).0 in cc (z, r)
            | inr (f, l, e) ↦ let z = (p.returned (λ none. cc (none, e)) h).0 in cc (z, r)
          ]
