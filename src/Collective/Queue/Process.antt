-- ===== src/Collective/Queue/Process.antt =====
-- What processing the queue does: the calls that are made (`process` of
-- collective/indexing/queue.py).
use zerodb.Common.{
  ℕ, zero, suc, ◌+◌, ◌≡◌, refl, true, List, [], ◌∷◌, ◌++◌, length, if◌then◌else◌, arith, inl, inr,
  ◌≢◌, subst, sym, ap, ◌∙◌, fun_ext,
}
use zerodb.Common.Int.{eq_ℤ}
use zerodb.Common.Result.{Error, Result, ok, err, Result-cases}
use zerodb.Collective.Queue.Reduce.{Keys, Entry, index_op, reindex_op, optimized}
use zerodb.Collective.Queue.Reduce.Order.{is_op, AllOps, optimized-AllOps}
use zerodb.Collective.Queue.{
  Queue, Call, begin, index, reindex, unindex, Log, Raises, call, and_then, count_on, begin_all,
  finish, contents, process_optimized, optimize, clear, dispatch, dispatch_all, process_entries,
  call_all, process,
}

module _ {K : Keys} where
  -- the call that an entry stands for
  abbrev pub call_of : Entry K → Call K
  call_of e =
      (if eq_ℤ e.op index_op
        then index e.obj e.attr
        else if eq_ℤ e.op reindex_op
        then reindex e.obj e.attr
        else unindex e.obj)

  -- the calls for the entries in order, each to all processors
  abbrev pub calls_of : ℕ → List (Entry K) → Log K
  calls_of utilities [] = []
  calls_of utilities (e ∷ l) = call_all (call_of e) utilities 0 ++ calls_of utilities l

  -- The calls of the list in order, up to the first that raises.
  unfoldable pub run_calls : Raises K → Log K → Log K → Result (Unit {0}) × Log K
  unfolding call
  run_calls raises [] log = (ok tt, log)
  run_calls raises (c ∷ cs) log = and_then (call raises log c) (run_calls raises cs)

  and_then_assoc :
      (out : Result (Unit {0}) × Log K) (f g : Log K → Result (Unit {0}) × Log K)
      → and_then (and_then out f) g ≡ and_then out (λ log. and_then (f log) g)
  and_then_assoc (err x, log) f g = refl
  and_then_assoc (ok u, log) f g = refl

  run_calls-++ :
      (raises : Raises K) (l m log : Log K)
      → run_calls raises (l ++ m) log ≡ and_then (run_calls raises l log) (run_calls raises m)
  unfolding run_calls
  run_calls-++ raises [] m log = refl
  run_calls-++ raises (c ∷ l) m log =
      ap (and_then (call raises log c)) (fun_ext (λ later. run_calls-++ raises l m later))
      ∙ sym (and_then_assoc (call raises log c) (run_calls raises l) (run_calls raises m))

  dispatch_lem :
      (raises : Raises K) (log : Log K) (u : ℕ) (e : Entry K)
      → is_op e.op ≡ true
      → dispatch raises log u e ≡ call raises log (u, call_of e)
  unfolding dispatch
  dispatch_lem raises log u e h = ground arith

  dispatch_all_lem :
      (raises : Raises K) (n u : ℕ) (e : Entry K) (log : Log K)
      → is_op e.op ≡ true
      → dispatch_all raises n u e log ≡ run_calls raises (call_all (call_of e) n u) log
  unfolding dispatch_all call_all run_calls
  dispatch_all_lem raises zero u e log h = refl
  dispatch_all_lem raises (suc n) u e log h =
      rw (dispatch_lem raises log u e h, dispatch_all)
        (ap (and_then (call raises log (u, call_of e)))
          (fun_ext (λ later. dispatch_all_lem raises n (u + 1) e later h)))

  begin_all_lem :
      (raises : Raises K) (n u : ℕ) (log : Log K)
      → begin_all raises n u log ≡ run_calls raises (call_all begin n u) log
  unfolding begin_all call_all run_calls
  begin_all_lem raises zero u log = refl
  begin_all_lem raises (suc n) u log =
      ap (and_then (call raises log (u, begin)))
        (fun_ext (λ later. begin_all_lem raises n (u + 1) later))

  -- a run that does not raise counts so many entries
  abbrev counted : ℕ → Result (Unit {0}) × Log K → Result ℕ × Log K
  counted n (ok u, log) = (ok n, log)
  counted n (err x, log) = (err x, log)

  count_on-counted :
      (n : ℕ) (out : Result (Unit {0}) × Log K) (f : Log K → Result (Unit {0}) × Log K)
      → count_on out (λ log. counted n (f log)) ≡ counted n (and_then out f)
  count_on-counted n (err x, log) f = refl
  count_on-counted n (ok u, log) f = refl

  process_entries_lem :
      (raises : Raises K) (n : ℕ) (l : List (Entry K)) (k : ℕ) (log : Log K)
      → AllOps l
      → process_entries raises n l k log
        ≡ counted (k + length l) (run_calls raises (calls_of n l) log)
  unfolding process_entries run_calls
  process_entries_lem raises n [] k log h = ground arith
  process_entries_lem raises n (e ∷ l) k log h =
      let more : k + 1 + length l ≡ k + length (e ∷ l) = omega arith in
      ap (λ out. count_on out (process_entries raises n l (k + 1)))
        (dispatch_all_lem raises n 0 e log h.0)
      ∙ ap (count_on (run_calls raises (call_all (call_of e) n 0) log)) (
          fun_ext (λ later.
            process_entries_lem raises n l (k + 1) later h.1
            ∙ ap (λ total. counted total (run_calls raises (calls_of n l) later)) more))
      ∙ count_on-counted (k + length (e ∷ l)) (run_calls raises (call_all (call_of e) n 0) log)
          (run_calls raises (calls_of n l))
      ∙ ap (counted (k + length (e ∷ l)))
          (sym (run_calls-++ raises (call_all (call_of e) n 0) (calls_of n l) log))

  -- the calls for the list: `begin`, and those for the entries in order
  abbrev pub ran : Raises K → ℕ → List (Entry K) → Result (Unit {0}) × Log K
  ran raises utilities l = run_calls raises (call_all begin utilities 0 ++ calls_of utilities l) []

  -- What processing the list `l` does.
  pub record Processed (raises : Raises K) (utilities : ℕ) (l : List (Entry K))
      (out : Result ℕ × Log K × Queue K) : Type 0 where
    pub silent : l ≡ [] → (out.0 ≡ ok 0) × (out.1 ≡ []) × (contents out.2 ≡ [])
    pub calls : l ≢ [] → out.1 ≡ (ran raises utilities l).1
    pub returned :
        l ≢ []
        → (ran raises utilities l).0 ≡ ok tt
        → (out.0 ≡ ok (length l)) × (contents out.2 ≡ [])
    pub raised :
        (x : Error)
        → l ≢ []
        → (ran raises utilities l).0 ≡ err x
        → (out.0 ≡ err x) × (contents out.2 ≡ l)

  pub contents-optimize : (q : Queue K) → contents (optimize q) ≡ optimized K (contents q)
  unfolding optimize
  contents-optimize q = ground arith

  pub contents-clear : (q : Queue K) → contents (clear q) ≡ []
  unfolding clear
  contents-clear q = ground arith

  begin_entries :
      (raises : Raises K) (n : ℕ) (l : List (Entry K))
      → AllOps l
      → count_on (begin_all raises n 0 []) (process_entries raises n l 0)
        ≡ counted (length l) (ran raises n l)
  begin_entries raises n l h =
      let none_yet : 0 + length l ≡ length l = omega arith in
      ap (λ out. count_on out (process_entries raises n l 0)) (begin_all_lem raises n 0 [])
      ∙ ap (count_on (run_calls raises (call_all begin n 0) [])) (
          fun_ext (λ log.
            process_entries_lem raises n l 0 log h
            ∙ ap (λ total. counted total (run_calls raises (calls_of n l) log)) none_yet))
      ∙ count_on-counted (length l) (run_calls raises (call_all begin n 0) [])
          (run_calls raises (calls_of n l))
      ∙ ap (counted (length l)) (sym (run_calls-++ raises (call_all begin n 0) (calls_of n l) []))

  finish-Processed :
      (raises : Raises K) (n : ℕ) (q : Queue K) (f : Entry K) (l : List (Entry K))
      → contents q ≡ f ∷ l
      → Processed raises n (f ∷ l) (finish q (counted (length (f ∷ l)) (ran raises n (f ∷ l))))
  finish-Processed raises n q f l e = elim (Result-cases (ran raises n (f ∷ l)).0) [
    | inl r ↦ record {
      silent = λ none. absurd (cc);
      calls = λ _. ground (arith, r);
      returned = λ _ _. ground (arith, r, contents-clear q);
      raised = λ x _ y. absurd (cc);
    }
    | inr (z, r) ↦ record {
      silent = λ none. absurd (cc);
      calls = λ _. ground (arith, r);
      returned = λ _ y. absurd (cc);
      raised = λ x _ y. ground (arith, r, y, e);
    }
  ]

  process_optimized-Processed :
      (raises : Raises K) (n : ℕ) (q : Queue K) (l : List (Entry K))
      → contents q ≡ l
      → AllOps l
      → Processed raises n l (process_optimized raises n q l)
  process_optimized-Processed raises n q [] e h = record {
    silent = λ _. (refl, refl, e);
    calls = λ ne. absurd (ne refl);
    returned = λ ne _. absurd (ne refl);
    raised = λ x ne _. absurd (ne refl);
  }
  process_optimized-Processed raises n q (f ∷ l) e h =
      subst (λ out. Processed raises n (f ∷ l) (finish q out))
        (sym (begin_entries raises n (f ∷ l) h)) (finish-Processed raises n q f l e)

  -- Processing calls `begin` of every processor, and then every processor for each of the reduced
  -- entries in their order, up to the first call that raises. If none does, it returns the number
  -- of entries and the queue is empty; if one does, its exception is raised, no operation being
  -- invalid, and the queue holds the reduced entries. Where nothing is left, no call is made.
  pub process-Processed :
      (raises : Raises K) (utilities : ℕ) (q : Queue K)
      → Processed raises utilities (optimized K (contents q)) (process raises utilities q)
  unfolding process
  process-Processed raises n q =
      subst (λ l. Processed raises n l (process raises n q)) (contents-optimize q)
        (process_optimized-Processed raises n (optimize q) (contents (optimize q)) refl
          (subst AllOps (sym (contents-optimize q)) (optimized-AllOps (contents q))))
