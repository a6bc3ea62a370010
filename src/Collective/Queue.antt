-- ===== src/Collective/Queue.antt =====
-- collective/indexing/queue.py: `IndexQueue`, and its transaction hook and savepoints of
-- collective/indexing/transactions.py. The queue's list is a Python list that a savepoint may
-- share, so it stands in a heap of lists.
pub mod Reduce
pub mod Process
pub mod Hooked
pub mod Savepoint
use zerodb.Common.{
  ℕ, zero, suc, ◌+◌, Bool, true, false, Option, none, some, List, [], ◌∷◌, ◌++◌, length, ◌==◌,
  if◌then◌else◌, map,
}
use zerodb.Common.Int.{ℤ, eq_ℤ}
use zerodb.Common.Result.{Error, Result, ok, err, invalid_queue_operation}
use Reduce.{Keys, Entry, index_op, reindex_op, unindex_op, optimized}

-- `tmhook` is `None` or the `register` of a `QueueTM`, whose flag `registered` is kept. `joined`
-- counts the data managers that joined the transaction, each with its before-commit hook.
pub record Queue (K : Keys) : Type 0 where
  pub heap : ℕ → List (Entry K)
  pub next : ℕ
  pub queue : ℕ
  pub tmhook : Option Bool
  pub joined : ℕ

-- What a processor is asked to do.
pub data Call (K : Keys) : Type 0 where
  begin : Call K
  index : K.Obj → Option (List K.Attr) → Call K
  reindex : K.Obj → Option (List K.Attr) → Call K
  unindex : K.Obj → Call K
  commit : Call K
  abort : Call K

-- A call and the processor, by its place in `getUtilitiesFor`.
abbrev pub Log : Keys → Type 0
Log K = List (ℕ × Call K)

-- Which call raises, after the calls that were made before it: a processor may keep a state.
abbrev pub Raises : Keys → Type 0
Raises K = Log K → ℕ × Call K → Option Error

-- `self.registered = False`, on the hook that the queue keeps
abbrev unregister : Option Bool → Option Bool
unregister none = none
unregister (some registered) = some false

module _ {K : Keys} where
  abbrev pub write : (ℕ → List (Entry K)) → ℕ → List (Entry K) → ℕ → List (Entry K)
  write heap a l b = if a == b then l else heap b

  abbrev pub contents : Queue K → List (Entry K)
  contents q = q.heap q.queue

  -- `QueueTM.register`; `can_join` is false where joining the transaction raises, which is logged
  abbrev register : Bool → Bool → Queue K → Queue K
  register can_join true q = record q { tmhook = some true }
  register true false q = record q { tmhook = some true; joined = q.joined + 1 }
  register false false q = record q { tmhook = some false }

  unfoldable pub hook : Bool → Queue K → Queue K
  hook can_join q = elim q.tmhook [
    | none ↦ register can_join false q
    | some registered ↦ register can_join registered q
  ]

  -- `self.queue.append((op, obj, attributes))` and `self.hook()`
  unfoldable pub enqueue : Bool → Entry K → Queue K → Queue K
  unfolding hook
  enqueue can_join e q =
      hook can_join (record q { heap = write q.heap q.queue (contents q ++ e ∷ []) })

  abbrev pub index_entry : K.Obj → Option (List K.Attr) → Entry K
  index_entry obj attributes = record { op = index_op; obj = obj; attr = attributes }

  abbrev pub reindex_entry : K.Obj → Option (List K.Attr) → Entry K
  reindex_entry obj attributes = record { op = reindex_op; obj = obj; attr = attributes }

  abbrev pub unindex_entry : K.Obj → Entry K
  unindex_entry obj = record { op = unindex_op; obj = obj; attr = none }

  -- a new list in the heap
  abbrev pub allocate : List (Entry K) → Queue K → ℕ × Queue K
  allocate l q = (q.next, record q { heap = write q.heap q.next l; next = q.next + 1 })

  -- `getState()`: the address of a copy
  unfoldable pub get_state : Queue K → ℕ × Queue K
  get_state q = allocate (contents q) q

  unfoldable pub set_state : ℕ → Queue K → Queue K
  set_state state q = record q { queue = state }

  unfoldable pub optimize : Queue K → Queue K
  unfolding set_state
  optimize q = let (a, q') = allocate (optimized K (contents q)) q in set_state a q'

  -- `del self.queue[:]`, in place
  unfoldable pub clear : Queue K → Queue K
  clear q = record q { heap = write q.heap q.queue []; tmhook = none }

  -- one call of a processor, after those of the log
  unfoldable pub call : Raises K → Log K → ℕ × Call K → Result (Unit {0}) × Log K
  call raises log c = (elim (raises log c) [ none ↦ ok tt | some x ↦ err x ], log ++ c ∷ [])

  abbrev pub and_then :
      Result (Unit {0}) × Log K → (Log K → Result (Unit {0}) × Log K) → Result (Unit {0}) × Log K
  and_then (err x, log) rest = (err x, log)
  and_then (ok u, log) rest = rest log

  -- what the processor `u` is asked for one entry
  unfoldable pub dispatch : Raises K → Log K → ℕ → Entry K → Result (Unit {0}) × Log K
  dispatch raises log u e =
      if eq_ℤ e.op index_op
      then call raises log (u, index e.obj e.attr)
      else if eq_ℤ e.op reindex_op
      then call raises log (u, reindex e.obj e.attr)
      else if eq_ℤ e.op unindex_op
      then call raises log (u, unindex e.obj)
      else (err invalid_queue_operation, log)

  -- the inner loop: all processors, those from `u` on
  unfoldable pub dispatch_all : Raises K → ℕ → ℕ → Entry K → Log K → Result (Unit {0}) × Log K
  unfolding dispatch
  dispatch_all raises zero u e log = (ok tt, log)
  dispatch_all raises (suc n) u e log =
      and_then (dispatch raises log u e) (dispatch_all raises n (u + 1) e)

  abbrev pub count_on : Result (Unit {0}) × Log K → (Log K → Result ℕ × Log K) → Result ℕ × Log K
  count_on (err x, log) rest = (err x, log)
  count_on (ok u, log) rest = rest log

  -- the loop over the queue, `processed` entries being done
  unfoldable pub process_entries : Raises K → ℕ → List (Entry K) → ℕ → Log K → Result ℕ × Log K
  unfolding dispatch_all
  process_entries raises utilities [] processed log = (ok processed, log)
  process_entries raises utilities (e ∷ l) processed log =
      count_on (dispatch_all raises utilities 0 e log)
        (process_entries raises utilities l (processed + 1))

  -- `util.begin()` of each processor from `u` on
  unfoldable pub begin_all : Raises K → ℕ → ℕ → Log K → Result (Unit {0}) × Log K
  unfolding call
  begin_all raises zero u log = (ok tt, log)
  begin_all raises (suc n) u log =
      and_then (call raises log (u, begin)) (begin_all raises n (u + 1))

  -- one call to each of the processors
  unfoldable pub call_all : Call K → ℕ → ℕ → Log K
  call_all c zero u = []
  call_all c (suc n) u = (u, c) ∷ call_all c n (u + 1)

  -- an exception leaves the queue as it was reduced
  abbrev pub finish : Queue K → Result ℕ × Log K → Result ℕ × Log K × Queue K
  finish q (ok n, log) = (ok n, log, clear q)
  finish q (err x, log) = (err x, log, q)

  abbrev pub process_optimized :
      Raises K → ℕ → Queue K → List (Entry K) → Result ℕ × Log K × Queue K
  process_optimized raises utilities q [] = (ok 0, [], q)
  process_optimized raises utilities q (e ∷ l) =
      finish q
        (count_on (begin_all raises utilities 0 []) (process_entries raises utilities (e ∷ l) 0))

  -- `process()` with so many processors
  unfoldable pub process : Raises K → ℕ → Queue K → Result ℕ × Log K × Queue K
  unfolding optimize clear process_entries begin_all
  process raises utilities q0 =
      let q = optimize q0 in process_optimized raises utilities q (contents q)

  -- `processQueue()`: whether the queue is in `processing`, before and after
  unfoldable pub process_queue : Raises K → ℕ → Bool × Queue K → Result ℕ × Log K × Bool × Queue K
  unfolding process
  process_queue raises utilities (processing, q) = elim (contents q) [
    | [] ↦ (ok 0, [], processing, q)
    | _ ∷ _ ↦
        if processing
        then (ok 0, [], processing, q)
        else (let (r, log, q') = process raises utilities q in (r, log, false, q'))
  ]

  -- `QueueTM.before_commit`, `tpc_finish` and `tpc_abort` (`abort`)
  unfoldable pub before_commit : Raises K → ℕ → Queue K → Result (Unit {0}) × Log K × Queue K
  unfolding process clear
  before_commit raises utilities q =
      let (r, log, q') = process raises utilities q in
      elim r [ ok n ↦ (ok tt, log, clear q') | err x ↦ (err x, log, q') ]

  unfoldable pub tpc_finish : ℕ → Queue K → Log K × Queue K
  unfolding call_all
  tpc_finish utilities q =
      (call_all commit utilities 0, record q { tmhook = unregister q.tmhook; joined = 0 })

  unfoldable pub tpc_abort : ℕ → Queue K → Log K × Queue K
  unfolding call_all clear
  tpc_abort utilities q = (call_all abort utilities 0, record (clear (clear q)) { joined = 0 })
