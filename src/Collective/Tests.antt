-- ===== src/Collective/Tests.antt =====
-- Queues of operations on objects that are numbers, which are their own ids.
use zerodb.Common.{
  ℕ, ◌≡◌, refl, Bool, true, false, ◌||◌, none, some, List, [], ◌∷◌, ◌++◌, ℕ_discrete, ◌==◌,
  if◌then◌else◌,
}
use zerodb.Collective.Queue.{
  Queue, contents, enqueue, index_entry, reindex_entry, unindex_entry, process, Raises, reindex,
}
use zerodb.Common.Result.{key_error}
use zerodb.Collective.Queue.Reduce.{Keys, Entry, reduce, res_get, optimized}
use zerodb.Collective.Queue.Reduce.Net.{apply_entry, apply_op, run, Entered, AtLeast, reduce_effect}
use zerodb.Collective.Queue.Reduce.Attributes.{covers}
use zerodb.Collective.Queue.Process.{Processed, process-Processed}
use zerodb.Collective.Queue.Hooked.{enqueues, start, next, IsHooked, Reach-IsHooked}
use zerodb.Collective.Queue.Savepoint.{savepoint, rollback, second_rollback}

abbrev keys : Keys
keys = record {
  Obj = ℕ;
  Oid = ℕ;
  Attr = ℕ;
  oid = λ o. o;
  rank = λ o. o;
  dec_oid = ℕ_discrete;
  dec_attr = ℕ_discrete;
}

-- the object 4 is indexed and un-indexed, the object 2 re-indexed twice
abbrev entries_of_two : List (Entry keys)
entries_of_two =
    index_entry 4 none
    ∷ reindex_entry 2 (some (1 ∷ []))
    ∷ unindex_entry 4
    ∷ reindex_entry 2 (some (3 ∷ []))
    ∷ []

abbrev fresh_queue : Queue keys
fresh_queue = record { heap = λ a. []; next = 1; queue = 0; tmhook = none; joined = 0 }

abbrev filled : Queue keys
filled = record { heap = λ a. entries_of_two; next = 1; queue = 0; tmhook = some true; joined = 1 }

-- the object 2 has present values of the attributes 1 and 3 afterwards
abbrev one_or_three : ℕ → Bool
one_or_three a = false || covers keys (some (1 ∷ [])) a || covers keys (some (3 ∷ [])) a

run_test : run keys 2 entries_of_two (some (λ a. false)) ≡ some (some one_or_three)
unfolding run apply_op ℕ_discrete
run_test = refl

reduce_effect_example :
    (r : Entered keys) × (apply_entry keys
        (res_get keys (reduce keys entries_of_two []) 2)
        (some (λ a. false))
      ≡ some r)
    × AtLeast keys (some one_or_three) r
reduce_effect_example =
    reduce_effect keys entries_of_two 2 (some (λ a. false)) (some one_or_three) run_test

-- the second processor raises when it is asked to re-index
abbrev raises_reindex : Raises keys
raises_reindex log (u, reindex o attrs) = if u == 1 then some key_error else none
raises_reindex log c = none

process-Processed_example :
    Processed raises_reindex 2 (optimized keys (contents filled)) (process raises_reindex 2 filled)
process-Processed_example = process-Processed raises_reindex 2 filled

fresh_queue-IsHooked : IsHooked fresh_queue
fresh_queue-IsHooked = record { hooked = λ ne. absurd (ne refl); has_joined = λ h. absurd (cc) }

Reach-IsHooked_example : IsHooked (enqueue true (index_entry 4 none) fresh_queue)
Reach-IsHooked_example =
    Reach-IsHooked {raises = raises_reindex} {n = 2} fresh_queue-IsHooked
      (next start (enqueues (index_entry 4 none) fresh_queue))

second_rollback_example :
    contents (
      rollback
        (savepoint filled).0
        (enqueue true (index_entry 9 none) (rollback (savepoint filled).0 (savepoint filled).1)))
    ≡ contents filled ++ index_entry 9 none ∷ []
second_rollback_example = second_rollback filled (index_entry 9 none)
