-- ===== src/Db/AutoReindex/Hook.antt =====
-- The hook before a commit with the processor of db.py: where the processor carries the calls out,
-- just these calls are made.
use zerodb.Common.{
  ap, ◌∙◌, sym, fun_ext, ◌++◌, append-nil, append_assoc, ◌≡◌, refl, [], ◌∷◌, List-cases, inl, inr,
}
use zerodb.Common.Result.{Result, ok, err}
use zerodb.Collective.Queue.Reduce.{Keys, optimized}
use zerodb.Collective.Queue.{Queue, begin, Log, call, and_then, contents, call_all, before_commit}
use zerodb.Collective.Queue.Process.{calls_of, run_calls, process-Processed}
use zerodb.Collective.Queue.Hooked.{before_commit_lem}
use zerodb.Db.{Site}
use zerodb.Db.Dispatch.{Bases, DbState}
use zerodb.Db.AutoReindex.{Hashes, keys, perform, then_perform, perform_all, raises_from}

module _ (S : Site) (B : Bases S) (H : Hashes S) where
  abbrev K : Keys
  K = keys S H

  then_perform_assoc :
      (out : Result (Unit {0}) × DbState S) (f g : DbState S → Result (Unit {0}) × DbState S)
      → then_perform S B H (then_perform S B H out f) g
        ≡ then_perform S B H out (λ db. then_perform S B H (f db) g)
  then_perform_assoc (err x, db) f g = refl
  then_perform_assoc (ok u, db) f g = refl

  perform_all-++ :
      (l m : Log K) (db : DbState S)
      → perform_all S B H (l ++ m) db
        ≡ then_perform S B H (perform_all S B H l db) (perform_all S B H m)
  unfolding perform_all
  perform_all-++ [] m db = refl
  perform_all-++ ((u, c) ∷ l) m db =
      ap (then_perform S B H (perform S B H c db)) (fun_ext (λ later. perform_all-++ l m later))
      ∙ sym (then_perform_assoc (perform S B H c db) (perform_all S B H l) (perform_all S B H m))

  then_perform-eq-ok :
      (out : Result (Unit {0}) × DbState S) (f : DbState S → Result (Unit {0}) × DbState S)
      (db' : DbState S)
      → then_perform S B H out f ≡ (ok tt, db')
      → (out.0 ≡ ok tt) × (f out.1 ≡ (ok tt, db'))
  then_perform-eq-ok (err x, db) f db' h = absurd (cc)
  then_perform-eq-ok (ok tt, db) f db' h = (refl, h)

  -- Calls that the processor carries out do not raise.
  run_calls-ok :
      (db db' : DbState S) (cs log : Log K)
      → perform_all S B H (log ++ cs) db ≡ (ok tt, db')
      → run_calls (raises_from S B H db) cs log ≡ (ok tt, log ++ cs)
  unfolding run_calls
  run_calls-ok db db' [] log h = rw (append-nil log) refl
  run_calls-ok db db' ((u, c) ∷ cs) log h =
      let (_, rest) =
        then_perform-eq-ok (perform_all S B H log db) (perform_all S B H ((u, c) ∷ cs)) db'
          (sym (perform_all-++ log ((u, c) ∷ cs) db) ∙ h) in
      let (first, _) =
        then_perform-eq-ok (perform S B H c (perform_all S B H log db).1) (perform_all S B H cs) db'
          (unfold perform_all in rest) in
      let quiet : call (raises_from S B H db) log (u, c) ≡ (ok tt, log ++ (u, c) ∷ []) =
        unfold call raises_from in rw first refl in
      let same = append_assoc log ((u, c) ∷ []) cs in
      ap (λ out. and_then out (run_calls (raises_from S B H db) cs)) quiet
      ∙ run_calls-ok db db' cs (log ++ (u, c) ∷ [])
          (ap (λ calls. perform_all S B H calls db) same ∙ h)
      ∙ ap (λ calls. (ok tt, calls)) same

  -- Entries whose calls the processor carries out: the hook returns after just these calls.
  pub hook-ok :
      (q : Queue K) (db db' : DbState S)
      → perform_all S B H (calls_of 1 (optimized K (contents q))) db ≡ (ok tt, db')
      → ((before_commit (raises_from S B H db) 1 q).0 ≡ ok tt)
        × (contents (before_commit (raises_from S B H db) 1 q).2 ≡ [])
        × (perform_all S B H (before_commit (raises_from S B H db) 1 q).1 db ≡ (ok tt, db'))
  hook-ok q db db' h =
      let raises = raises_from S B H db in
      let l = optimized K (contents q) in
      let cs = call_all begin 1 0 ++ calls_of 1 l in
      let carried : perform_all S B H cs db ≡ (ok tt, db') = unfold call_all perform_all in h in
      let all = run_calls-ok db db' cs [] carried in
      let (returned, emptied, log) = before_commit_lem raises 1 q (ap (λ out. out.0) all) in
      let p = process-Processed raises 1 q in
      (
        returned,
        emptied,
        elim (List-cases l) [
          | inl e ↦
              ap (λ calls. perform_all S B H calls db) (log ∙ (p.silent e).1)
              ∙ ap (λ m. perform_all S B H (calls_of 1 m) db) (sym e)
              ∙ h
          | inr (f, m, e) ↦
              ap (λ calls. perform_all S B H calls db)
                (log ∙ p.calls (λ none. cc (none, e)) ∙ ap (λ out. out.1) all)
              ∙ carried
        ],
      )
