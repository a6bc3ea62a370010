-- ===== src/Db/Lookup.antt =====
-- db.py: `DbModel.__getitem__` and `query`. The classes of queries and their `optimize` are
-- parameters; the keyword arguments that are not options of the catalog are equality queries.
pub mod Finds
pub mod Sequence
use Prim.Native.String.{String}
use zerodb.Common.{ℕ, zero, suc, ◌+◌, Option, none, some, List, [], ◌∷◌, ◌++◌, take, drop}
use zerodb.Common.Result.{Result, ok, err, ◌>>=◌}
use zerodb.Intid.{PUid, absent, cleared, assigned, get_item, set_p_uid}
use zerodb.Db.{Site, ModelState}

-- the name of a keyword argument; the first five are the catalog's
pub data Name : Type 0 where
  sort_index sort_type reverse names limit : Name
  field : String → Name

pub record Queries (S : Site) : Type 1 where
  pub Arg : Type 0
  pub eq : String → Arg → S.Query
  pub all_of : List S.Query → S.Query
  pub conj : S.Query → S.Query → S.Query
  pub optimize : S.Query → S.Query
  pub keyword : Name → Arg → S.Keyword
  pub limit_of : ℕ → S.Keyword

-- A list of objects, or the sequence `DBList` that runs the query when it is read.
pub data Answer (S : Site) : Type 0 where
  found : List S.Obj → Answer S
  db_list : S.Query → List S.Keyword → Answer S

module _ (S : Site) where
  abbrev pub with_uid : S.Obj → ℕ → ModelState S → ModelState S
  with_uid o u s = record s {
    world = record s.world { p_uid = set_p_uid S.dec s.world.p_uid o (assigned u) };
  }

  -- `if not hasattr(obj, "_p_uid")`
  abbrev pub unless_known : PUid → S.Obj → ℕ → ModelState S → ModelState S
  unless_known absent o u s = with_uid o u s
  unless_known cleared o u s = s
  unless_known (assigned v) o u s = s

  abbrev pub got_one : Result S.Obj → ℕ → ModelState S → Result S.Obj × ModelState S
  got_one (err e) u s = (err e, s)
  got_one (ok o) u s = (ok o, unless_known (s.world.p_uid o) o u s)

  -- `__getitem__` of an id, and of several
  unfoldable pub get : ℕ → ModelState S → Result S.Obj × ModelState S
  get u s = got_one (get_item S.dec u s.world) u s

  unfoldable pub fetch : List ℕ → ModelState S → Result (List S.Obj)
  fetch [] s = ok []
  fetch (u ∷ us) s = do o ← get_item S.dec u s.world; rest ← fetch us s; ok (o ∷ rest)

  unfoldable pub note_unknown : List S.Obj → List ℕ → ModelState S → ModelState S
  note_unknown [] us s = s
  note_unknown (o ∷ os) [] s = s
  note_unknown (o ∷ os) (u ∷ us) s = note_unknown os us (unless_known (s.world.p_uid o) o u s)

  abbrev pub got_all :
      Result (List S.Obj) → List ℕ → ModelState S → Result (List S.Obj) × ModelState S
  got_all (err e) us s = (err e, s)
  got_all (ok os) us s = (ok os, note_unknown os us s)

  unfoldable pub get_all : List ℕ → ModelState S → Result (List S.Obj) × ModelState S
  unfolding fetch note_unknown
  get_all us s = got_all (fetch us s) us s

  -- `obj._p_uid = uid` for each that was found
  unfoldable pub note_all : List S.Obj → List ℕ → ModelState S → ModelState S
  note_all [] us s = s
  note_all (o ∷ os) [] s = s
  note_all (o ∷ os) (u ∷ us) s = note_all os us (with_uid o u s)

  module _ (Q : Queries S) where
    -- the equality queries of the keyword arguments, and the arguments that are left
    unfoldable pub eq_args : List (Name × Q.Arg) → List S.Query
    eq_args [] = []
    eq_args ((field f, x) ∷ kw) = Q.eq f x ∷ eq_args kw
    eq_args ((_, x) ∷ kw) = eq_args kw

    unfoldable pub options : List (Name × Q.Arg) → List S.Keyword
    options [] = []
    options ((field f, x) ∷ kw) = options kw
    options ((n, x) ∷ kw) = Q.keyword n x ∷ options kw

    abbrev pub whole_query : Option S.Query → List (Name × Q.Arg) → S.Query
    whole_query none kw = Q.all_of (eq_args kw)
    whole_query (some q) kw = Q.optimize (Q.conj (Q.optimize q) (Q.all_of (eq_args kw)))

    abbrev pub answer_with :
        Result (List S.Obj) → List ℕ → ModelState S → Result (Answer S) × ModelState S
    answer_with (err e) us s = (err e, s)
    answer_with (ok os) us s = (ok (found os), note_all os us s)

    abbrev pub answer :
        Result (ℕ × List ℕ) → ℕ → ℕ → ModelState S → Result (Answer S) × ModelState S
    answer (err e) skip lim s = (err e, s)
    answer (ok (n, uids)) skip lim s =
        let qids = take lim (drop skip uids) in answer_with (fetch qids s) qids s

    -- `skip or 0`
    abbrev pub or_zero : Option ℕ → ℕ
    or_zero none = 0
    or_zero (some n) = n

    abbrev pub query_upto :
        ℕ → S.Query → List S.Keyword → ℕ → ModelState S → Result (Answer S) × ModelState S
    query_upto zero q kw skip s = (ok (db_list q kw), s)
    query_upto (suc l) q kw skip s =
        answer (S.catalogs.query s.catalog q (kw ++ Q.limit_of (skip + suc l) ∷ [])) skip (suc l) s

    unfoldable pub query :
        Option S.Query
        → Option ℕ
        → Option ℕ
        → List (Name × Q.Arg)
        → ModelState S
        → Result (Answer S) × ModelState S
    unfolding fetch note_all eq_args options
    query queryobj skip lim kw s =
        query_upto (or_zero lim) (whole_query queryobj kw) (options kw) (or_zero skip) s
