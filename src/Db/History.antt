-- ===== src/Db/History.antt =====
-- The histories of a class's objects: what the operations of `DbModel` do, as changes of a table
-- of contents (db.py).
use zerodb.Common.{
  some-inj, subst, ap, ◌∙◌, ℕ, ◌≡◌, ◌≢◌, true, false, Option, none, some, List, [], ◌∷◌, elem, ◌==◌,
  if◌then◌else◌, refl, arith, sym,
}
use zerodb.Common.Result.{Result, ok, err, assertion_error, ok-injective}
use zerodb.Db.{Site, ModelState, uid, obj, one, add, remove, reindex_one, of_class}
use zerodb.Db.Table.{table, indexed, IsSynced, Inserted, add-Inserted}
use zerodb.Db.Reindex.{assign, is_asked, reindex_one-IsSynced}
use zerodb.Db.Removal.{remove_obj-Erased, remove_uid-Erased}

-- The abstract table, and what can happen to it.
pub data Change (Doc : Type 0) : Type 0 where
  written : ℕ → Doc → Change Doc
  erased : ℕ → Change Doc
  unchanged : Change Doc

module _ {Doc : Type 0} where
  abbrev pub change : Change Doc → (ℕ → Option Doc) → ℕ → Option Doc
  change (written u d) t k = if u == k then some d else t k
  change (erased u) t k = if u == k then none else t k
  change unchanged t k = t k

  abbrev pub replay : List (Change Doc) → (ℕ → Option Doc) → ℕ → Option Doc
  replay [] t k = t k
  replay (c ∷ cs) t k = replay cs (change c t) k

  change-agrees :
      (c : Change Doc) (t t' : ℕ → Option Doc)
      → ((k : ℕ) → t k ≡ t' k)
      → (k : ℕ) → change c t k ≡ change c t' k
  change-agrees (written u d) t t' h k = ground (arith, h k)
  change-agrees (erased u) t t' h k = ground (arith, h k)
  change-agrees unchanged t t' h k = h k

  replay-agrees :
      (cs : List (Change Doc)) (t t' : ℕ → Option Doc)
      → ((k : ℕ) → t k ≡ t' k)
      → (k : ℕ) → replay cs t k ≡ replay cs t' k
  replay-agrees [] t t' h k = h k
  replay-agrees (c ∷ cs) t t' h k =
      replay-agrees cs (change c t) (change c t') (change-agrees c t t' h) k

added-inj :
    {A B : Type 0} {x y : A} {s t : B}
    → ◌≡◌ {A = Option (A × B)} (some (x, s)) (some (y, t))
    → (x ≡ y) × (s ≡ t)
added-inj {A} {B} e = let p = some-inj e in (ap (λ (q : A × B). q.0) p, ap (λ (q : A × B). q.1) p)

module _ (S : Site) (cls : S.Class) where
  add_refused :
      (o : S.Obj) (draws : List ℕ) (s : ModelState S)
      → of_class S cls o ≡ false
      → add S cls o draws s ≡ some (err assertion_error, s)
  unfolding add
  add_refused o draws s other = ground (arith, other)

  -- One operation and what it is to do: an object that is not stored is added, one that is stored
  -- is removed or changed and re-indexed; an `add` of another class's object is refused.
  pub data Step : ModelState S → Change S.Doc → ModelState S → Type 0 where
    adds :
        (o : S.Obj) (draws : List ℕ) (r u : ℕ) {s s' : ModelState S}
        → S.class_of o ≡ cls
        → elem r draws ≡ true
        → S.trees.get s.world.tree r ≡ none
        → ((k : ℕ) → S.trees.get s.world.tree k ≢ some o)
        → add S cls o draws s ≡ some (ok u, s')
        → Step s (written u (s.docs o)) s'
    refuses :
        (o : S.Obj) (draws : List ℕ) {s s' : ModelState S}
        → of_class S cls o ≡ false
        → add S cls o draws s ≡ some (err assertion_error, s')
        → Step s unchanged s'
    removes :
        (o : S.Obj) (u : ℕ) {s : ModelState S}
        → S.trees.get s.world.tree u ≡ some o
        → S.catalogs.unindex_error s.catalog u ≡ none
        → Step s (erased u) (remove S cls (one (obj o)) s).1
    removes_uid :
        (u : ℕ) {s : ModelState S}
        → S.catalogs.unindex_error s.catalog u ≡ none
        → Step s (erased u) (remove S cls (one (uid u)) s).1
    changes :
        (o : S.Obj) (u : ℕ) (d : S.Doc) (attrs : Option (List S.Attr)) {s : ModelState S}
        → S.trees.get s.world.tree u ≡ some o
        → ((a : S.Attr)
            → is_asked S cls attrs a ≡ false
            → S.catalogs.value a d ≡ S.catalogs.value a (s.docs o))
        → Step s (written u d) (reindex_one S cls (obj o) attrs (assign S cls o d s)).1

  pub data Run : ModelState S → List (Change S.Doc) → ModelState S → Type 0 where
    start : {s : ModelState S} → Run s [] s
    then_ :
        {c : Change S.Doc} {cs : List (Change S.Doc)} {s t u : ModelState S}
        → Step s c t
        → Run t cs u
        → Run s (c ∷ cs) u

module _ {S : Site} {cls : S.Class} where
  written_by :
      {u v : ℕ} {o : S.Obj} {s t s' : ModelState S}
      → ◌≡◌ {A = Option (Result ℕ × ModelState S)} (some (ok v, t)) (some (ok u, s'))
      → Inserted cls o v s t
      → IsSynced cls s' × ((k : ℕ) → table s' k ≡ change (written u (s.docs o)) (table s) k)
  written_by {u} {v} {o} {s} {t} {s'} e ins =
      let p = added-inj e in
      let eu : v ≡ u = ok-injective p.0 in
      (
        subst (λ (x : ModelState S). IsSynced cls x) p.1 ins.synced,
        λ k. rw (sym p.1, sym eu) (ins.written k),
      )

  Step-refines :
      {s s' : ModelState S} {c : Change S.Doc}
      → Step S cls s c s'
      → IsSynced cls s
      → IsSynced cls s' × ((k : ℕ) → table s' k ≡ change c (table s) k)
  Step-refines {s} {s'} (adds o draws r u is m free new ran) c =
      let (v, t, ran', ins) = add-Inserted cls o draws r {s = s} is m free new c in
      written_by (sym ran' ∙ ran) ins
  Step-refines {s} {s'} (refuses o draws other ran) c =
      let same = (added-inj (sym (add_refused S cls o draws s other) ∙ ran)).1 in
      (
        subst (λ (x : ModelState S). IsSynced cls x) same c,
        λ k. ap (λ (t : ModelState S). table t k) (sym same),
      )
  Step-refines {s} (removes o u at quiet) c =
      let (t, ran, er) = remove_obj-Erased cls o u c at quiet in rw ran (er.synced, er.erased)
  Step-refines {s} (removes_uid u quiet) c =
      let er = remove_uid-Erased cls u quiet c in unfold remove in (er.synced, er.erased)
  Step-refines {s} (changes o u d attrs at same) c =
      let (t, ran, synced, after) = reindex_one-IsSynced cls o u d attrs c at same in
      rw ran (synced, after)

  -- Whatever additions of objects of the class that are not in the store, with a free number among
  -- those drawn, refused additions of other objects, removals whose un-indexing does not raise
  -- (also of ids that are not there) and changes with a re-indexing of what changed follow one
  -- another: the contents of the store by id are the table that the abstract changes give, and
  -- every index has exactly what it reads of this table.
  pub Run-refines :
      {s s' : ModelState S} {cs : List (Change S.Doc)}
      → IsSynced cls s
      → Run S cls s cs s'
      → IsSynced cls s'
        × ((k : ℕ) → table s' k ≡ replay cs (table s) k)
        × ((a : S.Attr) (k : ℕ)
            → S.catalogs.has_index s'.catalog a ≡ true
            → S.catalogs.entry s'.catalog a k ≡ indexed S a (replay cs (table s) k))
  Run-refines {s} c start = (c, (λ k. refl), c.agrees)
  Run-refines {s} {s'} c (then_ {c = x} {cs = cs} {t = t} step rest) =
      let (c', now) = Step-refines step c in
      let (c'', after, at) = Run-refines c' rest in
      let same : (k : ℕ) → replay cs (table t) k ≡ replay cs (change x (table s)) k =
        λ k. replay-agrees cs (table t) (change x (table s)) now k in
      (c'', (λ k. after k ∙ same k), λ a k h. at a k h ∙ ap (indexed S a) (same k))
