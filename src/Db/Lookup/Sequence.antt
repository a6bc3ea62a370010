-- ===== src/Db/Lookup/Sequence.antt =====
-- util/iter.py: `DBList`, the sequence of objects that a query without a limit returns. The query
-- runs when the sequence is read, and each object is fetched when the iterator comes to it.
use zerodb.Common.{ℕ, ◌≡◌, refl, ap, fun_ext, some, List, [], ◌∷◌, arith, Option-cases, inl, inr}
use zerodb.Common.Result.{Result, ok, err, ◌>>=◌}
use zerodb.Intid.{PUid, get_item}
use zerodb.Db.{Site, ModelState}
use zerodb.Db.Table.{IsSynced}
use zerodb.Db.Lookup.{with_uid}
use zerodb.Db.Lookup.Finds.{AreStored, AllStored, found-AllStored}

module _ (S : Site) where
  -- `get_object`
  abbrev pub got_object : Result S.Obj → ℕ → ModelState S → Result S.Obj × ModelState S
  got_object (err e) u s = (err e, s)
  got_object (ok o) u s = (ok o, with_uid S o u s)

  unfoldable pub get_object : ℕ → ModelState S → Result S.Obj × ModelState S
  get_object u s = got_object (get_item S.dec u s.world) u s

  abbrev then_objects :
      Result S.Obj × ModelState S
      → (ModelState S → Result (List S.Obj) × ModelState S)
      → Result (List S.Obj) × ModelState S
  then_objects (err e, s) f = (err e, s)
  then_objects (ok o, s) f = let (r, s') = f s in ((do os ← r; ok (o ∷ os)), s')

  -- reading the iterator `imap(get_object, it)` to its end
  unfoldable pub read_objects : List ℕ → ModelState S → Result (List S.Obj) × ModelState S
  unfolding get_object
  read_objects [] s = (ok [], s)
  read_objects (u ∷ us) s = then_objects (get_object u s) (read_objects us)

  abbrev opened : Result (ℕ × List ℕ) → ModelState S → Result (ℕ × List S.Obj) × ModelState S
  opened (err e) s = (err e, s)
  opened (ok (n, uids)) s = let (r, s') = read_objects uids s in ((do os ← r; ok (n, os)), s')

  -- the list's length, which the query tells, and its elements
  unfoldable pub read_list :
      S.Query → List S.Keyword → ModelState S → Result (ℕ × List S.Obj) × ModelState S
  unfolding read_objects
  read_list q kw s = opened (S.catalogs.query s.catalog q kw) s

module _ {S : Site} {cls : S.Class} where
  -- Noting the id of an object that has it changes nothing.
  with_uid-keeps :
      (o : S.Obj) (u : ℕ) (s : ModelState S)
      → IsSynced cls s
      → S.trees.get s.world.tree u ≡ some o
      → with_uid S o u s ≡ s
  with_uid-keeps o u s c at =
      ap (λ (q : S.Obj → PUid). record s { world = record s.world { p_uid = q } })
        (fun_ext (λ x. ground (arith, c.carried u o at)))

  read_objects-AreStored :
      (us : List ℕ) (s : ModelState S)
      → IsSynced cls s
      → AllStored s us
      → (os : List S.Obj) × (read_objects S us s ≡ (ok os, s)) × AreStored s us os
  unfolding read_objects get_item
  read_objects-AreStored [] s c h = ([], refl, tt)
  read_objects-AreStored (u ∷ us) s c h = elim (Option-cases (S.trees.get s.world.tree u)) [
    | inl e ↦ absurd (ground (arith, e, h u))
    | inr (o, e) ↦
        let (os, ran, all) = read_objects-AreStored us s c (λ v m. ground (arith, m, h v)) in
        let same = with_uid-keeps o u s c e in
        (o ∷ os, rw (e, read_objects, get_item) (rw (same, ran) refl), (e, all))
  ]

  -- Where the catalog and the store agree, reading the sequence of a query that the catalog answers
  -- never misses an object: it gives the objects stored under the ids that were found, in their
  -- order, and leaves the state as it is.
  read_list-AreStored :
      (q : S.Query) (kw : List S.Keyword) (n : ℕ) (uids : List ℕ) {s : ModelState S}
      → IsSynced cls s
      → S.catalogs.query s.catalog q kw ≡ ok (n, uids)
      → (os : List S.Obj) × (read_list S q kw s ≡ (ok (n, os), s)) × AreStored s uids os
  unfolding read_list
  read_list-AreStored q kw n uids {s} c ran =
      let (os, read, all) = read_objects-AreStored uids s c (found-AllStored q kw n uids s c ran) in
      (os, rw (ran, read_list, read) refl, all)
