-- ===== src/Db/Lookup/Finds.antt =====
-- What a limited query and a lookup return, where the catalog and the store agree (db.py).
use zerodb.Common.{
  fun_ext, ap, ℕ, zero, suc, ◌+◌, ◌≡◌, true, Option, some, List, [], ◌∷◌, ◌++◌, is_some, elem, refl,
  arith, Option-cases, inl, inr, take, drop,
}
use zerodb.Common.Result.{ok}
use zerodb.Intid.{PUid, assigned, get_item, set_p_uid}
use zerodb.Db.{Site, ModelState}
use zerodb.Db.Table.{IsSynced}
use zerodb.Db.Lookup.{Queries, Name, found, fetch, note_all, query, whole_query, options, or_zero}

-- The objects that are stored under these ids, in their order.
abbrev pub AreStored : {S : Site} → ModelState S → List ℕ → List S.Obj → Type 0
AreStored s [] [] = Unit {0}
AreStored s [] (o ∷ os) = ⊥
AreStored s (u ∷ us) [] = ⊥
AreStored {S} s (u ∷ us) (o ∷ os) = (S.trees.get s.world.tree u ≡ some o) × AreStored s us os

module _ {S : Site} where
  abbrev pub AllStored : ModelState S → List ℕ → Type 0
  AllStored s us = (u : ℕ) → elem u us ≡ true → is_some (S.trees.get s.world.tree u) ≡ true

  fetch-AreStored :
      (us : List ℕ) (s : ModelState S)
      → AllStored s us
      → (os : List S.Obj) × (fetch S us s ≡ ok os) × AreStored s us os
  unfolding fetch get_item
  fetch-AreStored [] s h = ([], refl, tt)
  fetch-AreStored (u ∷ us) s h = elim (Option-cases (S.trees.get s.world.tree u)) [
    | inl e ↦ absurd (ground (arith, e, h u))
    | inr (o, e) ↦
        let (os, ran, all) = fetch-AreStored us s (λ v m. ground (arith, m, h v)) in
        (o ∷ os, rw (e, fetch, get_item, ran) refl, (e, all))
  ]

elem-take : (n d : ℕ) (l : List ℕ) → elem d (take n l) ≡ true → elem d l ≡ true
elem-take zero d l h = absurd (cc)
elem-take (suc n) d [] h = h
elem-take (suc n) d (x ∷ l) h = ground (arith, h, elem-take n d l)

elem-drop : (n d : ℕ) (l : List ℕ) → elem d (drop n l) ≡ true → elem d l ≡ true
elem-drop zero d l h = h
elem-drop (suc n) d [] h = h
elem-drop (suc n) d (x ∷ l) h = ground (arith, h, elem-drop n d l)

module _ {S : Site} {cls : S.Class} where
  -- Noting the id of an object that has it changes nothing.
  note_all-keeps :
      (us : List ℕ) (os : List S.Obj) (s : ModelState S) (p : S.Obj → PUid)
      → IsSynced cls s
      → AreStored s us os
      → ((x : S.Obj) → p x ≡ s.world.p_uid x)
      → note_all S os us (record s { world = record s.world { p_uid = p } }) ≡ s
  unfolding note_all
  note_all-keeps [] [] s p c h k =
      ap (λ (q : S.Obj → PUid). record s { world = record s.world { p_uid = q } }) (fun_ext k)
  note_all-keeps [] (o ∷ os) s p c h k = absurd h
  note_all-keeps (u ∷ us) [] s p c h k = absurd h
  note_all-keeps (u ∷ us) (o ∷ os) s p c (at, h) k =
      note_all-keeps us os s (set_p_uid S.dec p o (assigned u)) c h
        (λ x. ground (arith, k x, c.carried u o at))

  -- What the catalog finds is stored.
  pub found-AllStored :
      (q : S.Query) (kw : List S.Keyword) (n : ℕ) (uids : List ℕ) (s : ModelState S)
      → IsSynced cls s
      → S.catalogs.query s.catalog q kw ≡ ok (n, uids)
      → AllStored s uids
  found-AllStored q kw n uids s c ran u m =
      let (a, has, known) = S.catalogs.query_known s.catalog q kw n uids u ran m in
      ground (arith, known, c.agrees a u has)

  -- Where the catalog and the store agree, a query with a limit that the catalog answers never
  -- misses an object: it returns the objects stored under the ids after `skip`, at most `limit`
  -- of them, in the catalog's order, and leaves the state as it is.
  pub query_limited :
      (Q : Queries S) (queryobj : Option S.Query) (skip : Option ℕ) (l : ℕ)
      (kw : List (Name × Q.Arg)) (n : ℕ) (uids : List ℕ) {s : ModelState S}
      → IsSynced cls s
      → S.catalogs.query s.catalog
          (whole_query S Q queryobj kw)
          (options S Q kw ++ Q.limit_of (or_zero S Q skip + suc l) ∷ [])
        ≡ ok (n, uids)
      → (os : List S.Obj) × (query S Q queryobj skip (some (suc l)) kw s ≡ (ok (found os), s))
        × AreStored s (take (suc l) (drop (or_zero S Q skip) uids)) os
  unfolding query
  query_limited Q queryobj skip l kw n uids {s} c ran =
      let qids = take (suc l) (drop (or_zero S Q skip) uids) in
      let (os, fetched, stored) = fetch-AreStored qids s (λ u m.
        found-AllStored _ _ n uids s c ran u (
          elem-drop (or_zero S Q skip) u uids
            (elem-take (suc l) u (drop (or_zero S Q skip) uids) m))) in
      (
        os,
        rw (query, ran, fetched)
            (ap (λ t. (ok (found os), t))
              (note_all-keeps qids os s s.world.p_uid c stored (λ x. refl))),
        stored,
      )
