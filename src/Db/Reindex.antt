-- ===== src/Db/Reindex.antt =====
-- Re-indexing an object of a class, and changing one (db.py, `reindex_one`).
use zerodb.Common.{
  ◌&&◌, ap, ◌∙◌, ℕ, ◌≡◌, Bool, true, false, Option, none, some, List, [], ◌∷◌, ite, ◌==◌,
  if◌then◌else◌, refl, arith, Option-cases, Bool-cases, inl, inr, sym,
}
use zerodb.Common.Result.{ok}
use zerodb.Intid.{assigned}
use zerodb.Db.{Site, ModelState, obj, reindex_one, reindex_catalog, reindex_attrs}
use zerodb.Db.Table.{table, IsSynced}

pub assigned-inj : {a b : ℕ} → assigned a ≡ assigned b → a ≡ b
assigned-inj h = cc

module _ (S : Site) (cls : S.Class) where
  -- Re-indexing: what the loop over `attributes` leaves of the indexes.
  index-reindex_attrs :
      (attrs : List S.Attr) (u : ℕ) (d : S.Doc) (c : S.catalogs.Catalog) (a : S.Attr)
      → S.catalogs.has_index (reindex_attrs S cls attrs u d c) a ≡ S.catalogs.has_index c a
  unfolding reindex_attrs
  index-reindex_attrs [] u d c a = refl
  index-reindex_attrs (b ∷ attrs) u d c a = ground (
    arith,
    index-reindex_attrs attrs u d
        (if S.catalogs.has_index c b then S.catalogs.reindex_index c b u d else c) a,
    S.catalogs.index-reindex_index c b u d a,
  )

  pub index-reindex_catalog :
      (attrs : Option (List S.Attr)) (u : ℕ) (d : S.Doc) (c : S.catalogs.Catalog) (a : S.Attr)
      → S.catalogs.has_index (reindex_catalog S cls attrs u d c) a ≡ S.catalogs.has_index c a
  index-reindex_catalog none u d c a = S.catalogs.index-reindex_doc c u d a
  index-reindex_catalog (some attrs) u d c a = index-reindex_attrs attrs u d c a

  -- which indexes `attributes` names
  abbrev pub named : List S.Attr → S.Attr → Bool
  named [] a = false
  named (b ∷ attrs) a = let rest = named attrs a in ite (S.catalogs.attr_dec b a) true rest

  abbrev pub is_asked : Option (List S.Attr) → S.Attr → Bool
  is_asked none a = true
  is_asked (some attrs) a = named attrs a

  entry-reindex_attrs :
      (attrs : List S.Attr) (u : ℕ) (d : S.Doc) (c : S.catalogs.Catalog) (a : S.Attr) (k : ℕ)
      → S.catalogs.has_index c a ≡ true
      → S.catalogs.entry (reindex_attrs S cls attrs u d c) a k ≡ (
          if (u == k) && named attrs a then some (S.catalogs.value a d) else S.catalogs.entry c a k)
  unfolding reindex_attrs
  entry-reindex_attrs [] u d c a k h = ground arith
  entry-reindex_attrs (b ∷ attrs) u d c a k h =
      let next = (if S.catalogs.has_index c b then S.catalogs.reindex_index c b u d else c) in
      let rest = entry-reindex_attrs attrs u d next a k in
      elim (Bool-cases (S.catalogs.has_index c b)) [
        | inl t ↦ ground (
          arith,
          h,
          t,
          rest,
          S.catalogs.entry-reindex_index c b u d a k,
          S.catalogs.index-reindex_index c b u d a,
        )
        | inr f ↦
            let other : ¬ (b ≡ a) = λ e. cc (f, ap (S.catalogs.has_index c) e, h) in
            ground (arith, h, f, rest, other)
      ]

  -- Re-indexing gives the indexes that were asked for what the object holds, under its id.
  pub entry-reindex_catalog :
      (attrs : Option (List S.Attr)) (u : ℕ) (d : S.Doc) (c : S.catalogs.Catalog) (a : S.Attr)
      (k : ℕ)
      → S.catalogs.has_index c a ≡ true
      → S.catalogs.entry (reindex_catalog S cls attrs u d c) a k ≡ (
          if (u == k) && is_asked attrs a
          then some (S.catalogs.value a d)
          else S.catalogs.entry c a k)
  entry-reindex_catalog none u d c a k h = ground (arith, h, S.catalogs.entry-reindex_doc c u d a k)
  entry-reindex_catalog (some attrs) u d c a k h = entry-reindex_attrs attrs u d c a k h

  -- an attribute of an object is assigned
  abbrev pub assign : S.Obj → S.Doc → ModelState S → ModelState S
  assign o d s = record s { docs = λ x. ite (S.dec o x) d (s.docs x) }

module _ {S : Site} (cls : S.Class) where
  table-assign :
      (o : S.Obj) (u k : ℕ) (d : S.Doc) {s : ModelState S}
      → IsSynced cls s
      → S.trees.get s.world.tree u ≡ some o
      → table (assign S cls o d s) k ≡ (if u == k then some d else table s k)
  table-assign o u k d {s} c at = elim (Option-cases (S.trees.get s.world.tree k)) [
    | inl e ↦ ground (arith, e, at)
    | inr (x, e) ↦ elim (S.dec o x) [
      | yes p ↦
          let same : u ≡ k =
            assigned-inj (sym (c.carried u o at) ∙ ap s.world.p_uid p ∙ c.carried k x e) in
          ground (arith, e, p, same)
      | no n ↦ ground (arith, e, n, at)
    ]
  ]

  -- An object that is stored under `u` has changed, but for what the indexes not named in
  -- `attributes` read of it. Re-indexing it returns, every index agrees with the store again, and
  -- the table has the new contents at `u`.
  pub reindex_one-IsSynced :
      (o : S.Obj) (u : ℕ) (d : S.Doc) (attrs : Option (List S.Attr)) {s : ModelState S}
      → IsSynced cls s
      → S.trees.get s.world.tree u ≡ some o
      → ((a : S.Attr)
          → is_asked S cls attrs a ≡ false
          → S.catalogs.value a d ≡ S.catalogs.value a (s.docs o))
      → (s' : ModelState S) × (reindex_one S cls (obj o) attrs (assign S cls o d s) ≡ (ok tt, s'))
        × IsSynced cls s'
        × ((k : ℕ) → table s' k ≡ (if u == k then some d else table s k))
  unfolding reindex_one
  reindex_one-IsSynced o u d attrs {s} c at same =
      let s' : ModelState S = record (assign S cls o d s) {
        catalog = reindex_catalog S cls attrs u d s.catalog;
      } in
      (
        s',
        ground (arith, at, c.typed u o at, c.carried u o at, S.is_instance-class_of o),
        record {
          agrees = λ a k h.
              let known = sym (index-reindex_catalog S cls attrs u d s.catalog a) ∙ h in
              ground (
                arith,
                known,
                entry-reindex_catalog S cls attrs u d s.catalog a k known,
                table-assign o u k d c at,
                c.agrees a k known,
                same a,
                at,
              );
          carried = c.carried;
          typed = c.typed;
          counted = c.counted;
        },
        λ k. table-assign o u k d c at,
      )
