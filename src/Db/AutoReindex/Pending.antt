-- ===== src/Db/AutoReindex/Pending.antt =====
-- Objects that have changed and are not yet re-indexed (db.py), and re-indexing one of them.
use zerodb.Common.{
  some-inj, ap, ◌∙◌, sym, ℕ, ◌≡◌, refl, Bool, true, false, not, ◌&&◌, Option, none, some, List, ite,
  arith, Option-cases, inl, inr,
}
use zerodb.Common.Result.{ok}
use zerodb.Intid.{assigned}
use zerodb.Intid.Laws.{IsCounted}
use zerodb.Db.{Site, ModelState, obj}
use zerodb.Db
use zerodb.Db.Table.{IsSynced}
use zerodb.Db.Reindex.{assigned-inj, is_asked, index-reindex_catalog, entry-reindex_catalog}

-- As `IsSynced`, but for the indexes and objects of which `pending` holds.
pub record IsSyncedBut {S : Site} (pending : S.Obj → S.Attr → Bool) (cls : S.Class)
    (s : ModelState S) : Type 0 where
  pub absent :
      (a : S.Attr) (k : ℕ)
      → S.catalogs.has_index s.catalog a ≡ true
      → S.trees.get s.world.tree k ≡ none
      → S.catalogs.entry s.catalog a k ≡ none
  pub agrees :
      (a : S.Attr) (k : ℕ) (o : S.Obj)
      → S.catalogs.has_index s.catalog a ≡ true
      → S.trees.get s.world.tree k ≡ some o
      → pending o a ≡ false
      → S.catalogs.entry s.catalog a k ≡ some (S.catalogs.value a (s.docs o))
  pub carried :
      (k : ℕ) (o : S.Obj) → S.trees.get s.world.tree k ≡ some o → s.world.p_uid o ≡ assigned k
  pub typed : (k : ℕ) (o : S.Obj) → S.trees.get s.world.tree k ≡ some o → S.class_of o ≡ cls
  pub counted : IsCounted s.world.store

module _ (S : Site) (cls : S.Class) where
  -- what is still pending after an object was re-indexed
  abbrev pub less : (S.Obj → S.Attr → Bool) → S.Obj → Option (List S.Attr) → S.Obj → S.Attr → Bool
  less pending o attrs x a =
      pending x a && not (ite (S.dec o x) true false && is_asked S cls attrs a)

module _ {S : Site} (cls : S.Class) where
  pub IsSyncedBut-none : {s : ModelState S} → IsSyncedBut (λ o a. false) cls s → IsSynced cls s
  IsSyncedBut-none {s} c = record {
    agrees = λ a k h. elim (Option-cases (S.trees.get s.world.tree k)) [
      | inl e ↦ ground (arith, e, h, c.absent a k)
      | inr (o, e) ↦ ground (arith, e, h, c.agrees a k o)
    ];
    carried = c.carried;
    typed = c.typed;
    counted = c.counted;
  }

  pub IsSynced-But : {s : ModelState S} → IsSynced cls s → IsSyncedBut (λ o a. false) cls s
  IsSynced-But c = record {
    absent = λ a k h e. ground (arith, e, c.agrees a k h);
    agrees = λ a k o h e p. ground (arith, e, c.agrees a k h);
    carried = c.carried;
    typed = c.typed;
    counted = c.counted;
  }

  pub reindex_pending :
      (pending : S.Obj → S.Attr → Bool) (o : S.Obj) (u : ℕ) (attrs : Option (List S.Attr))
      {s : ModelState S}
      → IsSyncedBut pending cls s
      → S.trees.get s.world.tree u ≡ some o
      → (s' : ModelState S) × (Db.reindex_one S cls (obj o) attrs s ≡ (ok tt, s'))
        × (s'.world ≡ s.world)
        × (s'.docs ≡ s.docs)
        × IsSyncedBut (less S cls pending o attrs) cls s'
  unfolding Db.reindex_one
  reindex_pending pending o u attrs {s} c at =
      let has : (a : S.Attr)
          → S.catalogs.has_index (Db.reindex_catalog S cls attrs u (s.docs o) s.catalog) a ≡ true
          → S.catalogs.has_index s.catalog a ≡ true =
        λ a h. sym (index-reindex_catalog S cls attrs u (s.docs o) s.catalog a) ∙ h in
      (
        record s { catalog = Db.reindex_catalog S cls attrs u (s.docs o) s.catalog },
        ground (arith, at, c.typed u o at, c.carried u o at, S.is_instance-class_of o),
        refl,
        refl,
        record {
          absent = λ a k h e. ground (
            arith,
            at,
            e,
            entry-reindex_catalog S cls attrs u (s.docs o) s.catalog a k (has a h),
            c.absent a k (has a h) e,
          );
          agrees = λ a k x h e p. elim (S.dec o x) [
            | yes y ↦
                let same : u ≡ k =
                  assigned-inj (sym (c.carried u o at) ∙ ap s.world.p_uid y ∙ c.carried k x e) in
                ground (
                  arith,
                  y,
                  same,
                  p,
                  entry-reindex_catalog S cls attrs u (s.docs o) s.catalog a k (has a h),
                  c.agrees a k x (has a h) e,
                )
            | no n ↦
                let apart : ¬ (u ≡ k) =
                  λ q. n (some-inj (sym at ∙ ap (λ (j : ℕ). S.trees.get s.world.tree j) q ∙ e)) in
                ground (
                  arith,
                  n,
                  apart,
                  p,
                  entry-reindex_catalog S cls attrs u (s.docs o) s.catalog a k (has a h),
                  c.agrees a k x (has a h) e,
                )
          ];
          carried = c.carried;
          typed = c.typed;
          counted = c.counted;
        },
      )
