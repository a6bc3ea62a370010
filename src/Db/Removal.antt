-- ===== src/Db/Removal.antt =====
-- Removing objects of a class, one, several, or several nested (db.py, `remove`).
use zerodb.Common.{
  ap, ◌∙◌, ◌⊎◌, ℕ, ◌≡◌, true, none, some, is_some, ◌==◌, if◌then◌else◌, refl, arith, Bool-cases,
  inl, inr, sym, subst,
}
use zerodb.Common.Int.{decr_pos}
use zerodb.Common.Result.{Result, ok, err, key_error}
use zerodb.Intid.{assigned, absent, cleared, World, by_uid, PUid}
use zerodb.Intid
use zerodb.Catalog.Contract.{IsQuiet}
use zerodb.Db.{
  Site, ModelState, Item, uid, obj, alien, Removable, Removables, one, many, end, cons, remove,
  remove_each, remove_uid, remove_quietly, remove_item, count_next, of_class, reindex_one,
}
use zerodb.Db.Table.{table, IsSynced}

PUid-cases : (p : PUid) → ((p ≡ absent) ⊎ (p ≡ cleared)) ⊎ ((u : ℕ) × (p ≡ assigned u))
PUid-cases absent = inl (inl refl)
PUid-cases cleared = inl (inr refl)
PUid-cases (assigned u) = inr (u, refl)

-- What a removal of an id did, and what it leaves where the id has no object.
pub record Erased {S : Site} (cls : S.Class) (u : ℕ) (s s' : ModelState S) : Type 0 where
  pub erased : (k : ℕ) → table s' k ≡ (if u == k then none else table s k)
  pub p_uids : s'.world.p_uid ≡ s.world.p_uid
  pub synced : IsSynced cls s'

module _ {S : Site} (cls : S.Class) where
  get-remove_quietly :
      (u k : ℕ) (s : ModelState S)
      → S.trees.get (remove_quietly S cls u s).1.world.tree k
        ≡ (if u == k then none else S.trees.get s.world.tree k)
  unfolding Intid.remove
  get-remove_quietly u k s = ground (arith, S.trees.get-del s.world.tree u k)

  p_uid-remove_quietly :
      (u : ℕ) (s : ModelState S) → (remove_quietly S cls u s).1.world.p_uid ≡ s.world.p_uid
  unfolding Intid.remove
  p_uid-remove_quietly u s = ground arith

  remove_quietly-Erased :
      (u : ℕ) {s : ModelState S} → IsSynced cls s → Erased cls u s (remove_quietly S cls u s).1
  remove_quietly-Erased u {s} c = record {
    erased = λ k. ground (arith, get-remove_quietly u k s);
    p_uids = p_uid-remove_quietly u s;
    synced = record {
      agrees = λ a k h.
          let known = sym (S.catalogs.index-unindex_doc s.catalog u a) ∙ h in
          ground (
            arith,
            known,
            S.catalogs.entry-unindex_doc s.catalog u a k,
            c.agrees a k known,
            get-remove_quietly u k s,
          );
      carried = λ k o h.
          ap (λ (f : S.Obj → PUid). f o) (p_uid-remove_quietly u s)
          ∙ c.carried k o (ground (arith, h, get-remove_quietly u k s));
      typed = λ k o h. ground (arith, h, c.typed k o, get-remove_quietly u k s);
      counted =
          unfold Intid.remove in
          ground (
            arith,
            c.counted,
            S.trees.len-del s.world.tree u,
            decr_pos (S.trees.len (S.trees.del s.world.tree u)),
          );
    };
  }

  remove_quietly-result :
      (u : ℕ) (s : ModelState S)
      → (remove_quietly S cls u s).0 ≡ (if is_some (table s u) then ok 1 else err key_error)
  unfolding Intid.remove
  remove_quietly-result u s = ground arith

  -- where the un-indexing does not raise
  remove_uid-eq :
      (u : ℕ) (s : ModelState S)
      → S.catalogs.unindex_error s.catalog u ≡ none
      → remove_uid S cls u s ≡ remove_quietly S cls u s
  remove_uid-eq u s quiet = ground (arith, quiet)

  pub remove_uid-Erased :
      (u : ℕ) {s : ModelState S}
      → S.catalogs.unindex_error s.catalog u ≡ none
      → IsSynced cls s
      → Erased cls u s (remove_uid S cls u s).1
  remove_uid-Erased u {s} quiet c =
      subst (λ (out : Result ℕ × ModelState S). Erased cls u s out.1)
        (sym (remove_uid-eq u s quiet)) (remove_quietly-Erased u c)

  remove_item-IsSynced :
      (i : Item S) {s : ModelState S}
      → IsQuiet S.catalogs
      → IsSynced cls s
      → IsSynced cls (remove_item S cls i s).1
  remove_item-IsSynced (uid u) {s} q c = (remove_uid-Erased u (q s.catalog u) c).synced
  remove_item-IsSynced (obj o) {s} q c = elim (Bool-cases (of_class S cls o)) [
    | inl t ↦ elim (PUid-cases (s.world.p_uid o)) [
      | inl (inl e) ↦ rw (t, e) c
      | inl (inr e) ↦ rw (t, e) c
      | inr (u, e) ↦ rw (t, e) ((remove_uid-Erased u (q s.catalog u) c).synced)
    ]
    | inr f ↦ rw f c
  ]
  remove_item-IsSynced alien q c = c

  count_next-IsSynced :
      (p : Result ℕ × ModelState S) (f : ModelState S → Result ℕ × ModelState S)
      → IsSynced cls p.1
      → ((s : ModelState S) → IsSynced cls s → IsSynced cls (f s).1)
      → IsSynced cls (count_next S cls p f).1
  count_next-IsSynced (ok n, s) f c h = h s c
  count_next-IsSynced (err e, s) f c h = c

  mutual
    unfolding remove

    -- Over a catalog whose un-indexing does not raise: whatever is removed, one or many, and
    -- whether or not it raises on the way, the catalog and the store agree afterwards if they did
    -- before.
    pub remove-IsSynced :
        (x : Removable S) {s : ModelState S}
        → IsQuiet S.catalogs
        → IsSynced cls s
        → IsSynced cls (remove S cls x s).1
    remove-IsSynced (one i) q c = remove_item-IsSynced i q c
    remove-IsSynced (many l) q c = remove_each-IsSynced l q c

    remove_each-IsSynced :
        (l : Removables S) {s : ModelState S}
        → IsQuiet S.catalogs
        → IsSynced cls s
        → IsSynced cls (remove_each S cls l s).1
    remove_each-IsSynced end q c = c
    remove_each-IsSynced (cons x l) {s} q c =
        count_next-IsSynced (remove S cls x s) (remove_each S cls l) (remove-IsSynced x q c)
          (λ s' c'. remove_each-IsSynced l q c')

  remove_obj :
      (o : S.Obj) (u : ℕ) {s : ModelState S}
      → IsSynced cls s
      → S.trees.get s.world.tree u ≡ some o
      → S.catalogs.unindex_error s.catalog u ≡ none
      → remove S cls (one (obj o)) s ≡ (ok 1, (remove_quietly S cls u s).1)
  unfolding remove
  remove_obj o u {s} c at quiet =
      let mine : of_class S cls o ≡ true = ground (arith, c.typed u o at) in
      let done : (remove_quietly S cls u s).0 ≡ ok 1 =
        ground (arith, at, remove_quietly-result u s) in
      rw (mine, c.carried u o at)
        (remove_uid-eq u s quiet ∙ ap (λ r. (r, (remove_quietly S cls u s).1)) done)

  -- Where the un-indexing does not raise, removing an object that is stored removes its id, from the store and from every index; the
  -- object itself still carries it.
  pub remove_obj-Erased :
      (o : S.Obj) (u : ℕ) {s : ModelState S}
      → IsSynced cls s
      → S.trees.get s.world.tree u ≡ some o
      → S.catalogs.unindex_error s.catalog u ≡ none
      → (s' : ModelState S) × (remove S cls (one (obj o)) s ≡ (ok 1, s')) × Erased cls u s s'
  remove_obj-Erased o u {s} c at quiet =
      ((remove_quietly S cls u s).1, remove_obj o u c at quiet, remove_quietly-Erased u c)

  -- Re-indexing an object after it was removed, by an un-indexing that did not raise, returns, and puts its id back into every index,
  -- though the store has no object under it.
  pub reindex_removed :
      (o : S.Obj) (u : ℕ) (a : S.Attr) {s : ModelState S}
      → IsSynced cls s
      → S.trees.get s.world.tree u ≡ some o
      → S.catalogs.has_index s.catalog a ≡ true
      → S.catalogs.unindex_error s.catalog u ≡ none
      → (let removed = (remove S cls (one (obj o)) s).1 in
          let (result, again) = reindex_one S cls (obj o) none removed in
          (result ≡ ok tt)
          × (table again u ≡ none)
          × (S.catalogs.entry again.catalog a u ≡ some (S.catalogs.value a (s.docs o))))
  unfolding reindex_one
  reindex_removed o u a {s} c at h quiet =
      let after = (remove_quietly S cls u s).1 in
      let mine : S.is_instance o cls ≡ true =
        ground (arith, c.typed u o at, S.is_instance-class_of o) in
      let carries : after.world.p_uid o ≡ assigned u =
        ap (λ (f : S.Obj → PUid). f o) (p_uid-remove_quietly u s) ∙ c.carried u o at in
      let known = S.catalogs.index-unindex_doc s.catalog u a ∙ h in
      rw (remove_obj o u c at quiet, reindex_one, mine, carries)
        (
          refl,
          ground (arith, get-remove_quietly u u s),
          ground (arith, S.catalogs.entry-reindex_doc after.catalog u (s.docs o) a u, known),
        )
