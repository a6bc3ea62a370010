-- ===== src/Permissions/Owner/Access.antt =====
-- Who reads and writes what through `OwnerStorage`.
use zerodb.Common.{
  ℕ, ◌≤◌, ◌≡◌, ◌≢◌, refl, true, false, Option, some, ◌++◌, arith, length, ap, some-inj, subst, ◌∙◌,
}
use zerodb.Common.Bytes.{
  Bytes, bytes_eq, bytes_eq_refl, bytes_eq_iff, ends_with-append, without_suffix-append,
}
use zerodb.Common.Result.{ok, err, >>=-eq-ok, ok-injective, storage_error}
use zerodb.Permissions.Owner.{
  Load, key_error, nothing, found, load_data, Storage, z64, may_access, check_permissions,
  load_before, store, strip_owner, check_old,
}

-- A user whose id is no other's, and no record's that is asked for.
pub record IsStranger (u v oid : Bytes) : Type 0 where
  pub same_length : length u ≡ length v
  pub differs : u ≢ v
  pub not_root : oid ≢ u
  pub not_zero : oid ≢ z64

not-bytes_eq : (xs ys : Bytes) → xs ≢ ys → bytes_eq xs ys ≡ false
not-bytes_eq xs ys h = ground (arith, bytes_eq_iff xs ys)

may_access_stranger :
    (u v oid content : Bytes) → IsStranger u v oid → may_access u (content ++ v) oid ≡ false
unfolding may_access
may_access_stranger u v oid content h = ground (
  arith,
  ends_with-append content u v h.same_length,
  bytes_eq_iff v u,
  bytes_eq_iff oid u,
  bytes_eq_iff oid z64,
  h.differs,
  h.not_root,
  h.not_zero,
)

may_access_self : (u content oid : Bytes) → may_access u (content ++ u) oid ≡ true
unfolding may_access
may_access_self u content oid = ground (arith, ends_with-append content u u refl, bytes_eq_refl u)

pub found_of_data :
    (l : Load) (content : Bytes)
    → load_data l ≡ some content
    → (serial : ℕ) × (after : Option ℕ) × (l ≡ found content serial after)
found_of_data key_error content h = absurd (cc)
found_of_data nothing content h = absurd (cc)
found_of_data (found c serial after) content h =
    (serial, after, ap (λ (d : Bytes). found d serial after) (some-inj h))

module _ (S : Storage) where
  strip_owner_own :
      (u oid content : Bytes) (serial : ℕ) (after : Option ℕ)
      → 1 ≤ length u
      → strip_owner S u oid (found (content ++ u) serial after) ≡ ok (some (content, serial, after))
  unfolding check_permissions
  strip_owner_own u oid content serial after h =
      ground (arith, may_access_self u content oid, without_suffix-append content u h)

  -- What a user with an id that is not empty has stored, it reads back without the owner's id;
  -- the record below ends with that id.
  pub load_before-store :
      (u : Bytes) (s s' : S.State) (oid : Bytes) (serial : ℕ) (content : Bytes)
      → 1 ≤ length u
      → store S u s oid serial content ≡ ok s'
      → (serial' : ℕ) × (after : Option ℕ) × (load_before S u s' oid S.maxtid
          ≡ ok (some (content, serial', after)))
        × (load_data (S.load_before s' oid S.maxtid) ≡ some (content ++ u))
  unfolding load_before store
  load_before-store u s s' oid serial content len h =
      let (checked, passed, stored) =
        >>=-eq-ok (check_old S u oid (S.load_before s oid S.maxtid))
          (λ _. ok (S.store s oid serial (content ++ u))) h in
      let at : load_data (S.load_before s' oid S.maxtid) ≡ some (content ++ u) =
        subst (λ (t : S.State). load_data (S.load_before t oid S.maxtid) ≡ some (content ++ u))
          (ok-injective stored)
          (S.load-store s oid serial (content ++ u) oid ∙ rw (bytes_eq_refl oid) refl) in
      let (serial', after, here) =
        found_of_data (S.load_before s' oid S.maxtid) (content ++ u) at in
      (
        serial',
        after,
        ap (strip_owner S u oid) here ∙ strip_owner_own u oid content serial' after len,
        at,
      )

  -- A user's load and store of a record that another user wrote raise `StorageError`, if the two
  -- ids have the same length and differ, and the record is neither the object 0 nor the first
  -- user's own root folder.
  pub stranger_raises :
      (u v : Bytes) (s : S.State) (oid : Bytes) (content : Bytes) (serial : ℕ) (new : Bytes)
      → IsStranger u v oid
      → load_data (S.load_before s oid S.maxtid) ≡ some (content ++ v)
      → (load_before S u s oid S.maxtid ≡ err storage_error)
        × (store S u s oid serial new ≡ err storage_error)
  unfolding load_before store check_permissions
  stranger_raises u v s oid content serial new h e =
      ground (arith, e, may_access_stranger u v oid content h)

  -- Every user reads and writes its own root folder, whoever wrote it last.
  pub own_root :
      (u : Bytes) (s : S.State) (content : Bytes) (serial : ℕ) (new : Bytes)
      → load_data (S.load_before s u S.maxtid) ≡ some content
      → (store S u s u serial new ≡ ok (S.store s u serial (new ++ u)))
        × (load_before S u s u S.maxtid ≢ err storage_error)
  unfolding load_before store check_permissions may_access
  own_root u s content serial new e = ground (arith, e, bytes_eq_refl u)
