-- ===== src/Permissions/Admin/Commit.antt =====
-- What a commit stores of `change_cert` (permissions/base.py): the certificates of a user are in a
-- plain dictionary, and changing it does not mark the user as changed.
use zerodb.Common.{
  ◌≡◌, refl, true, false, some, none, ◌∷◌, ℕ, Bool, ap, ◌∙◌, if_pos, arith, is_some,
}
use zerodb.Common.Bytes.{Bytes}
use zerodb.Common.Result.{ok}
use zerodb.Permissions.User.{Crypto, certs_add}
use zerodb.Permissions.Admin.{
  Trees, Admin, write, has_cert, add_user_cert, del_certs, change_pem, change_cert, committed,
}
use zerodb.Permissions.Admin.Invariant.{IsValid, Gone, del_certs-Gone}
use zerodb.Permissions.Admin.Changes.{present}
use zerodb.Permissions.Admin.ChangeCert.{then_do_ok, cleared}

module _ {C : Crypto} {T : Trees C} where
  -- the state with one more certificate
  abbrev with_cert : ℕ → Bytes → Admin C T → Admin C T
  with_cert id pem b =
      let user = b.objects id in
      record b {
        uids = T.ders.put b.uids (C.get_der pem) (some user.id);
        objects = write b.objects id (record user { certs = (C.get_der pem, pem) ∷ user.certs });
        certs = certs_add b.certs pem;
      }

  add_user_cert-new :
      (id : ℕ) (pem : Bytes) (b : Admin C T)
      → T.ders.get b.uids (C.get_der pem) ≡ none
      → has_cert C (C.get_der pem) (b.objects id).certs ≡ false
      → add_user_cert id pem b ≡ (ok tt, with_cert id pem b)
  unfolding add_user_cert
  add_user_cert-new id pem b unused new = rw (unused, new, add_user_cert) refl

  -- The state that changing the certificate leaves in memory.
  change_cert-eq :
      (name : Bytes) (id c : ℕ) (s : Bytes) {a : Admin C T}
      → IsValid a
      → T.names.get a.users_by_name name ≡ some id
      → T.ders.get a.uids (C.get_der (c ∷ s)) ≡ none
      → Gone (a.objects id).certs a (del_certs (a.objects id).certs a)
      → change_cert name (some (c ∷ s)) none a
        ≡ (ok tt, with_cert id (c ∷ s) (cleared id (del_certs (a.objects id).certs a).1))
  unfolding change_cert
  change_cert-eq name id c s {a} v at unused g =
      let b = cleared id (del_certs (a.objects id).certs a).1 in
      let added =
        add_user_cert-new id (c ∷ s) b (ground (arith, g.uids (C.get_der (c ∷ s)), unused))
          (ground arith) in
      let pem : change_pem id (some (c ∷ s)) a ≡ (ok tt, with_cert id (c ∷ s) b) =
        rw (then_do_ok, g.result) added in
      rw (at, change_cert) (rw pem refl)

  -- Giving a listed user, who is unchanged so far, a certificate that is not in use, and no
  -- password, returns; after the commit `uids` leads from the certificate to the user, but the
  -- stored user has just the certificates from before, and not this one.
  pub change_cert_lost :
      (name : Bytes) (id c : ℕ) (s : Bytes) {a : Admin C T}
      → IsValid a
      → T.names.get a.users_by_name name ≡ some id
      → a.changed id ≡ false
      → T.ders.get a.uids (C.get_der (c ∷ s)) ≡ none
      → (let out = change_cert name (some (c ∷ s)) none a in
          let stored = committed a out.1 in
          (out.0 ≡ ok tt)
          × (T.ders.get stored.uids (C.get_der (c ∷ s)) ≡ some (some id))
          × ((stored.objects id).certs ≡ (a.objects id).certs)
          × (has_cert C (C.get_der (c ∷ s)) (stored.objects id).certs ≡ false))
  unfolding change_cert del_certs add_user_cert
  change_cert_lost name id c s {a} v at unchanged unused =
      let der = C.get_der (c ∷ s) in
      let known : is_some (T.ids.get a.users id) ≡ true = (v.named name id at).0 in
      let g : Gone (a.objects id).certs a (del_certs (a.objects id).certs a) =
        del_certs-Gone (a.objects id).certs a (v.unique id known) (present id known v) in
      let b = cleared id (del_certs (a.objects id).certs a).1 in
      let changed : b.changed id ≡ false = ap (λ (f : ℕ → Bool). f id) g.changed ∙ unchanged in
      let put = T.ders.get-put b.uids der (some (b.objects id).id) der in
      let own : (b.objects id).id ≡ id = ground (arith, g.objects, v.own_id id known) in
      let ran = change_cert-eq name id c s v at unused g in
      rw ran (
        refl,
        put ∙ if_pos (T.ders.dec der der) refl _ _ ∙ ap (λ u. some (some u)) own,
        rw changed refl,
        rw changed (ground (arith, known, unused, v.held der id)),
      )
