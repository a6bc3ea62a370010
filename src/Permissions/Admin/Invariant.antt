-- ===== src/Permissions/Admin/Invariant.antt =====
-- The admin's indexes agree: a certificate leads to exactly the user that holds it, a name to a
-- user of that name; and what removing certificates does (permissions/base.py).
use zerodb.Common.{
  ℕ, ◌≡◌, refl, Bool, true, false, ◌||◌, ◌&&◌, Option, none, some, List, [], ◌∷◌, is_some,
  if◌then◌else◌, ◌==◌, arith, Bool-cases, inl, inr, if_pos,
}
use zerodb.Common.Bytes.{Bytes}
use zerodb.Common.Result.{ok}
use zerodb.Permissions.User.{Crypto, certs_remove}
use zerodb.Permissions.Admin.{Trees, Admin, Outcome, has_cert, add_user_cert, del_certs}

-- the entry of `uids` names this user
abbrev pub points : Option (Option ℕ) → ℕ → Bool
points none u = false
points (some none) u = false
points (some (some v)) u = v == u

abbrev pub HasUniqueCerts : (C : Crypto) → List (C.Der × Bytes) → Type 0
HasUniqueCerts C [] = Unit
HasUniqueCerts C ((d, pem) ∷ l) = (has_cert C d l ≡ false) × HasUniqueCerts C l

pub record IsValid {C : Crypto} {T : Trees C} (a : Admin C T) : Type 0 where
  pub held :
      (d : C.Der) (u : ℕ)
      → points (T.ders.get a.uids d) u
        ≡ (is_some (T.ids.get a.users u) && has_cert C d (a.objects u).certs)
  pub own_id : (u : ℕ) → is_some (T.ids.get a.users u) ≡ true → (a.objects u).id ≡ u
  pub unique : (u : ℕ) → is_some (T.ids.get a.users u) ≡ true → HasUniqueCerts C (a.objects u).certs
  pub named :
      (n : Bytes) (u : ℕ)
      → T.names.get a.users_by_name n ≡ some u
      → (is_some (T.ids.get a.users u) ≡ true) × ((a.objects u).name ≡ n)

-- What `_del_user_certs` leaves: the certificates of the list are gone from `uids`.
pub record Gone {C : Crypto} {T : Trees C} (l : List (C.Der × Bytes)) (a : Admin C T)
    (out : Outcome C T) : Type 0 where
  pub result : out.0 ≡ ok tt
  pub uids :
      (d : C.Der) → T.ders.get out.1.uids d ≡ (if has_cert C d l then none else T.ders.get a.uids d)
  pub users : out.1.users ≡ a.users
  pub users_by_name : out.1.users_by_name ≡ a.users_by_name
  pub objects : out.1.objects ≡ a.objects
  pub changed : out.1.changed ≡ a.changed

module _ {C : Crypto} {T : Trees C} where
  -- With all of its certificates in `uids`, `_del_user_certs` does not raise.
  pub del_certs-Gone :
      (l : List (C.Der × Bytes)) (a : Admin C T)
      → HasUniqueCerts C l
      → ((d : C.Der) → has_cert C d l ≡ true → is_some (T.ders.get a.uids d) ≡ true)
      → Gone l a (del_certs l a)
  unfolding del_certs
  del_certs-Gone [] a u h = record {
    result = refl;
    uids = λ d. refl;
    users = refl;
    users_by_name = refl;
    objects = refl;
    changed = refl;
  }
  del_certs-Gone ((der, pem) ∷ l) a u h =
      let a1 : Admin C T = record a {
        uids = T.ders.del a.uids der;
        certs = certs_remove a.certs pem;
      } in
      let present : is_some (T.ders.get a.uids der) ≡ true =
        h der (if_pos (C.dec_der der der) refl _ _) in
      let g =
        del_certs-Gone l a1 u.1 (λ d m. ground (arith, h d, m, u.0, T.ders.get-del a.uids der d)) in
      rw (present, del_certs)
        (record {
          result = g.result;
          uids = λ d. ground (arith, g.uids d, T.ders.get-del a.uids der d);
          users = g.users;
          users_by_name = g.users_by_name;
          objects = g.objects;
          changed = g.changed;
        })

  -- Adding a certificate to a user, where it does not raise, keeps the indexes in agreement.
  pub add_user_cert-IsValid :
      (id : ℕ) (pem : Bytes) {a : Admin C T}
      → is_some (T.ids.get a.users id) ≡ true
      → IsValid a
      → IsValid (add_user_cert id pem a).1
  unfolding add_user_cert
  add_user_cert-IsValid id pem {a} known v =
      let der = C.get_der pem in
      elim (Bool-cases (is_some (T.ders.get a.uids der) || has_cert C der (a.objects id).certs)) [
        | inl b ↦ rw (b, add_user_cert) v
        | inr b ↦
            rw (b, add_user_cert)
              (record {
                held = λ d u. ground (
                  arith,
                  b,
                  known,
                  v.own_id id,
                  v.held d u,
                  T.ders.get-put a.uids der (some (a.objects id).id) d,
                );
                own_id = λ u. ground (arith, v.own_id u, v.own_id id);
                unique = λ u. ground (arith, b, v.unique u, v.unique id known);
                named = λ n u. ground (arith, v.named n u);
              })
      ]
