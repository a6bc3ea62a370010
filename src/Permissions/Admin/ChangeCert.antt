-- ===== src/Permissions/Admin/ChangeCert.antt =====
-- `change_cert` keeps the admin's indexes in agreement (permissions/base.py).
use zerodb.Common.{
  ℕ, ◌≡◌, refl, true, Option, none, some, [], ◌∷◌, is_some, ◌==◌, arith, Bool-cases, inl, inr,
  subst, sym,
}
use zerodb.Common.Bytes.{Bytes}
use zerodb.Common.Result.{ok, err}
use zerodb.Permissions.User.{Crypto, User, change_password}
use zerodb.Permissions.Admin.{
  Trees, Admin, Outcome, write, add_user_cert, del_certs, then_do, set_user, change_pem,
  change_cert,
}
use zerodb.Permissions.Admin.Invariant.{
  HasUniqueCerts, IsValid, Gone, del_certs-Gone, add_user_cert-IsValid,
}
use zerodb.Permissions.Admin.Changes.{present}

change_password_same :
    {C : Crypto} (p : Option Bytes) (user : User C)
    → ((change_password C p user).1.certs ≡ user.certs)
      × ((change_password C p user).1.id ≡ user.id)
      × ((change_password C p user).1.name ≡ user.name)
unfolding change_password
change_password_same none user = ground arith
change_password_same (some []) user = ground arith
change_password_same (some (c ∷ p)) user = ground arith

module _ {C : Crypto} {T : Trees C} where
  pub then_do_ok :
      (out : Outcome C T) (f : Admin C T → Outcome C T) → out.0 ≡ ok tt → then_do out f ≡ f out.1
  then_do_ok (ok tt, a) f h = refl
  then_do_ok (err e, a) f h = cc

  abbrev pub cleared : ℕ → Admin C T → Admin C T
  cleared id a = record a { objects = write a.objects id (record (a.objects id) { certs = [] }) }

  cleared-IsValid :
      (id : ℕ) {a : Admin C T} (out : Outcome C T)
      → is_some (T.ids.get a.users id) ≡ true
      → IsValid a
      → Gone (a.objects id).certs a out
      → IsValid (cleared id out.1)
  cleared-IsValid id {a} out known v g = record {
    held = λ d u. ground (arith, g.uids d, g.users, g.objects, known, v.held d u, v.held d id);
    own_id = λ u. ground (arith, g.users, g.objects, v.own_id u);
    unique = λ u h. elim (Bool-cases (id == u)) [
      | inl b ↦ rw b tt
      | inr b ↦ rw b (
          subst (λ (o : ℕ → User C). HasUniqueCerts C (o u).certs) (sym g.objects)
            (v.unique u (ground (arith, g.users, h))))
    ];
    named = λ n u. ground (arith, g.users, g.objects, g.users_by_name, v.named n u);
  }

  -- still a user of the admin, and the indexes agree
  abbrev Keeps : Bytes → ℕ → Admin C T → Type 0
  Keeps name id a = IsValid a × (T.names.get a.users_by_name name ≡ some id)

  add_user_cert-names :
      (id : ℕ) (pem : Bytes) (a : Admin C T)
      → (add_user_cert id pem a).1.users_by_name ≡ a.users_by_name
  unfolding add_user_cert
  add_user_cert-names id pem a = ground arith

  add_user_cert-Keeps :
      (name : Bytes) (id : ℕ) (pem : Bytes) {a : Admin C T}
      → Keeps name id a
      → Keeps name id (add_user_cert id pem a).1
  add_user_cert-Keeps name id pem {a} h = (
    add_user_cert-IsValid id pem (h.0.named name id h.1).0 h.0,
    rw (add_user_cert-names id pem a) h.1,
  )

  change_pem-Keeps :
      (name : Bytes) (id : ℕ) (pem : Option Bytes) {a : Admin C T}
      → Keeps name id a
      → Keeps name id (change_pem id pem a).1
  unfolding del_certs
  change_pem-Keeps name id none h = h
  change_pem-Keeps name id (some pem) {a} h = go pem
    where
      known : is_some (T.ids.get a.users id) ≡ true
      known = (h.0.named name id h.1).0

      g : Gone (a.objects id).certs a (del_certs (a.objects id).certs a)
      g = del_certs-Gone (a.objects id).certs a (h.0.unique id known) (present id known h.0)

      k : Keeps name id (cleared id (del_certs (a.objects id).certs a).1)
      k = (cleared-IsValid id _ known h.0 g, rw g.users_by_name h.1)

      go : (p : Bytes) → Keeps name id (change_pem id (some p) a).1
      go [] = rw (then_do_ok, g.result) k
      go (c ∷ s) = rw (then_do_ok, g.result) (add_user_cert-Keeps name id (c ∷ s) k)

  set_user-Keeps :
      (name : Bytes) (id : ℕ) (p : Option Bytes) {a : Admin C T}
      → Keeps name id a
      → Keeps name id (set_user id p a).1
  set_user-Keeps name id p {a} (v, e) =
      let user = (change_password C p (a.objects id)).1 in
      let same = change_password_same p (a.objects id) in
      (
        record {
          held = λ d u. ground (arith, same, v.held d u);
          own_id = λ u. ground (arith, same, v.own_id u);
          unique = λ u h. elim (Bool-cases (id == u)) [
            | inl b ↦ rw (b, same.0) (v.unique id (ground (arith, b, h)))
            | inr b ↦ rw b (v.unique u h)
          ];
          named = λ n u. ground (arith, same, v.named n u);
        },
        e,
      )

  -- Where the indexes agree, `change_cert` of a listed name keeps them in agreement, whatever
  -- certificate and password are given, and also where it raises: in the memory of the
  -- connection that makes the change, whatever a commit stores of it.
  pub change_cert-IsValid :
      (name : Bytes) (id : ℕ) (pem_data password : Option Bytes) {a : Admin C T}
      → T.names.get a.users_by_name name ≡ some id
      → IsValid a
      → IsValid (change_cert name pem_data password a).1
  unfolding change_cert
  change_cert-IsValid name id pem_data password {a} e v =
      rw (e, change_cert)
        (after (change_pem id pem_data a) (change_pem-Keeps name id pem_data (v, e)) password)
    where
      set : Option Bytes → Admin C T → Outcome C T
      set password a1 = elim password [
        | none ↦ (ok tt, a1)
        | some p ↦ set_user id (C.security name (some p)) a1
      ]

      after :
          (out : Outcome C T)
          → Keeps name id out.1
          → (p : Option Bytes) → IsValid (then_do out (set p)).1
      after (err x, b) k p = k.0
      after (ok tt, b) k none = k.0
      after (ok tt, b) k (some p) = (set_user-Keeps name id (C.security name (some p)) k).0
