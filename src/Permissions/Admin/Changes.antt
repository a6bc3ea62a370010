-- ===== src/Permissions/Admin/Changes.antt =====
-- Adding, deleting and changing users keeps the admin's indexes in agreement
-- (permissions/base.py).
use zerodb.Common.{
  ℕ, ◌≡◌, refl, true, false, Option, none, some, [], ◌∷◌, is_some, ◌==◌, arith, Bool-cases, inl,
  inr, Option-cases, subst, sym,
}
use zerodb.Common.Bytes.{Bytes}
use zerodb.Common.Result.{ok}
use zerodb.Permissions.User.{Crypto, User, new_user}
use zerodb.Permissions.Admin.{
  Trees, Admin, write, mark, has_cert, new_admin, add_user, del_id, del_user,
}
use zerodb.Permissions.Admin.Invariant.{
  points, HasUniqueCerts, IsValid, Gone, del_certs-Gone, add_user_cert-IsValid,
}

module _ {C : Crypto} {T : Trees C} where
  -- A new admin knows no user, and the nobody certificate is nobody's.
  pub new_admin-IsValid :
      (nobody_pem : Bytes) (objects : ℕ → User C)
      → IsValid (new_admin {T = T} nobody_pem objects)
        × (T.ders.get (new_admin {T = T} nobody_pem objects).uids (C.get_der nobody_pem)
            ≡ some none)
  unfolding new_admin
  new_admin-IsValid pem objects = (
    record {
      held = λ d u. ground (
        arith,
        T.ids.get-empty Unit u,
        T.ders.get-empty (Option ℕ) d,
        T.ders.get-put (T.ders.empty (Option ℕ)) (C.get_der pem) none d,
      );
      own_id = λ u. ground (arith, T.ids.get-empty Unit u);
      unique = λ u h. absurd (ground (arith, T.ids.get-empty Unit u));
      named = λ n u. ground (arith, T.names.get-empty ℕ n);
    },
    ground (arith, T.ders.get-put (T.ders.empty (Option ℕ)) (C.get_der pem) none (C.get_der pem)),
  )

  -- the state before the certificate is added
  abbrev added : Bytes → ℕ → User C → Admin C T → Admin C T
  added uname root user a = record a {
    users = T.ids.put a.users root tt;
    users_by_name = T.names.put a.users_by_name uname root;
    objects = write a.objects root user;
    changed = mark root true a.changed;
  }

  added-IsValid :
      (uname : Bytes) (root : ℕ) (user : User C) {a : Admin C T}
      → T.ids.get a.users root ≡ none
      → user.name ≡ uname
      → user.id ≡ root
      → user.certs ≡ []
      → IsValid a
      → IsValid (added uname root user a)
  added-IsValid uname root user {a} fresh n i c v = record {
    held = λ d u. ground (arith, fresh, c, v.held d u, T.ids.get-put a.users root tt u);
    own_id = λ u. ground (arith, i, v.own_id u, T.ids.get-put a.users root tt u);
    unique = λ u h. elim (Bool-cases (root == u)) [
      | inl b ↦ rw (b, c) tt
      | inr b ↦ rw b (v.unique u (ground (arith, b, h, T.ids.get-put a.users root tt u)))
    ];
    named = λ m u. ground (
      arith,
      fresh,
      n,
      v.named m u,
      T.ids.get-put a.users root tt u,
      T.names.get-put a.users_by_name uname root m,
    );
  }

  -- Adding a user under a fresh oid, with a certificate or none, keeps the indexes in agreement,
  -- also where it raises.
  pub add_user-IsValid :
      (uname : Bytes) (root : ℕ) (pem_data password : Option Bytes) (salt : Bytes) {a : Admin C T}
      → T.ids.get a.users root ≡ none
      → IsValid a
      → IsValid (add_user uname root pem_data password salt a).1
  unfolding add_user new_user
  add_user-IsValid uname root pem_data password salt {a} fresh v =
      go pem_data (added-IsValid uname root user fresh refl refl refl v)
    where
      user : User C
      user = new_user C uname root (C.security uname password) salt

      go :
          (p : Option Bytes)
          → IsValid (added uname root user a)
          → IsValid (add_user uname root p password salt a).1
      go none h = h
      go (some []) h = h
      go (some (c ∷ s)) h =
          add_user_cert-IsValid root (c ∷ s) (ground (arith, T.ids.get-put a.users root tt root)) h

  -- the certificates of a user are all in `uids`
  pub present :
      (id : ℕ) {a : Admin C T}
      → is_some (T.ids.get a.users id) ≡ true
      → IsValid a
      → (d : C.Der) → has_cert C d (a.objects id).certs ≡ true
      → is_some (T.ders.get a.uids d) ≡ true
  present id {a} known v d h = ground (arith, v.held d id)

  -- the state of `del_user` before the certificates go
  abbrev pub unlisted : Bytes → ℕ → Admin C T → Admin C T
  unlisted name id a = record a {
    users_by_name = T.names.del a.users_by_name name;
    users = T.ids.del a.users id;
  }

  del_user-Gone :
      (name : Bytes) (id : ℕ) {a : Admin C T}
      → T.names.get a.users_by_name name ≡ some id
      → IsValid a
      → Gone (a.objects id).certs (unlisted name id a) (del_user name a)
  unfolding del_user
  del_user-Gone name id {a} e v =
      let known = (v.named name id e).0 in
      let g =
        del_certs-Gone (a.objects id).certs (unlisted name id a) (v.unique id known)
          (present id known v) in
      elim (Option-cases (T.ids.get a.users id)) [
        | inl f ↦ absurd (ground (arith, f, known))
        | inr (w, f) ↦ rw (e, del_user) (rw (f, del_id) g)
      ]

  -- Where the indexes agree, deleting a user by a name that is there does not raise and keeps
  -- them in agreement.
  pub del_user-IsValid :
      (name : Bytes) (id : ℕ) {a : Admin C T}
      → T.names.get a.users_by_name name ≡ some id
      → IsValid a
      → ((del_user name a).0 ≡ ok tt) × IsValid (del_user name a).1
  del_user-IsValid name id {a} e v =
      let g = del_user-Gone name id e v in
      let known = (v.named name id e).0 in
      (
        g.result,
        record {
          held = λ d u. ground (
            arith,
            g.uids d,
            g.users,
            g.objects,
            known,
            v.held d u,
            v.held d id,
            T.ids.get-del a.users id u,
          );
          own_id = λ u. ground (arith, g.users, g.objects, v.own_id u, T.ids.get-del a.users id u);
          unique = λ u h.
              subst (λ (o : ℕ → User C). HasUniqueCerts C (o u).certs) (sym g.objects)
                (v.unique u (ground (arith, g.users, h, T.ids.get-del a.users id u)));
          named = λ n u. ground (
            arith,
            g.users,
            g.objects,
            g.users_by_name,
            v.named n u,
            v.named name id,
            e,
            T.ids.get-del a.users id u,
            T.names.get-del a.users_by_name name n,
          );
        },
      )

  -- After the deletion no certificate leads to the user, who is listed no more.
  pub del_user_lem :
      (name : Bytes) (id : ℕ) (d : C.Der) {a : Admin C T}
      → T.names.get a.users_by_name name ≡ some id
      → IsValid a
      → (points (T.ders.get (del_user name a).1.uids d) id ≡ false)
        × (T.ids.get (del_user name a).1.users id ≡ none)
        × (T.names.get (del_user name a).1.users_by_name name ≡ none)
  del_user_lem name id d {a} e v =
      let g = del_user-Gone name id e v in
      let known = (v.named name id e).0 in
      ground (
        arith,
        g.uids d,
        g.users,
        g.users_by_name,
        known,
        v.held d id,
        T.ids.get-del a.users id id,
        T.names.get-del a.users_by_name name name,
      )
