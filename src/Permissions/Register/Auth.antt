-- ===== src/Permissions/Register/Auth.antt =====
-- Who is let in by `register` (permissions/subdb.py).
use zerodb.Common.{
  ℕ, ◌≡◌, ◌≢◌, refl, Bool, true, false, Option, none, some, if◌then◌else◌, inl, inr, arith, ap,
  Bool-cases, sym, ◌∙◌,
}
use zerodb.Common.Bytes.{Bytes}
use zerodb.Common.Result.{ok, err, ◌>>=◌, >>=-eq-ok, ok-injective, auth_error}
use zerodb.Permissions.User.{Crypto, User, check_password}
use zerodb.Permissions.Admin.{Trees, Admin, del_user}
use zerodb.Permissions.Admin.Invariant.{IsValid, points}
use zerodb.Permissions.Admin.Changes.{del_user-IsValid, del_user_lem}
use zerodb.Permissions.Register.{Credentials, or_key_error, is_other, check_user, log_in, register}

or_key_error-eq-ok : {A : Type 0} (o : Option A) (x : A) → or_key_error o ≡ ok x → o ≡ some x
or_key_error-eq-ok none x h = cc
or_key_error-eq-ok (some y) x h = ap some (ok-injective h)

check_user-eq-ok :
    {C : Crypto} (user_id : Option ℕ) (password : Bytes) (user : User C) (u : ℕ)
    → check_user user_id password user ≡ ok u
    → (user.id ≡ u) × (check_password C user password ≡ ok true) × (is_other user_id user ≡ false)
check_user-eq-ok {C} user_id password user u h = elim (Bool-cases (is_other user_id user)) [
  | inl b ↦ absurd (cc (h, b))
  | inr b ↦
      let (right, checked, rest) =
        >>=-eq-ok (check_password C user password)
          (λ right. if right then ok user.id else err auth_error) (rw b at h) in
      go right checked rest b
]
  where
    go :
        (right : Bool)
        → check_password C user password ≡ ok right
        → (if right then ok user.id else err auth_error) ≡ ok u
        → is_other user_id user ≡ false
        → (user.id ≡ u)
          × (check_password C user password ≡ ok true)
          × (is_other user_id user ≡ false)
    go true e r b = (ok-injective r, e, b)
    go false e r b = absurd (cc)

is_other-eq-false :
    {C : Crypto} (user_id : Option ℕ) (user : User C) (v : ℕ)
    → is_other user_id user ≡ false
    → user_id ≡ some v
    → user.id ≡ v
is_other-eq-false none user v h e = absurd (cc)
is_other-eq-false (some w) user v h e = ground arith

module _ {C : Crypto} {T : Trees C} where
  -- The credentials name a user with this id and carry its password.
  abbrev pub IsKnown : Admin C T → Credentials → ℕ → Type 0
  IsKnown a c u =
      (id : ℕ) × (T.names.get a.users_by_name c.name ≡ some id)
      × ((a.objects id).id ≡ u)
      × (check_password C (a.objects id) c.password ≡ ok true)

  log_in-eq-ok :
      (user_id : Option ℕ) (c : Credentials) (a : Admin C T) (u : ℕ)
      → log_in user_id (some c) a ≡ ok u
      → IsKnown a c u × ((v : ℕ) → user_id ≡ some v → v ≡ u)
  log_in-eq-ok user_id c a u h =
      let (id, found, rest) =
        >>=-eq-ok (or_key_error (T.names.get a.users_by_name c.name))
          (λ id. check_user user_id c.password (a.objects id)) (same user_id ∙ h) in
      let (own, checked, other) = check_user-eq-ok user_id c.password (a.objects id) u rest in
      (
        (id, or_key_error-eq-ok (T.names.get a.users_by_name c.name) id found, own, checked),
        λ v e. sym (is_other-eq-false user_id (a.objects id) v other e) ∙ own,
      )
    where
      same :
          (o : Option ℕ)
          → (or_key_error (T.names.get a.users_by_name c.name) >>= λ id.
              check_user o c.password (a.objects id))
            ≡ log_in o (some c) a
      same none = refl
      same (some v) = refl

  -- How a connection may have come to the user id `u`.
  pub data Entered (a : Admin C T) (der : C.Der) (u : ℕ) : Option Credentials → Type 0 where
    by_cert : T.ders.get a.uids der ≡ some (some u) → Entered a der u none
    by_both :
        {c : Credentials}
        → T.ders.get a.uids der ≡ some (some u)
        → IsKnown a c u
        → Entered a der u (some c)
    by_password :
        {c : Credentials}
        → T.ders.get a.uids der ≡ some none
        → IsKnown a c u
        → Entered a der u (some c)

  enter :
      (der : C.Der) (credentials : Option Credentials) (a : Admin C T) (u : ℕ) (o : Option ℕ)
      → T.ders.get a.uids der ≡ some o
      → log_in o credentials a ≡ ok u
      → Entered a der u credentials
  enter der none a u none e h = absurd (cc)
  enter der none a u (some v) e h = by_cert (e ∙ ap (λ (x : ℕ). some (some x)) (ok-injective h))
  enter der (some c) a u none e h = by_password e (log_in-eq-ok none c a u h).0
  enter der (some c) a u (some v) e h =
      let (known, same) = log_in-eq-ok (some v) c a u h in
      by_both (e ∙ ap (λ (x : ℕ). some (some x)) (same v refl)) known

  -- Whoever is let in as `u` has a certificate registered to `u`, or the nobody certificate and
  -- credentials; credentials, where given, name a user with the id `u` and match its password.
  pub register-Entered :
      (der : C.Der) (credentials : Option Credentials) (a : Admin C T) (u : ℕ)
      → register der credentials a ≡ ok u
      → Entered a der u credentials
  unfolding register
  register-Entered der credentials a u h =
      let (o, found, rest) =
        >>=-eq-ok (or_key_error (T.ders.get a.uids der)) (λ o. log_in o credentials a) h in
      enter der credentials a u o (or_key_error-eq-ok (T.ders.get a.uids der) o found) rest

  -- Where the admin's indexes agree, a user who was deleted by name is not let in again, by a
  -- certificate or by a password.
  pub register-del_user :
      (name : Bytes) (id : ℕ) (der : C.Der) (credentials : Option Credentials) {a : Admin C T}
      → T.names.get a.users_by_name name ≡ some id
      → IsValid a
      → register der credentials (del_user name a).1 ≢ ok id
  register-del_user name id der credentials {a} e v h =
      gone credentials (register-Entered der credentials (del_user name a).1 id h)
    where
      lem :
          (points (T.ders.get (del_user name a).1.uids der) id ≡ false)
          × (T.ids.get (del_user name a).1.users id ≡ none)
          × (T.names.get (del_user name a).1.users_by_name name ≡ none)
      lem = del_user_lem name id der e v

      v' : IsValid (del_user name a).1
      v' = (del_user-IsValid name id e v).1

      gone : (c : Option Credentials) → Entered (del_user name a).1 der id c → ⊥
      gone none (by_cert at) = ground (arith, at, lem.0)
      gone (some c) (by_both at known) = ground (arith, at, lem.0)
      gone (some c) (by_password at (i, named, own, right)) =
          ground (arith, v'.named c.name i named, v'.own_id i, own, lem.1)
