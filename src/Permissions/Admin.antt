-- ===== src/Permissions/Admin.antt =====
-- permissions/base.py: `Admin`. `users` and `users_by_name` hold the same user objects, so that
-- these stand in a heap by their id, the oid of the user's root folder.
pub mod Invariant
pub mod Changes
pub mod ChangeCert
pub mod Commit
use zerodb.Common.{
  ℕ, zero, suc, ◌+◌, ◌-◌, Bool, true, false, ◌||◌, Option, none, some, List, [], ◌∷◌, ◌++◌, ite,
  is_some, if◌then◌else◌, ◌==◌, length, drop,
}
use zerodb.Common.Bytes.{Bytes}
use zerodb.Common.Result.{Result, ok, err, key_error, value_error}
use zerodb.BTrees.{TreeModule}
use zerodb.Permissions.User.{
  Crypto, User, new_user, check_password, change_password, certs_add, certs_remove,
}

pub record Trees (C : Crypto) : Type 1 where
  pub ids : TreeModule ℕ
  pub names : TreeModule Bytes
  pub ders : TreeModule C.Der

-- `uids` maps the nobody certificate to `None`. `objects` is the heap of users, as the
-- connection sees them. `changed` are the users with an attribute that was set in the transaction:
-- a change within the dictionary `certs`, which is not persistent, does not count, and a commit
-- stores only these users.
pub record Admin (C : Crypto) (T : Trees C) : Type 0 where
  pub users : T.ids.Tree (Unit {0})
  pub users_by_name : T.names.Tree ℕ
  pub uids : T.ders.Tree (Option ℕ)
  pub certs : Bytes
  pub objects : ℕ → User C
  pub changed : ℕ → Bool

-- A method's result, and the state that it leaves, also where it raises.
abbrev pub Outcome : (C : Crypto) → Trees C → Type 0
Outcome C T = Result (Unit {0}) × Admin C T

module _ {C : Crypto} where
  abbrev pub write : (ℕ → User C) → ℕ → User C → ℕ → User C
  write objects id user j = if id == j then user else objects j

abbrev pub mark : ℕ → Bool → (ℕ → Bool) → ℕ → Bool
mark id b changed j = if id == j then b || changed j else changed j

-- `change_password` sets an attribute if it returns and there is a password.
abbrev pub sets_password : Option Bytes → Result (Unit {0}) → Bool
sets_password none r = false
sets_password (some p) (ok u) = true
sets_password (some p) (err e) = false

abbrev pub has_cert : (C : Crypto) → C.Der → List (C.Der × Bytes) → Bool
has_cert C der [] = false
has_cert C der ((d, pem) ∷ certs) = ite (C.dec_der d der) true (has_cert C der certs)

module _ {C : Crypto} {T : Trees C} where
  -- `__init__`, with the text of nobody.pem; `objects` holds no user yet
  unfoldable pub new_admin : Bytes → (ℕ → User C) → Admin C T
  unfolding certs_add
  new_admin nobody_pem objects = record {
    users = T.ids.empty Unit;
    users_by_name = T.names.empty ℕ;
    uids = T.ders.put (T.ders.empty (Option ℕ)) (C.get_der nobody_pem) none;
    certs = certs_add [] nobody_pem;
    objects = objects;
    changed = λ id. false;
  }

  -- `id` is that of the user object
  unfoldable pub add_user_cert : ℕ → Bytes → Admin C T → Outcome C T
  unfolding certs_add
  add_user_cert id pem a =
      let user = a.objects id in
      let der = C.get_der pem in
      if is_some (T.ders.get a.uids der) || has_cert C der user.certs
      then (err value_error, a)
      else (
        ok tt,
        record a {
          uids = T.ders.put a.uids der (some user.id);
          objects = write a.objects id (record user { certs = (der, pem) ∷ user.certs });
          certs = certs_add a.certs pem;
        },
      )

  -- the loop of `_del_user_certs`; `del self.uids[der]` raises `KeyError` where `der` is missing
  unfoldable pub del_certs : List (C.Der × Bytes) → Admin C T → Outcome C T
  unfolding certs_remove
  del_certs [] a = (ok tt, a)
  del_certs ((der, pem) ∷ l) a =
      let rest =
        del_certs l (record a { uids = T.ders.del a.uids der; certs = certs_remove a.certs pem }) in
      if is_some (T.ders.get a.uids der) then rest else (err key_error, a)

  abbrev pub then_do : Outcome C T → (Admin C T → Outcome C T) → Outcome C T
  then_do (ok u, a) f = f a
  then_do (err e, a) f = (err e, a)

  -- `root` is the oid of the new root folder
  unfoldable pub add_user :
      Bytes → ℕ → Option Bytes → Option Bytes → Bytes → Admin C T → Outcome C T
  unfolding new_user add_user_cert
  add_user uname root pem_data password salt a =
      let user = new_user C uname root (C.security uname password) salt in
      let a1 : Admin C T = record a {
        users = T.ids.put a.users root tt;
        users_by_name = T.names.put a.users_by_name uname root;
        objects = write a.objects root user;
        changed = mark root true a.changed;
      } in
      elim pem_data [
        | none ↦ (ok tt, a1)
        | some [] ↦ (ok tt, a1)
        | some (c ∷ pem) ↦ add_user_cert root (c ∷ pem) a1
      ]

  -- `del self.users[user.id]` raises where the user is not there any more
  abbrev del_id : ℕ → Admin C T → Outcome C T
  del_id id a = elim (T.ids.get a.users id) [
    | none ↦ (err key_error, a)
    | some _ ↦ (ok tt, record a { users = T.ids.del a.users id })
  ]

  unfoldable pub del_user : Bytes → Admin C T → Outcome C T
  unfolding del_certs
  del_user name a = elim (T.names.get a.users_by_name name) [
    | none ↦ (err key_error, a)
    | some id ↦
        then_do (del_id id (record a { users_by_name = T.names.del a.users_by_name name }))
          (λ a1. del_certs (a.objects id).certs a1)
  ]

  -- `user.change_password(password)`
  abbrev pub set_user : ℕ → Option Bytes → Admin C T → Outcome C T
  set_user id p a =
      let (r, user) = change_password C p (a.objects id) in
      (
        r,
        record a {
          objects = write a.objects id user;
          changed = mark id (sets_password p r) a.changed;
        },
      )

  -- the first half of `change_cert`; an empty text only removes; `user.certs.clear()` and the
  -- addition are changes in memory
  abbrev pub change_pem : ℕ → Option Bytes → Admin C T → Outcome C T
  change_pem id none a = (ok tt, a)
  change_pem id (some pem) a = then_do (del_certs (a.objects id).certs a) (λ a1.
      let a2 : Admin C T = record a1 {
        objects = write a1.objects id (record (a1.objects id) { certs = [] });
      } in
      elim pem [ [] ↦ (ok tt, a2) | c ∷ s ↦ add_user_cert id (c ∷ s) a2 ])

  unfoldable pub change_cert : Bytes → Option Bytes → Option Bytes → Admin C T → Outcome C T
  unfolding del_certs add_user_cert change_password
  change_cert name pem_data password a = elim (T.names.get a.users_by_name name) [
    | none ↦ (err key_error, a)
    | some id ↦ then_do (change_pem id pem_data a) (λ a1. elim password [
      | none ↦ (ok tt, a1)
      | some p ↦ set_user id (C.security name (some p)) a1
    ])
  ]

  -- What the database holds after the transaction's commit, as another connection reads it: `a0`
  -- is what it held before.
  abbrev pub committed : Admin C T → Admin C T → Admin C T
  committed a0 a = record a {
    objects = λ id. if a.changed id then a.objects id else a0.objects id;
    changed = λ id. false;
  }
