-- ===== src/Permissions/Register.antt =====
-- permissions/subdb.py: `ZEOStorage.register`, by which a connection is tied to a user, and
-- `StorageServer.invalidate`, which tells a user's connections of its changes.
pub mod Auth
pub mod Invalidate
use zerodb.Common.{ℕ, Bool, true, false, Option, none, some, not, ◌==◌, if◌then◌else◌}
use zerodb.Common.Bytes.{Bytes}
use zerodb.Common.Result.{Result, ok, err, ◌>>=◌, key_error, auth_error}
use zerodb.BTrees.{TreeModule}
use zerodb.Permissions.User.{Crypto, User, check_password}
use zerodb.Permissions.Admin.{Trees, Admin}

pub record Credentials : Type 0 where
  pub name : Bytes
  pub password : Bytes

abbrev pub or_key_error : {A : Type 0} → Option A → Result A
or_key_error none = err key_error
or_key_error (some a) = ok a

module _ {C : Crypto} where
  -- `user.id != self.user_id and self.user_id is not None`
  abbrev pub is_other : Option ℕ → User C → Bool
  is_other none user = false
  is_other (some user_id) user = not (user.id == user_id)

  abbrev pub check_user : Option ℕ → Bytes → User C → Result ℕ
  check_user user_id password user =
      if is_other user_id user
      then err auth_error
      else (do right ← check_password C user password; if right then ok user.id else err auth_error)

module _ {C : Crypto} {T : Trees C} where
  -- `der` is the peer's certificate, `user_id` what `uids` has for it
  abbrev pub log_in : Option ℕ → Option Credentials → Admin C T → Result ℕ
  log_in none none a = err auth_error
  log_in (some user_id) none a = ok user_id
  log_in user_id (some c) a = do
    id ← or_key_error (T.names.get a.users_by_name c.name)
    check_user user_id c.password (a.objects id)

  -- the user id that the connection's storage is wrapped with
  unfoldable pub register : C.Der → Option Credentials → Admin C T → Result ℕ
  register der credentials a = do
    user_id ← or_key_error (T.ders.get a.uids der)
    log_in user_id credentials a
