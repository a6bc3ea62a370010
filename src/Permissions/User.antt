-- ===== src/Permissions/User.antt =====
-- permissions/base.py: `User` and `Certs`. Certificates' DER forms, hashes and salts are those of
-- other packages, and parameters.
use zerodb.Common.{
  ℕ, zero, suc, ◌-◌, Bool, true, false, Option, none, some, List, [], ◌∷◌, ◌++◌, if◌then◌else◌,
  length,
}
use zerodb.Common.Bytes.{Bytes, bytes_eq, starts_with}
use zerodb.Common.Result.{Result, ok, err, attribute_error}

-- A PEM text, a name and a password are strings; `None` is `none`.
pub record Crypto : Type 1 where
  pub Der : Type 0
  pub dec_der : Discrete Der
  pub get_der : Bytes → Der
  pub hash_password : Bytes → Bytes → Bytes
  -- `security`: `kdf.hash_password`, or what the caller passes
  pub security : Bytes → Option Bytes → Option Bytes

pub record User (C : Crypto) : Type 0 where
  pub name : Bytes
  pub id : ℕ
  pub certs : List (C.Der × Bytes)
  pub salt : Option Bytes
  pub password : Option Bytes

abbrev pub is_truthy : Option Bytes → Bool
is_truthy none = false
is_truthy (some []) = false
is_truthy (some (c ∷ s)) = true

module _ (C : Crypto) where
  -- a salt is made only for a password
  abbrev salted : Option Bytes → Bytes → Option Bytes × Option Bytes
  salted none salt = (none, none)
  salted (some []) salt = (none, none)
  salted (some (c ∷ p)) salt = (some salt, some (C.hash_password (c ∷ p) salt))

  unfoldable pub new_user : Bytes → ℕ → Option Bytes → Bytes → User C
  new_user name root password salt = record {
    name = name;
    id = root;
    certs = [];
    salt = (salted password salt).0;
    password = (salted password salt).1;
  }

  abbrev compare_password : Option Bytes → Option Bytes → Bytes → Result Bool
  compare_password none stored password = err attribute_error
  compare_password (some salt) none password = ok false
  compare_password (some salt) (some stored) password =
      ok (bytes_eq (C.hash_password password salt) stored)

  -- a user made with no password has no attribute `salt`
  unfoldable pub check_password : User C → Bytes → Result Bool
  check_password user password = compare_password user.salt user.password password

  abbrev rehash : Option Bytes → Bytes → User C → Result (Unit {0}) × User C
  rehash none password user = (err attribute_error, user)
  rehash (some salt) password user =
      (ok tt, record user { password = some (C.hash_password password salt) })

  unfoldable pub change_password : Option Bytes → User C → Result (Unit {0}) × User C
  change_password none user = (ok tt, user)
  change_password (some []) user = (ok tt, record user { password = none })
  change_password (some (c ∷ p)) user = rehash user.salt (c ∷ p) user

-- `Certs`: a text, from which a certificate is removed by `str.replace` with the empty string.
abbrev pub separator : Bytes
separator = 10 ∷ 10 ∷ []

-- each place where `part` (not empty) stands is left out; `skip` characters of it are still to go
unfoldable pub replace_from : ℕ → Bytes → Bytes → Bytes
replace_from skip part [] = []
replace_from (suc skip) part (c ∷ s) = replace_from skip part s
replace_from zero part (c ∷ s) =
    let out = replace_from (length part - 1) part s in
    let keep = replace_from zero part s in if starts_with (c ∷ s) part then out else c ∷ keep

unfoldable pub certs_add : Bytes → Bytes → Bytes
certs_add text pem = text ++ (separator ++ pem)

unfoldable pub certs_remove : Bytes → Bytes → Bytes
unfolding replace_from
certs_remove text pem = replace_from zero (separator ++ pem) text
