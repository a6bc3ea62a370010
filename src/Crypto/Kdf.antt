-- ===== src/Crypto/Kdf.antt =====
-- crypto/kdf.py: the functions that turn what a user gives into the password sent to the server
-- and the encryption key. scrypt, sha256 and the content of the key file are parameters.
use zerodb.Common.{ℕ, ◌≡◌, refl, Option, none, some, [], ◌∷◌, ◌++◌, arith, subst, sym, ◌∙◌}
use zerodb.Common.Bytes.{Bytes}
use zerodb.Common.Result.{Result, ok, err, ok-injective, attribute_error, type_error}

pub record Hashes : Type 0 where
  pub scrypt_hash : Bytes → Bytes → Bytes
  pub sha256 : Bytes → Bytes
  pub read_file : Bytes → Bytes

pub record Arguments : Type 0 where
  pub username : Bytes
  pub password : Option Bytes
  pub key_file : Option Bytes
  pub appname : Bytes
  pub key : Option Bytes

-- `password, key`
abbrev pub Derived : Type 0
Derived = Option Bytes × Option Bytes

-- the functions that `guess` chooses from
pub data Kdf : Type 0 where
  key_from_password key_from_cert hash_password : Kdf

module _ (H : Hashes) where
  -- `key_from_password`
  unfoldable pub from_password : Arguments → Result Derived
  from_password a = elim a.password [
    | none ↦ err type_error
    | some password ↦
        let key =
          H.scrypt_hash password
            (a.username ++ (b'|' ∷ (a.appname ++ (b'|' ∷ b'k' ∷ b'e' ∷ b'y' ∷ [])))) in
        let new_password = H.sha256 (key ++ (b'a' ∷ b'u' ∷ b't' ∷ b'h' ∷ [])) in
        ok (some new_password, some key)
  ]

  -- the password in `key_from_cert`
  unfoldable pub cert_password : Arguments → Option Bytes → Option Bytes
  cert_password a none = none
  cert_password a (some password) =
      let salt = a.username ++ (b'|' ∷ (a.appname ++ (b'|' ∷ b'k' ∷ b'e' ∷ b'y' ∷ []))) in
      let stretched = H.scrypt_hash password salt in
      some (H.sha256 (stretched ++ (b'a' ∷ b'u' ∷ b't' ∷ b'h' ∷ [])))

  -- `key_from_cert`
  unfoldable pub from_cert : Arguments → Result Derived
  unfolding cert_password
  from_cert a = elim a.key_file [
    | none ↦ err type_error
    | some file ↦ ok (cert_password a a.password, some (H.sha256 (H.read_file file)))
  ]

  -- the password in `hash_password`; an empty one is not hashed
  unfoldable pub hashed_password : Arguments → Option Bytes → Option Bytes
  hashed_password a none = none
  hashed_password a (some []) = some []
  hashed_password a (some (c ∷ password)) =
      let salt = a.username ++ (b'|' ∷ (a.appname ++ (b'|' ∷ b'k' ∷ b'e' ∷ b'y' ∷ []))) in
      let stretched = H.scrypt_hash (c ∷ password) salt in
      some (H.sha256 (stretched ++ (b'a' ∷ b'u' ∷ b't' ∷ b'h' ∷ [])))

  -- `hash_password`
  unfoldable pub hashed : Arguments → Result Derived
  unfolding hashed_password
  hashed a = ok (hashed_password a a.password, a.key)

  abbrev guess_without_key : Option Bytes → Option Bytes → Result Kdf
  guess_without_key (some password) key_file = ok key_from_password
  guess_without_key none (some file) = ok key_from_cert
  guess_without_key none none = err attribute_error

  unfoldable pub guess : Arguments → Result Kdf
  guess a = elim a.key [
    | none ↦ guess_without_key a.password a.key_file
    | some key ↦ ok hash_password
  ]

  abbrev pub run : Kdf → Arguments → Result Derived
  run key_from_password a = from_password a
  run key_from_cert a = from_cert a
  run hash_password a = hashed a

  -- With a key file and a password that is not empty, the three functions derive the same
  -- password for the server: the hash of the user's password under scrypt, with the user's and the
  -- application's name in the salt.
  pub run_agree :
      (a : Arguments) (c : ℕ) (password file : Bytes)
      → a.password ≡ some (c ∷ password)
      → a.key_file ≡ some file
      → (k : Kdf)
      → (key : Option Bytes) × (run k a
          ≡ ok (
            some (
                H.sha256 (
                  H.scrypt_hash
                    (c ∷ password)
                    (a.username ++ (b'|' ∷ (a.appname ++ (b'|' ∷ b'k' ∷ b'e' ∷ b'y' ∷ []))))
                  ++ (b'a' ∷ b'u' ∷ b't' ∷ b'h' ∷ []))),
            key,
          ))
  unfolding from_password from_cert hashed
  run_agree a c password file p f key_from_password = (
    some (
        H.scrypt_hash (c ∷ password)
          (a.username ++ (b'|' ∷ (a.appname ++ (b'|' ∷ b'k' ∷ b'e' ∷ b'y' ∷ []))))),
    rw (p) refl,
  )
  run_agree a c password file p f key_from_cert =
      (some (H.sha256 (H.read_file file)), rw (p, f) refl)
  run_agree a c password file p f hash_password = (a.key, rw (p) refl)

  -- What is guessed runs, and gives a key; without a key, a password or a key file nothing is
  -- guessed.
  pub run-guess :
      (a : Arguments) (k : Kdf)
      → guess a ≡ ok k
      → (password : Option Bytes) × (key : Bytes) × (run k a ≡ ok (password, some key))
  unfolding guess from_password from_cert hashed
  run-guess a k h = go a.key a.password a.key_file refl refl refl
    where
      ran : {d : Derived} (l : Kdf) → guess a ≡ ok l → run l a ≡ ok d → run k a ≡ ok d
      ran {d = d} l g r = subst (λ m. run m a ≡ ok d) (ok-injective (sym g ∙ h)) r

      go :
          (key password file : Option Bytes)
          → a.key ≡ key
          → a.password ≡ password
          → a.key_file ≡ file
          → (p : Option Bytes) × (l : Bytes) × (run k a ≡ ok (p, some l))
      go (some l) p f e1 e2 e3 =
          (hashed_password a p, l, ran hash_password (rw (e1) refl) (rw (e1, e2) refl))
      go none (some p) f e1 e2 e3 = (
        some (
            H.sha256 (
              H.scrypt_hash p
                (a.username ++ (b'|' ∷ (a.appname ++ (b'|' ∷ b'k' ∷ b'e' ∷ b'y' ∷ []))))
              ++ (b'a' ∷ b'u' ∷ b't' ∷ b'h' ∷ []))),
        H.scrypt_hash p (a.username ++ (b'|' ∷ (a.appname ++ (b'|' ∷ b'k' ∷ b'e' ∷ b'y' ∷ [])))),
        ran key_from_password (rw (e1, e2) refl) (rw (e2) refl),
      )
      go none none (some f) e1 e2 e3 = (
        none,
        H.sha256 (H.read_file f),
        ran key_from_cert (rw (e1, e2, e3) refl) (rw (e2, e3) refl),
      )
      go none none none e1 e2 e3 = absurd (ground (arith, h, e1, e2, e3))
