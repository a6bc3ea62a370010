-- ===== src/Crypto/Tests.antt =====
-- Key derivation, with hashes that only put their arguments together.
use zerodb.Common.{◌≡◌, refl, Option, none, some, [], ◌∷◌, ◌++◌}
use zerodb.Common.Bytes.{Bytes}
use zerodb.Common.Result.{ok}
use zerodb.Crypto.Kdf.{Hashes, Arguments, key_from_password, hash_password, run, guess, run_agree}

abbrev hashes : Hashes
hashes = record { scrypt_hash = λ p s. p ++ s; sha256 = λ s. 0 ∷ s; read_file = λ f. 1 ∷ f }

abbrev arguments : Option Bytes → Arguments
arguments key = record {
  username = 5 ∷ [];
  password = some (7 ∷ []);
  key_file = some (9 ∷ []);
  appname = 3 ∷ [];
  key = key;
}

run_agree_example :
    (key : Option Bytes) × (run hashes hash_password (arguments (some (2 ∷ [])))
      ≡ ok (
        some (
            hashes.sha256 (
              hashes.scrypt_hash (7 ∷ []) (5 ∷ b'|' ∷ 3 ∷ b'|' ∷ b'k' ∷ b'e' ∷ b'y' ∷ [])
              ++ (b'a' ∷ b'u' ∷ b't' ∷ b'h' ∷ []))),
        key,
      ))
run_agree_example =
    run_agree hashes (arguments (some (2 ∷ []))) 7 [] (9 ∷ []) refl refl hash_password

guess_test : guess hashes (arguments none) ≡ ok key_from_password
unfolding guess
guess_test = refl
