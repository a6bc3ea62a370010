-- ===== src/Transform/Tests.antt =====
-- A cipher that puts a byte before the data, a compressor that knows one text, and a storage that
-- is a function.
use zerodb.Common.{
  true, false, ℕ, ◌≡◌, refl, subst, arith, false, Option, none, some, [], ◌∷◌, if◌then◌else◌,
  some-inj,
}
use zerodb.Common.Bytes.{Bytes, bytes_eq, bytes_eq_iff, starts_with, has_byte}
use zerodb.Common.Result.{Result, ok, err, value_error}
use zerodb.Permissions.Tests.{memory}
use zerodb.Transform.Encrypt
use zerodb.Transform.Encrypt.{Encrypter}
use zerodb.Transform.Register
use zerodb.Transform.Register.{register, register_class, decrypt-register}
use zerodb.Transform.Compress
use zerodb.Transform.Compress.{
  Compressor, IsLossless, compress, decompress, decompress-compress, decompress_misread,
}
use zerodb.Transform.Storage.{
  Utilities, IsFaithful, load_before, store, load_before-store_transformed,
}

abbrev undo : Bytes → Result Bytes
undo [] = err value_error
undo (c ∷ s) = ok s

abbrev cipher : Encrypter
cipher = record { name = b'x' ∷ []; encrypt_data = λ iv s. 5 ∷ s; decrypt_data = undo }

abbrev ciphers : Encrypt.Registry
ciphers [] = some cipher
ciphers (c ∷ name) = if bytes_eq (c ∷ name) (b'x' ∷ []) then some cipher else none

-- what the compressor knows
abbrev long_text : Bytes
long_text = 1 ∷ 2 ∷ 3 ∷ 4 ∷ 5 ∷ 6 ∷ 7 ∷ 8 ∷ []

abbrev unpack : Bytes → Result Bytes
unpack [] = ok long_text
unpack (c ∷ s) = ok s

abbrev compressor : Compressor
compressor = record {
  name = b'z' ∷ [];
  compress_data = λ s. if bytes_eq s long_text then [] else 0 ∷ s;
  decompress_data = unpack;
}

abbrev compressors : Compress.Registry
compressors [] = some compressor
compressors (c ∷ name) = if bytes_eq (c ∷ name) (b'z' ∷ []) then some compressor else none

unpack_packed : (s : Bytes) → unpack (compressor.compress_data s) ≡ ok s
unpack_packed s = ground (arith, bytes_eq_iff s long_text)

compressors-IsLossless : IsLossless compressors
unfolding bytes_eq
compressors-IsLossless = record {
  same = λ c e. subst (λ (d : Compressor). compressors d.name ≡ some d) (some-inj e) refl;
  plain_name = λ c e. subst (λ (d : Compressor). has_byte d.name b'$' ≡ false) (some-inj e) refl;
  inverse = λ c s e.
      subst (λ (d : Compressor). d.decompress_data (d.compress_data s) ≡ ok s) (some-inj e)
        (unpack_packed s);
}

abbrev utilities : Utilities
utilities = record { encrypters = ciphers; compressors = compressors }

ciphers-IsFaithful : IsFaithful ciphers cipher
unfolding bytes_eq
ciphers-IsFaithful = record {
  default = refl;
  same = refl;
  plain_name = refl;
  inverse = λ iv s. refl;
}

load_before-store_transformed_example :
    (serial : ℕ) × (after : Option ℕ) × (load_before utilities memory
        (0 ∷ [])
        (store utilities memory (0 ∷ []) (λ o. none) (0 ∷ []) 3 (9 ∷ []) long_text)
        (0 ∷ [])
        1
      ≡ ok (long_text, serial, after))
unfolding starts_with
load_before-store_transformed_example =
    load_before-store_transformed utilities cipher ciphers-IsFaithful compressors-IsLossless memory
      (0 ∷ []) (λ o. none) (0 ∷ []) 3 (9 ∷ []) long_text refl

abbrev no_utilities : Register.Utilities
no_utilities = record { encrypters = λ name. none; default_class = none }

abbrev registered : Encrypt.Registry
registered = (register (4 ∷ []) cipher (register_class (4 ∷ []) true no_utilities)).encrypters

decrypt-register_example :
    Encrypt.decrypt registered (Encrypt.encrypt registered false (9 ∷ []) (1 ∷ 2 ∷ []))
    ≡ ok (1 ∷ 2 ∷ [])
decrypt-register_example =
    decrypt-register (4 ∷ []) cipher no_utilities false (9 ∷ []) (1 ∷ 2 ∷ []) refl refl
