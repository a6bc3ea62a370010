-- ===== src/Transform/Register.antt =====
-- `register` of encrypters (transform/encrypt_common.py) and of compressors
-- (transform/compress_common.py), which decide what the registries hold.
use zerodb.Common.{◌≡◌, Bool, true, false, Option, none, some, [], arith, if◌then◌else◌}
use zerodb.Common.Bytes.{Bytes, bytes_eq, bytes_eq_refl}
use zerodb.Common.Result.{ok}
use zerodb.Transform.Encrypt
use zerodb.Transform.Encrypt.{Encrypter, encrypt, decrypt, decrypt-encrypt}
use zerodb.Transform.Compress.{Compressor}
use zerodb.Common.Bytes.{has_byte}

-- `registerUtility(utility, name=name)`, an empty name being the default
abbrev pub set_utility : {U : Type 0} → (Bytes → Option U) → Bytes → U → Bytes → Option U
set_utility registry name utility other =
    if bytes_eq name other then some utility else registry other

-- `default_class` is the class of encrypters that is registered without a name, by its name.
pub record Utilities : Type 0 where
  pub encrypters : Encrypt.Registry
  pub default_class : Option Bytes

-- `CommonEncrypter.register`, of an encrypter of a class
unfoldable pub register : Bytes → Encrypter → Utilities → Utilities
register class_name e u = elim u.default_class [
  | none ↦ u
  | some name ↦ record u {
    encrypters =
        set_utility
          (if bytes_eq name class_name then set_utility u.encrypters [] e else u.encrypters) e.name
          e;
  }
]

-- `register_class`
unfoldable pub register_class : Bytes → Bool → Utilities → Utilities
register_class class_name default u =
    if default then record u { default_class = some class_name } else u

-- `CommonCompressor.register`
unfoldable pub register_compressor :
    Compressor → Bool → (Bytes → Option Compressor) → Bytes → Option Compressor
register_compressor c default registry =
    if default
    then set_utility (set_utility registry c.name c) [] c
    else set_utility registry c.name c

-- An encrypter that decrypts what it encrypts and whose name holds no `$`, once its class is made
-- the default and it is registered, decrypts what is encrypted from then on, with its name or
-- without.
pub decrypt-register :
    (class_name : Bytes) (e : Encrypter) (u : Utilities) (no_cipher_name : Bool)
    (iv content : Bytes)
    → has_byte e.name 36 ≡ false
    → e.decrypt_data (e.encrypt_data iv content) ≡ ok content
    → (let r = (register class_name e (register_class class_name true u)).encrypters in
        decrypt r (encrypt r no_cipher_name iv content) ≡ ok content)
unfolding register register_class
decrypt-register class_name e u n iv content plain inverse =
    let r = (register class_name e (register_class class_name true u)).encrypters in
    let named : r e.name ≡ some e =
      ground (arith, bytes_eq_refl e.name, bytes_eq_refl class_name) in
    let default : r [] ≡ some e = ground (arith, bytes_eq_refl class_name, bytes_eq_refl ([])) in
    decrypt-encrypt r e n iv content default named plain inverse
