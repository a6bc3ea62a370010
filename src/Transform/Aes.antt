-- ===== src/Transform/Aes.antt =====
-- transform/encrypt_aes.py: `AES256Encrypter`, its choice of the key and the layout of what it
-- encrypts: IV, tag, data. sha256 and AES-GCM (pycryptodome's or zerodbext.aead's) are parameters.
use zerodb.Common.{
  ℕ, ◌≡◌, refl, Option, none, some, ◌++◌, if◌then◌else◌, ◌==◌, length, take, drop, arith,
  drop-length-append, take-length-append, append_assoc, sym, ap, ◌∙◌, take_append_drop,
}
use zerodb.Common.Bytes.{Bytes}
use zerodb.Common.Result.{Result, ok, err, ok-injective, assertion_error, wrong_key_error}

-- Authenticated encryption under a key and an IV. Opening what was sealed gives the data back, a
-- tag has a fixed length, and no data opens under a tag that is not its own.
pub record Aead : Type 0 where
  pub sha256 : Bytes → Bytes
  pub mac_len : ℕ
  pub encrypt_and_digest : Bytes → Bytes → Bytes → Bytes × Bytes
  pub decrypt_and_verify : Bytes → Bytes → Bytes → Bytes → Option Bytes
  pub length-sha256 : (s : Bytes) → length (sha256 s) ≡ 32
  pub length-tag : (key iv s : Bytes) → length ((encrypt_and_digest key iv s).1) ≡ mac_len
  pub opens :
      (key iv s : Bytes)
      → decrypt_and_verify key iv
          ((encrypt_and_digest key iv s).0)
          ((encrypt_and_digest key iv s).1)
        ≡ some s
  pub authentic :
      (key iv s content tag : Bytes)
      → decrypt_and_verify key iv content tag ≡ some s
      → encrypt_and_digest key iv s ≡ (content, tag)

abbrev key_size : ℕ
key_size = 32

module _ (C : Aead) where
  -- `_init_encryption`
  unfoldable pub init_encryption : Option Bytes → Option Bytes → Result (Option Bytes)
  init_encryption (some passphrase) (some key) = err assertion_error
  init_encryption (some passphrase) none = ok (some (C.sha256 passphrase))
  init_encryption none (some key) =
      if length key == key_size then ok (some key) else err assertion_error
  init_encryption none none = ok none

  -- `_encrypt`, whose IV is random
  unfoldable pub encrypt_data : Bytes → Bytes → Bytes → Bytes
  encrypt_data key iv content =
      let (edata, tag) = C.encrypt_and_digest key iv content in (iv ++ tag) ++ edata

  abbrev verified : Option Bytes → Result Bytes
  verified none = err wrong_key_error
  verified (some content) = ok content

  -- `_decrypt`: `f.read` gives fewer bytes at the end of the data
  unfoldable pub decrypt_data : ℕ → Bytes → Bytes → Result Bytes
  decrypt_data iv_size key edata =
      let iv = take iv_size edata in
      let rest = drop iv_size edata in
      verified (C.decrypt_and_verify key iv (drop C.mac_len rest) (take C.mac_len rest))

  -- With an IV of the encrypter's length, what was encrypted under a key decrypts under it.
  pub decrypt_data-encrypt_data :
      (iv_size : ℕ) (key iv content : Bytes)
      → length iv ≡ iv_size
      → decrypt_data iv_size key (encrypt_data key iv content) ≡ ok content
  unfolding decrypt_data encrypt_data
  decrypt_data-encrypt_data iv_size key iv content h =
      let edata = (C.encrypt_and_digest key iv content).0 in
      let tag = (C.encrypt_and_digest key iv content).1 in
      rw
        (
          append_assoc iv tag edata,
          sym h,
          take-length-append iv (tag ++ edata),
          drop-length-append iv (tag ++ edata),
          sym (C.length-tag key iv content),
          take-length-append tag edata,
          drop-length-append tag edata,
          C.opens key iv content,
        )
        refl

  verified-eq-ok : (o : Option Bytes) (s : Bytes) → verified o ≡ ok s → o ≡ some s
  verified-eq-ok none s h = cc
  verified-eq-ok (some t) s h = ap some (ok-injective h)

  -- What decrypts under a key without an exception is what encrypting the result under that key
  -- and the IV that it begins with gives.
  pub decrypt_data_authentic :
      (iv_size : ℕ) (key edata content : Bytes)
      → decrypt_data iv_size key edata ≡ ok content
      → encrypt_data key (take iv_size edata) content ≡ edata
  unfolding decrypt_data encrypt_data
  decrypt_data_authentic iv_size key edata content h =
      let iv = take iv_size edata in
      let rest = drop iv_size edata in
      let sealed =
        C.authentic key iv content (drop C.mac_len rest) (take C.mac_len rest)
          (verified-eq-ok _ content h) in
      rw (sealed) (
        append_assoc iv (take C.mac_len rest) (drop C.mac_len rest)
        ∙ ap (λ (l : Bytes). iv ++ l) (take_append_drop C.mac_len rest)
        ∙ take_append_drop iv_size edata)

  -- Every key that is accepted has 32 bytes.
  pub length-init_encryption :
      (passphrase key : Option Bytes) (k : Bytes)
      → init_encryption passphrase key ≡ ok (some k)
      → length k ≡ key_size
  unfolding init_encryption
  length-init_encryption (some p) (some k') k h = cc
  length-init_encryption (some p) none k h = ground (arith, C.length-sha256 p)
  length-init_encryption none (some k') k h = ground arith
  length-init_encryption none none k h = cc
