-- ===== src/Transform/Encrypt.antt =====
-- transform/encrypt_common.py: `CommonEncrypter`, and the functions that choose an encrypter by a
-- record's signature. zope's registry is a function from names; the default has the empty name.
use zerodb.Common.{
  ℕ, ◌-◌, ◌≡◌, refl, Bool, true, false, Option, none, some, [], ◌∷◌, ◌++◌, if◌then◌else◌, length,
  take, drop, arith, drop-length-append, take-length-append, append_assoc,
}
use zerodb.Common.Bytes.{Bytes, starts_with, starts_with-append, find, has_byte, find-append}
use zerodb.Common.Result.{Result, ok, err, lookup_error}

-- The low-level functions of a cipher. The first argument of `encrypt_data` is the random IV.
pub record Encrypter : Type 0 where
  pub name : Bytes
  pub encrypt_data : Bytes → Bytes → Bytes
  pub decrypt_data : Bytes → Result Bytes

abbrev pub Registry : Type 0
Registry = Bytes → Option Encrypter

-- `.e`, and `$`
abbrev pub mark : Bytes
mark = b'.' ∷ b'e' ∷ []

abbrev pub dollar : ℕ
dollar = b'$'

abbrev pub signature : Bytes → Bytes
signature name = mark ++ (name ++ dollar ∷ [])

unfoldable pub encrypt_with : Encrypter → Bool → Bytes → Bytes → Bytes
encrypt_with e no_cipher_name iv content =
    (if no_cipher_name then signature [] else signature e.name) ++ e.encrypt_data iv content

unfoldable pub decrypt_with : Encrypter → Bytes → Result Bytes
decrypt_with e content =
    if starts_with content (signature e.name)
    then e.decrypt_data (drop (length (signature e.name)) content)
    else if starts_with content (signature [])
    then e.decrypt_data (drop 3 content)
    else ok content

abbrev encrypt_by : Option Encrypter → Bool → Bytes → Bytes → Bytes
encrypt_by none no_cipher_name iv content = content
encrypt_by (some e) no_cipher_name iv content = encrypt_with e no_cipher_name iv content

unfoldable pub encrypt : Registry → Bool → Bytes → Bytes → Bytes
unfolding encrypt_with
encrypt utility no_cipher_name iv content = encrypt_by (utility []) no_cipher_name iv content

-- `data[2:data.find(b"$")]`; -1 cuts the last byte off
abbrev pub named_part : Option ℕ → Bytes → Bytes
named_part (some n) content = take (n - 2) (drop 2 content)
named_part none content = take (length content - 3) (drop 2 content)

unfoldable pub get_encryption_signature : Bytes → Option Bytes
get_encryption_signature content =
    if starts_with content mark then some (named_part (find content dollar) content) else none

abbrev decrypt_by : Option Encrypter → Bytes → Result Bytes
decrypt_by none content = err lookup_error
decrypt_by (some e) content = decrypt_with e content

unfoldable pub decrypt : Registry → Bytes → Result Bytes
unfolding decrypt_with get_encryption_signature
decrypt utility content = elim (get_encryption_signature content) [
  | none ↦ ok content
  | some sig ↦ decrypt_by (utility sig) content
]

signature_of :
    (name rest : Bytes)
    → has_byte name dollar ≡ false
    → get_encryption_signature (signature name ++ rest) ≡ some name
unfolding get_encryption_signature starts_with find
signature_of name rest h = ground (
  arith,
  append_assoc name (dollar ∷ []) rest,
  find-append name rest dollar h,
  take-length-append name (dollar ∷ rest),
)

unnamed_not_named :
    (c : ℕ) (name rest : Bytes)
    → has_byte (c ∷ name) dollar ≡ false
    → starts_with (signature [] ++ rest) (signature (c ∷ name)) ≡ false
unfolding starts_with
unnamed_not_named c name rest h = ground arith

decrypt_with-named :
    (e : Encrypter) (rest : Bytes) → decrypt_with e (signature e.name ++ rest) ≡ e.decrypt_data rest
unfolding decrypt_with
decrypt_with-named e rest =
    ground (
      arith,
      starts_with-append (signature e.name) rest,
      drop-length-append (signature e.name) rest,
    )

decrypt_with-unnamed :
    (e : Encrypter) (name rest : Bytes)
    → e.name ≡ name
    → has_byte name dollar ≡ false
    → decrypt_with e (signature [] ++ rest) ≡ e.decrypt_data rest
unfolding decrypt_with starts_with
decrypt_with-unnamed e [] rest n h = ground (arith, n)
decrypt_with-unnamed e (c ∷ name) rest n h = ground (arith, n, unnamed_not_named c name rest h)

-- What was encrypted under the default encrypter, with its name or without, decrypts to itself
-- where the registry still has that encrypter, under its name and as the default.
pub decrypt-encrypt :
    (utility : Registry) (e : Encrypter) (no_cipher_name : Bool) (iv content : Bytes)
    → utility [] ≡ some e
    → utility e.name ≡ some e
    → has_byte e.name dollar ≡ false
    → e.decrypt_data (e.encrypt_data iv content) ≡ ok content
    → decrypt utility (encrypt utility no_cipher_name iv content) ≡ ok content
unfolding decrypt encrypt
decrypt-encrypt utility e true iv content d n h inverse = ground (
  arith,
  d,
  signature_of [] (e.encrypt_data iv content) refl,
  decrypt_with-unnamed e e.name (e.encrypt_data iv content) refl h,
  inverse,
)
decrypt-encrypt utility e false iv content d n h inverse = ground (
  arith,
  d,
  n,
  signature_of e.name (e.encrypt_data iv content) h,
  decrypt_with-named e (e.encrypt_data iv content),
  inverse,
)
