-- ===== src/Transform/Storage.antt =====
-- storage/transforming.py: `TransformingStorage`, which compresses and encrypts what it stores in
-- the storage below, and undoes this on loading. Debugging counters and log lines are left out.
use zerodb.Common.{
  ℕ, ◌≡◌, refl, Bool, true, false, Option, none, some, [], ◌∷◌, if◌then◌else◌, arith, ap, ◌∙◌,
}
use zerodb.Common.Bytes.{Bytes, bytes_eq, bytes_eq_refl, starts_with, has_byte}
use zerodb.Common.Result.{Result, ok, err, ◌>>=◌, pos_key_error, type_error, lookup_error}
use zerodb.Permissions.Owner.{Load, key_error, nothing, found, load_data, Storage}
use zerodb.Permissions.Owner.Access.{found_of_data}
use zerodb.Transform.Encrypt
use zerodb.Transform.Encrypt.{Encrypter, dollar, get_encryption_signature}
use zerodb.Transform.Compress
use zerodb.Transform.Compress.{IsLossless}

-- The registries of encrypters and of compressors.
pub record Utilities : Type 0 where
  pub encrypters : Encrypt.Registry
  pub compressors : Compress.Registry

module _ (U : Utilities) where
  -- `_transform` and `_transform_named`
  unfoldable pub transform : Bool → Bytes → Bytes → Bytes
  transform no_cipher_name iv content =
      Encrypt.encrypt U.encrypters no_cipher_name iv (Compress.compress U.compressors content)

  unfoldable pub untransform : Bytes → Result Bytes
  untransform content = do
    packed ← Encrypt.decrypt U.encrypters content
    Compress.decompress U.compressors packed

  module _ (S : Storage) (root_oid : Bytes) where
    abbrev untransform_load : Load → Result (Bytes × ℕ × Option ℕ)
    untransform_load key_error = err pos_key_error
    untransform_load nothing = err type_error
    untransform_load (found content serial after) = do
      out ← untransform content
      ok (out, serial, after)

    -- a `None` from below cannot be taken apart
    unfoldable pub load_before : S.State → Bytes → ℕ → Result (Bytes × ℕ × Option ℕ)
    unfolding untransform
    load_before s oid tid = untransform_load (S.load_before s oid tid)

    -- the record of the root names its cipher
    unfoldable pub store : S.State → Bytes → ℕ → Bytes → Bytes → S.State
    unfolding transform
    store s oid serial iv content =
        S.store s oid serial
          (if bytes_eq oid root_oid then transform false iv content else transform true iv content)

-- `__init__`: the encrypter that the root's record names becomes the default.
abbrev with_default : Encrypt.Registry → Option Encrypter → Encrypt.Registry
with_default utility e [] = e
with_default utility e (c ∷ name) = utility (c ∷ name)

abbrev default_for : Encrypt.Registry → Option Bytes → Result Encrypt.Registry
default_for utility none = ok utility
default_for utility (some []) = ok utility
default_for utility (some (c ∷ sig)) = elim (utility (c ∷ sig)) [
  | none ↦ err lookup_error
  | some e ↦ ok (with_default utility (some e))
]

unfoldable pub init_default : Encrypt.Registry → Bytes → Result Encrypt.Registry
unfolding get_encryption_signature
init_default utility root_data = default_for utility (get_encryption_signature root_data)

-- The default encrypter is registered under its name too, which holds no `$`, and what it
-- encrypts, under any IV, it decrypts.
pub record IsFaithful (utility : Encrypt.Registry) (e : Encrypter) : Type 0 where
  pub default : utility [] ≡ some e
  pub same : utility e.name ≡ some e
  pub plain_name : has_byte e.name dollar ≡ false
  pub inverse : (iv s : Bytes) → e.decrypt_data (e.encrypt_data iv s) ≡ ok s

module _ (U : Utilities) (e : Encrypter) (faithful : IsFaithful U.encrypters e)
    (lossless : IsLossless U.compressors) where
  untransform-transform :
      (no_cipher_name : Bool) (iv content : Bytes)
      → starts_with content Compress.mark ≡ false
      → untransform U (transform U no_cipher_name iv content) ≡ ok content
  unfolding untransform transform
  untransform-transform n iv content h =
      let packed = Compress.compress U.compressors content in
      ground (
        arith,
        Encrypt.decrypt-encrypt U.encrypters e n iv packed faithful.default faithful.same
            faithful.plain_name (faithful.inverse iv packed),
        Compress.decompress-compress U.compressors content lossless h,
      )

  abbrev chosen_transform : Bool → Bytes → Bytes → Bytes
  chosen_transform is_root iv content =
      if is_root then transform U false iv content else transform U true iv content

  chosen :
      (is_root : Bool) (iv content : Bytes)
      → chosen_transform is_root iv content
        ≡ transform U (if is_root then false else true) iv content
  chosen true iv content = refl
  chosen false iv content = refl

  -- If the default encrypter decrypts what it encrypts and the default compressor decompresses
  -- what it compresses, and a record does not begin with `.c`, then what a client stores it loads
  -- back, at the root, where the cipher is named, and elsewhere.
  pub load_before-store_transformed :
      (S : Storage) (root_oid : Bytes) (s : S.State) (oid : Bytes) (serial : ℕ) (iv content : Bytes)
      → starts_with content Compress.mark ≡ false
      → (serial' : ℕ) × (after : Option ℕ) × (load_before U S root_oid
            (store U S root_oid s oid serial iv content)
            oid
            S.maxtid
          ≡ ok (content, serial', after))
  unfolding load_before store
  load_before-store_transformed S root_oid s oid serial iv content h =
      let named = if bytes_eq oid root_oid then false else true in
      let at : load_data (S.load_before (store U S root_oid s oid serial iv content) oid S.maxtid)
          ≡ some (transform U named iv content) =
        S.load-store s oid serial (chosen_transform (bytes_eq oid root_oid) iv content) oid
        ∙ rw (bytes_eq_refl oid) (ap some (chosen (bytes_eq oid root_oid) iv content)) in
      let (serial', after, here) =
        found_of_data (S.load_before (store U S root_oid s oid serial iv content) oid S.maxtid)
          (transform U named iv content) at in
      (
        serial',
        after,
        ap (untransform_load U S root_oid) here
            ∙ rw (untransform-transform named iv content h) refl,
      )
