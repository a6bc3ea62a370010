-- ===== src/Transform/Compress.antt =====
-- transform/compress_common.py: `CommonCompressor`, and the functions that choose a compressor by
-- a record's signature. The compression functions (zlib's, in compress_zlib.py) are parameters.
use zerodb.Common.{
  ℕ, ◌≤◌, ◌≡◌, refl, Bool, true, false, Option, none, some, [], ◌∷◌, ◌++◌, if◌then◌else◌, length,
  drop, arith, drop-length-append, take-length-append, ltb, append_assoc, inl, inr, ◌≢◌,
  Option-cases,
}
use zerodb.Common.Bytes.{Bytes, starts_with, starts_with-append, find, has_byte, find-append}
use zerodb.Common.Result.{Result, ok, err, lookup_error}
use zerodb.Transform.Encrypt.{dollar, named_part}

pub record Compressor : Type 0 where
  pub name : Bytes
  pub compress_data : Bytes → Bytes
  pub decompress_data : Bytes → Result Bytes

abbrev pub Registry : Type 0
Registry = Bytes → Option Compressor

-- `.c`
abbrev pub mark : Bytes
mark = b'.' ∷ b'c' ∷ []

-- `self.name and b".c%s$" % self.name`
unfoldable pub signature : Bytes → Bytes
signature [] = []
signature (c ∷ name) = mark ++ ((c ∷ name) ++ dollar ∷ [])

unfoldable pub compress_with : Compressor → Bytes → Bytes
unfolding signature
compress_with c content =
    if starts_with content (signature c.name)
    then content
    else if ltb (length (signature c.name ++ c.compress_data content)) (length content)
    then signature c.name ++ c.compress_data content
    else content

abbrev is_empty : Bytes → Bool
is_empty [] = true
is_empty (c ∷ s) = false

unfoldable pub decompress_with : Compressor → Bytes → Result Bytes
unfolding signature
decompress_with c content =
    if is_empty (signature c.name)
    then ok content
    else if starts_with content (signature c.name)
    then c.decompress_data (drop (length (signature c.name)) content)
    else ok content

abbrev decompress_by : Option Compressor → Bytes → Result Bytes
decompress_by none content = err lookup_error
decompress_by (some c) content = decompress_with c content

unfoldable pub decompress : Registry → Bytes → Result Bytes
unfolding decompress_with
decompress utility content =
    if starts_with content mark
    then decompress_by (utility (named_part (find content dollar) content)) content
    else ok content

abbrev compress_by : Option Compressor → Bytes → Bytes
compress_by none content = content
compress_by (some c) content = compress_with c content

unfoldable pub compress : Registry → Bytes → Bytes
unfolding compress_with
compress utility content = compress_by (utility []) content

-- Compressing never makes a record longer.
pub length-compress :
    (utility : Registry) (content : Bytes) → length (compress utility content) ≤ length content
unfolding compress
length-compress utility content = go (utility [])
  where
    go : (o : Option Compressor) → length (compress_by o content) ≤ length content
    go none = omega arith
    go (some c) = ground arith

named_part-signature :
    (c : ℕ) (name rest : Bytes)
    → has_byte (c ∷ name) dollar ≡ false
    → named_part (find (signature (c ∷ name) ++ rest) dollar) (signature (c ∷ name) ++ rest)
      ≡ c ∷ name
unfolding find signature
named_part-signature c name rest h = ground (
  arith,
  append_assoc (c ∷ name) (dollar ∷ []) rest,
  find-append (c ∷ name) rest dollar h,
  take-length-append (c ∷ name) (dollar ∷ rest),
)

starts_with-mark :
    (c : ℕ) (name rest : Bytes) → starts_with (signature (c ∷ name) ++ rest) mark ≡ true
unfolding starts_with signature
starts_with-mark c name rest = ground arith

not_starts_with_name :
    (content name : Bytes)
    → starts_with content mark ≡ false
    → name ≢ []
    → starts_with content (signature name) ≡ false
unfolding starts_with signature
not_starts_with_name content [] h n = absurd (n refl)
not_starts_with_name [] (c ∷ name) h n = refl
not_starts_with_name (x ∷ []) (c ∷ name) h n = ground arith
not_starts_with_name (x ∷ y ∷ s) (c ∷ name) h n = ground arith

decompress_with-signed :
    (c : Compressor) (b : ℕ) (name rest : Bytes)
    → c.name ≡ b ∷ name
    → decompress_with c (signature (b ∷ name) ++ rest) ≡ c.decompress_data rest
unfolding decompress_with
decompress_with-signed c b name rest n = ground (
  arith,
  n,
  starts_with-append (signature (b ∷ name)) rest,
  drop-length-append (signature (b ∷ name)) rest,
)

-- The default compressor is registered under its name too, which holds no `$`, and what it
-- compresses it decompresses.
pub record IsLossless (utility : Registry) : Type 0 where
  pub same : (c : Compressor) → utility [] ≡ some c → utility c.name ≡ some c
  pub plain_name : (c : Compressor) → utility [] ≡ some c → has_byte c.name dollar ≡ false
  pub inverse :
      (c : Compressor) (s : Bytes)
      → utility [] ≡ some c
      → c.decompress_data (c.compress_data s) ≡ ok s

decompress-signed :
    (utility : Registry) (c : Compressor) (b : ℕ) (name content : Bytes)
    → IsLossless utility
    → utility [] ≡ some c
    → c.name ≡ b ∷ name
    → decompress utility (signature (b ∷ name) ++ c.compress_data content) ≡ ok content
unfolding decompress
decompress-signed utility c b name content l d n =
    let packed = c.compress_data content in
    let plain : has_byte (b ∷ name) dollar ≡ false = ground (arith, n, l.plain_name c d) in
    ground (
      arith,
      n,
      l.same c d,
      starts_with-mark b name packed,
      named_part-signature b name packed plain,
      decompress_with-signed c b name packed n,
      l.inverse c content d,
    )

decompress_plain :
    (utility : Registry) (content : Bytes)
    → starts_with content mark ≡ false
    → decompress utility content ≡ ok content
unfolding decompress
decompress_plain utility content h = ground arith

starts_with_nothing : (content : Bytes) → starts_with content [] ≡ true
unfolding starts_with
starts_with_nothing [] = refl
starts_with_nothing (c ∷ content) = refl

decompress-compress_with :
    (utility : Registry) (c : Compressor) (name content : Bytes)
    → IsLossless utility
    → utility [] ≡ some c
    → c.name ≡ name
    → starts_with content mark ≡ false
    → decompress utility (compress_with c content) ≡ ok content
unfolding compress_with
decompress-compress_with utility c [] content l d n h =
    ground (arith, n, starts_with_nothing content, decompress_plain utility content h)
decompress-compress_with utility c (b ∷ name) content l d n h = ground (
  arith,
  n,
  not_starts_with_name content (b ∷ name) h,
  decompress_plain utility content h,
  decompress-signed utility c b name content l d n,
)

-- If the default compressor decompresses what it compresses, a record that does not begin with
-- `.c` is read back as it was, compressed or not.
pub decompress-compress :
    (utility : Registry) (content : Bytes)
    → IsLossless utility
    → starts_with content mark ≡ false
    → decompress utility (compress utility content) ≡ ok content
unfolding compress
decompress-compress utility content l h = elim (Option-cases (utility [])) [
  | inl e ↦ ground (arith, e, decompress_plain utility content h)
  | inr (c, d) ↦ ground (arith, d, decompress-compress_with utility c c.name content l d refl h)
]

-- A record that begins with the signature of a compressor and was not compressed by it is not
-- compressed, and is decompressed when it is read.
pub decompress_misread :
    (utility : Registry) (c : Compressor) (b : ℕ) (name rest : Bytes)
    → IsLossless utility
    → utility [] ≡ some c
    → c.name ≡ b ∷ name
    → decompress utility (compress utility (signature (b ∷ name) ++ rest)) ≡ c.decompress_data rest
unfolding compress decompress compress_with
decompress_misread utility c b name rest l d n =
    let plain : has_byte (b ∷ name) dollar ≡ false = ground (arith, n, l.plain_name c d) in
    ground (
      arith,
      d,
      n,
      l.same c d,
      starts_with-mark b name rest,
      named_part-signature b name rest plain,
      decompress_with-signed c b name rest n,
      starts_with-append (signature (b ∷ name)) rest,
    )
