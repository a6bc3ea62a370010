-- ===== src/Common/Bytes.antt =====
-- Byte strings as lists of numbers: equality, `startswith`, `endswith` and `find`.
use Prim.Native.Nat.{ℕ, suc, ◌-◌, ◌≤◌}
use mathlib.Core.Path.{◌≡◌, refl, ap, sym, ◌∙◌}
use mathlib.Core.Bool.{Bool, true, false, ◌&&◌}
use mathlib.Core.Logic.{◌↔◌, ◌≢◌}
use mathlib.Core.List.{List, [], ◌∷◌, ◌++◌}
use mathlib.Core.Option
use mathlib.Core.Option.{Option, none, some}
use native.Mathlib.Omega.{arith}
use zerodb.Common.Tests.{◌==◌, if◌then◌else◌, leb}
use zerodb.Common.Lists.{length, take, drop, length-append, drop-length-append, take-length-append}

abbrev pub Bytes : Type 0
Bytes = List ℕ

unfoldable pub bytes_eq : Bytes → Bytes → Bool
bytes_eq [] [] = true
bytes_eq (x ∷ xs) (y ∷ ys) = (x == y) && bytes_eq xs ys
bytes_eq _ _ = false

pub bytes_eq_refl : (xs : Bytes) → bytes_eq xs xs ≡ true
unfolding bytes_eq
bytes_eq_refl [] = refl
bytes_eq_refl (x ∷ xs) = ground (arith, bytes_eq_refl xs)

pub bytes_eq_sound : (xs ys : Bytes) → bytes_eq xs ys ≡ true → xs ≡ ys
unfolding bytes_eq
bytes_eq_sound [] [] h = refl
bytes_eq_sound [] (y ∷ ys) h = cc
bytes_eq_sound (x ∷ xs) [] h = cc
bytes_eq_sound (x ∷ xs) (y ∷ ys) h = ground (arith, bytes_eq_sound xs ys)

pub bytes_eq_iff : (xs ys : Bytes) → (bytes_eq xs ys ≡ true) ↔ (xs ≡ ys)
bytes_eq_iff xs ys = (bytes_eq_sound xs ys, λ e. ap (bytes_eq xs) (sym e) ∙ bytes_eq_refl xs)

pub bytes_eq_complete : (xs ys : Bytes) → bytes_eq xs ys ≡ false → xs ≢ ys
bytes_eq_complete xs ys h e = ground (arith, bytes_eq_refl xs, h, e)

abbrev pub of_bytes_eq : (xs ys : Bytes) (b : Bool) → bytes_eq xs ys ≡ b → Dec (xs ≡ ys)
of_bytes_eq xs ys true h = yes (bytes_eq_sound xs ys h)
of_bytes_eq xs ys false h = no (bytes_eq_complete xs ys h)

abbrev pub bytes_discrete : Discrete Bytes
bytes_discrete xs ys = of_bytes_eq xs ys (bytes_eq xs ys) refl

-- `data.endswith(suffix)`
unfoldable pub ends_with : Bytes → Bytes → Bool
ends_with s suffix =
    if leb (length suffix) (length s)
    then bytes_eq (drop (length s - length suffix) s) suffix
    else false

-- `data[:-len(suffix)]`, which is empty where the suffix is
unfoldable pub without_suffix : Bytes → Bytes → Bytes
without_suffix s suffix = if length suffix == 0 then [] else take (length s - length suffix) s

-- What ends with a suffix of the same length ends with that one only.
pub ends_with-append : (s u v : Bytes) → length u ≡ length v → ends_with (s ++ v) u ≡ bytes_eq v u
unfolding ends_with
ends_with-append s u v e =
    let n : length (s ++ v) - length u ≡ length s = omega (arith, length-append {0} s v) in
    let l : length u ≤ length (s ++ v) = omega (arith, length-append {0} s v) in
    ground (arith, n, l, drop-length-append s v)

pub without_suffix-append : (s u : Bytes) → 1 ≤ length u → without_suffix (s ++ u) u ≡ s
unfolding without_suffix
without_suffix-append s u h =
    let n : length (s ++ u) - length u ≡ length s = omega (arith, length-append {0} s u) in
    ground (arith, n, take-length-append s u)

-- `data.startswith(prefix)`
unfoldable pub starts_with : Bytes → Bytes → Bool
starts_with s [] = true
starts_with [] (p ∷ prefix) = false
starts_with (x ∷ s) (p ∷ prefix) = (x == p) && starts_with s prefix

pub starts_with-append : (prefix s : Bytes) → starts_with (prefix ++ s) prefix ≡ true
unfolding starts_with
starts_with-append [] [] = refl
starts_with-append [] (x ∷ s) = refl
starts_with-append (p ∷ prefix) s = ground (arith, starts_with-append prefix s)

-- `data.find(b)`, `none` for -1
unfoldable pub find : Bytes → ℕ → Option ℕ
find [] b = none
find (c ∷ s) b = let rest = find s b in if c == b then some 0 else Option.map suc rest

abbrev pub has_byte : Bytes → ℕ → Bool
has_byte [] b = false
has_byte (c ∷ s) b = if c == b then true else has_byte s b

-- The first `b` after a text that holds none stands at its end.
pub find-append :
    (s rest : Bytes) (b : ℕ) → has_byte s b ≡ false → find (s ++ b ∷ rest) b ≡ some (length s)
unfolding find
find-append [] rest b h = ground arith
find-append (c ∷ s) rest b h = ground (arith, find-append s rest b)
