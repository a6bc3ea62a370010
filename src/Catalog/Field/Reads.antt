-- ===== src/Catalog/Field/Reads.antt =====
-- Queries on a field index: `applyEq`, `applyInRange` and `scan_forward` of
-- catalog/indexes/field.py, as the lists of ids that the returned sequences run through.
use zerodb.Common.{
  ℕ, zero, suc, ◌+◌, ◌-◌, ◌≡◌, refl, Bool, true, false, none, some, List, [], ◌∷◌, ◌++◌, elem,
  length, take, arith, leb, ◌==◌, ◌&&◌, if◌then◌else◌, Option-cases, inl, inr, not, Bool-cases,
  take-append_le, take-append_ge, take_all,
}
use zerodb.BTrees.{TreeModule, SetModule}
use zerodb.Catalog.Field.{FieldIndex}
use zerodb.Catalog.Field.Invariant.{IsConsistent, is_value}
use zerodb.Catalog.Field.Forms.{Docids, one, tuple, treeset, holds}

-- the ids that iterating over one entry of `_fwd_index` runs through
abbrev pub docid_list : (S : SetModule) → Docids S.DocSet → List ℕ
docid_list S (one d) = d ∷ []
docid_list S (tuple l) = l
docid_list S (treeset s) = S.elements s

pub elem-docid_list :
    (S : SetModule) (ds : Docids S.DocSet) (d : ℕ) → elem d (docid_list S ds) ≡ holds S (some ds) d
elem-docid_list S (one i) d = ground arith
elem-docid_list S (tuple l) d = refl
elem-docid_list S (treeset s) d = S.elem-elements s d

-- the ids of several entries, one after the other
abbrev pub all_ids : (S : SetModule) → List (Docids S.DocSet) → List ℕ
all_ids S [] = []
all_ids S (cur ∷ entries) = docid_list S cur ++ all_ids S entries

module _ {A : Type 0} {F : TreeModule A} {R : TreeModule ℕ} {S : SetModule} where
  unfoldable pub apply_eq : A → FieldIndex F R S → List ℕ
  apply_eq value ix = elim (F.get ix.fwd value) [
    | none ↦ S.elements (S.of_list [])
    | some (one d) ↦ S.elements (S.of_list (d ∷ []))
    | some (tuple l) ↦ S.elements (S.of_list l)
    | some (treeset s) ↦ S.elements s
  ]

  -- In a consistent index, an equality query returns exactly the documents that have the value.
  elem-apply_eq :
      (v : A) (d : ℕ) {ix : FieldIndex F R S}
      → IsConsistent ix
      → elem d (apply_eq v ix) ≡ is_value F.dec (R.get ix.rev d) v
  unfolding apply_eq
  elem-apply_eq v d {ix} h = elim (Option-cases (F.get ix.fwd v)) [
    | inl e ↦ ground (arith, e, h.agrees v d, S.elem-elements (S.of_list []) d, S.has-of_list [] d)
    | inr (one i, e) ↦
        ground
          (arith, e, h.agrees v d, S.elem-elements (S.of_list (i ∷ [])) d, S.has-of_list (i ∷ []) d)
    | inr (tuple l, e) ↦
        ground (arith, e, h.agrees v d, S.elem-elements (S.of_list l) d, S.has-of_list l d)
    | inr (treeset s, e) ↦ ground (arith, e, h.agrees v d, S.elem-elements s d)
  ]

-- The generator `scan_forward` over the entries of `_fwd_index` in order: `n` ids were yielded, and
-- `limit` is 0 where it is `None`. `scan_ids` is the inner loop; it says whether the limit stopped it.
abbrev at_limit : ℕ → ℕ → Bool
at_limit limit n = not (limit == 0) && leb limit n

module _ (S : SetModule) (docids : S.DocSet) (limit : ℕ) where
  unfoldable pub scan_ids : List ℕ → ℕ → List ℕ × ℕ × Bool
  scan_ids [] n = ([], n, false)
  scan_ids (docid ∷ l) n =
      let rest = scan_ids l (if S.has docids docid then n + 1 else n) in
      if S.has docids docid
      then (if at_limit limit (n + 1)
          then (docid ∷ [], n + 1, true)
          else (docid ∷ rest.0, rest.1, rest.2))
      else rest

  unfoldable pub scan_forward : List (Docids S.DocSet) → ℕ → List ℕ
  scan_forward [] n = []
  scan_forward (cur ∷ fwd_index) n =
      let out = scan_ids (docid_list S cur) n in
      let rest = scan_forward fwd_index out.1 in if out.2 then out.0 else out.0 ++ rest

  -- the ids of all entries that are in `docids`
  abbrev pub matching : List ℕ → List ℕ
  matching [] = []
  matching (d ∷ l) = if S.has docids d then d ∷ matching l else matching l

  matching-append : (xs ys : List ℕ) → matching (xs ++ ys) ≡ matching xs ++ matching ys
  matching-append [] ys = refl
  matching-append (x ∷ xs) ys = ground (arith, matching-append xs ys)

  scan_ids_unlimited :
      (l : List ℕ) (n : ℕ)
      → limit ≡ 0
      → ((scan_ids l n).0 ≡ matching l) × ((scan_ids l n).2 ≡ false)
  unfolding scan_ids
  scan_ids_unlimited [] n z = (refl, refl)
  scan_ids_unlimited (d ∷ l) n z =
      ground (arith, scan_ids_unlimited l (n + 1) z, scan_ids_unlimited l n z)

  -- With no limit, the scan yields every indexed id that is in `docids`, in the order of the index.
  scan_forward_unlimited :
      (fwd_index : List (Docids S.DocSet)) (n : ℕ)
      → limit ≡ 0
      → scan_forward fwd_index n ≡ matching (all_ids S fwd_index)
  unfolding scan_forward
  scan_forward_unlimited [] n z = refl
  scan_forward_unlimited (cur ∷ fwd_index) n z = ground (
    arith,
    scan_ids_unlimited (docid_list S cur) n z,
    scan_forward_unlimited fwd_index (scan_ids (docid_list S cur) n).1 z,
    matching-append (docid_list S cur) (all_ids S fwd_index),
  )

  -- `room` ids may still be yielded.
  scan_ids_limited :
      (l : List ℕ) (n room : ℕ)
      → n + suc room ≡ limit
      → ((scan_ids l n).0 ≡ take (suc room) (matching l))
        × ((scan_ids l n).2 ≡ leb (suc room) (length (matching l)))
        × ((scan_ids l n).2 ≡ false → (scan_ids l n).1 ≡ n + length (matching l))
  unfolding scan_ids
  scan_ids_limited [] n room e = ground arith
  scan_ids_limited (d ∷ l) n zero e = elim (Bool-cases (S.has docids d)) [
    | inl b ↦ ground (arith, b)
    | inr b ↦ ground (arith, b, scan_ids_limited l n zero e)
  ]
  scan_ids_limited (d ∷ l) n (suc room) e = elim (Bool-cases (S.has docids d)) [
    | inl b ↦ ground (arith, b, scan_ids_limited l (n + 1) room)
    | inr b ↦ ground (arith, b, scan_ids_limited l n (suc room) e)
  ]

  -- With a limit, the scan yields the first `limit` of those ids and stops.
  scan_forward_limited :
      (fwd_index : List (Docids S.DocSet)) (n room : ℕ)
      → n + suc room ≡ limit
      → scan_forward fwd_index n ≡ take (suc room) (matching (all_ids S fwd_index))
  unfolding scan_forward
  scan_forward_limited [] n room e = refl
  scan_forward_limited (cur ∷ fwd_index) n room e =
      let here = matching (docid_list S cur) in
      let later = matching (all_ids S fwd_index) in
      let k = scan_ids_limited (docid_list S cur) n room e in
      rw matching-append (elim (Bool-cases (leb (suc room) (length here))) [
        | inl b ↦ ground (arith, b, k, take-append_le (suc room) here later)
        | inr b ↦
            let e' : n + length here + suc (room - length here) ≡ limit = ground (arith, b) in
            ground (
              arith,
              b,
              k,
              take_all (suc room) here,
              take-append_ge (suc room) (suc (room - length here)) here later,
              scan_forward_limited fwd_index (n + length here) (room - length here) e',
            )
      ])

  -- A scan yields, in the order of the index, the indexed ids that are in `docids`: all of them
  -- without a limit, and the first `limit` of them with one.
  scan_forward_lem :
      (fwd_index : List (Docids S.DocSet))
      → scan_forward fwd_index 0 ≡ (
          if limit == 0
          then matching (all_ids S fwd_index)
          else take limit (matching (all_ids S fwd_index)))
  scan_forward_lem fwd_index = elim (Bool-cases (limit == 0)) [
    | inl b ↦ ground (arith, b, scan_forward_unlimited fwd_index 0)
    | inr b ↦ ground (arith, b, scan_forward_limited fwd_index 0 (limit - 1))
  ]
