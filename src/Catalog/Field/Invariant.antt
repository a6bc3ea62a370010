-- ===== src/Catalog/Field/Invariant.antt =====
-- The two directions of a field index agree, and each operation keeps it so
-- (catalog/indexes/field.py).
use zerodb.Common.{
  ℕ, ◌≡◌, Bool, true, false, Option, none, some, arith, ◌==◌, if◌then◌else◌, is_some, ite,
  Bool-cases, Option-cases, inl, inr,
}
use zerodb.Common.Int.{pos, incr_pos, decr_pos}
use zerodb.BTrees.{TreeModule, SetModule}
use zerodb.Catalog.Field.{
  FieldIndex, new_index, forget_not_indexed, drop_from_fwd, unindex_doc, insert_docid,
  inner_index_doc,
}
use zerodb.Catalog.Field.Forms.{
  Docids, one, holds, add_docid, remove_docid, holds-add_docid, holds-remove_docid,
}

module _ {A : Type 0} (dec : Discrete A) where
  -- the reverse index says that the document has this value
  abbrev pub is_value : Option A → A → Bool
  is_value none v = false
  is_value (some w) v = ite (dec w v) true false

-- Each value's ids are exactly the documents that the reverse index gives this value; the
-- counter counts them; no document is both indexed and in `_not_indexed`.
pub record IsConsistent {A : Type 0} {F : TreeModule A} {R : TreeModule ℕ} {S : SetModule}
    (ix : FieldIndex F R S) : Type 0 where
  pub agrees : (v : A) (d : ℕ) → holds S (F.get ix.fwd v) d ≡ is_value F.dec (R.get ix.rev d) v
  pub counted : ix.num_docs ≡ pos (R.len ix.rev)
  pub apart : (d : ℕ) → S.has ix.not_indexed d ≡ true → R.get ix.rev d ≡ none

module _ {A : Type 0} (F : TreeModule A) (S : SetModule) where
  holds-drop_from_fwd :
      (d : ℕ) (v w : A) (fwd : F.Tree (Docids S.DocSet)) (j : ℕ)
      → holds S (F.get fwd v) d ≡ true
      → holds S (F.get (drop_from_fwd F S d v fwd) w) j
        ≡ ite
            (F.dec v w)
            (if d == j then false else holds S (F.get fwd v) j)
            (holds S (F.get fwd w) j)
  unfolding drop_from_fwd
  holds-drop_from_fwd d v w fwd j h = elim (Option-cases (F.get fwd v)) [
    | inl e ↦ ground (arith, e)
    | inr (ds, e) ↦ elim (Option-cases (remove_docid S ds d)) [
      | inl r ↦ ground (arith, e, r, F.get-del fwd v w, holds-remove_docid S ds d j)
      | inr (rest, r) ↦ ground (arith, e, r, F.get-put fwd v rest w, holds-remove_docid S ds d j)
    ]
  ]

module _ {A : Type 0} (F : TreeModule A) (R : TreeModule ℕ) (S : SetModule) where
  pub new_index-IsConsistent : IsConsistent (new_index F S R)
  unfolding new_index
  new_index-IsConsistent = record {
    agrees = λ v d. ground (arith, F.get-empty (Docids S.DocSet) v, R.get-empty A d);
    counted = ground (arith, R.len-empty A);
    apart = λ d h. ground (arith, R.get-empty A d);
  }

module _ {A : Type 0} {F : TreeModule A} {R : TreeModule ℕ} {S : SetModule} where
  -- Un-indexing a document, indexed or not, keeps a consistent index consistent.
  pub unindex_doc-IsConsistent :
      (d : ℕ) {ix : FieldIndex F R S} → IsConsistent ix → IsConsistent (unindex_doc d ix)
  unfolding unindex_doc forget_not_indexed
  unindex_doc-IsConsistent d {ix} h = elim (Option-cases (R.get ix.rev d)) [
    | inl e ↦ record {
      agrees = λ v j. ground (arith, e, h.agrees v j);
      counted = ground (arith, e, h.counted);
      apart = λ j. ground (arith, e, h.apart j, S.has-remove ix.not_indexed d j);
    }
    | inr (v, e) ↦ record {
      agrees = λ w j. ground (
        arith,
        e,
        h.agrees w j,
        h.agrees v j,
        h.agrees v d,
        R.get-del ix.rev d j,
        holds-drop_from_fwd F S d v w ix.fwd j,
      );
      counted = ground (arith, e, h.counted, R.len-del ix.rev d, decr_pos (R.len (R.del ix.rev d)));
      apart =
          λ j. ground (arith, e, h.apart j, S.has-remove ix.not_indexed d j, R.get-del ix.rev d j);
    }
  ]

  -- Un-indexing removes the document's value, and no other.
  pub rev-unindex_doc :
      (d j : ℕ) (ix : FieldIndex F R S)
      → R.get (unindex_doc d ix).rev j ≡ (if d == j then none else R.get ix.rev j)
  unfolding unindex_doc forget_not_indexed
  rev-unindex_doc d j ix = elim (Option-cases (R.get ix.rev d)) [
    | inl e ↦ ground (arith, e)
    | inr (v, e) ↦ ground (arith, e, R.get-del ix.rev d j)
  ]

  not_indexed-unindex_doc :
      (d : ℕ) (ix : FieldIndex F R S) → S.has (unindex_doc d ix).not_indexed d ≡ false
  unfolding unindex_doc forget_not_indexed
  not_indexed-unindex_doc d ix = elim (Option-cases (R.get ix.rev d)) [
    | inl e ↦ ground (arith, e, S.has-remove ix.not_indexed d d)
    | inr (v, e) ↦ ground (arith, e, S.has-remove ix.not_indexed d d)
  ]

  insert_docid-IsConsistent :
      (d : ℕ) (v : A) {ix : FieldIndex F R S}
      → R.get ix.rev d ≡ none
      → S.has ix.not_indexed d ≡ false
      → IsConsistent ix
      → IsConsistent (insert_docid d v ix)
  unfolding insert_docid
  insert_docid-IsConsistent d v {ix} fresh known h = record {
    agrees = λ w j. elim (Option-cases (F.get ix.fwd v)) [
      | inl e ↦ ground (
        arith,
        e,
        fresh,
        h.agrees w j,
        h.agrees v j,
        R.get-put ix.rev d v j,
        F.get-put ix.fwd v (one d) w,
      )
      | inr (ds, e) ↦ ground (
        arith,
        e,
        fresh,
        h.agrees w j,
        h.agrees v j,
        R.get-put ix.rev d v j,
        F.get-put ix.fwd v (add_docid S ds d) w,
        holds-add_docid S ds d j,
      )
    ];
    counted = ground (arith, h.counted, R.len-put_new ix.rev d v, incr_pos (R.len ix.rev));
    apart = λ j. ground (arith, known, h.apart j, R.get-put ix.rev d v j);
  }

  -- Indexing a document that is not in `_not_indexed` keeps a consistent index consistent,
  -- whether the document is new, unchanged, or has another value.
  pub inner_index_doc-IsConsistent :
      (d : ℕ) (v : A) {ix : FieldIndex F R S}
      → S.has ix.not_indexed d ≡ false
      → IsConsistent ix
      → IsConsistent (inner_index_doc d v ix)
  unfolding inner_index_doc
  inner_index_doc-IsConsistent d v {ix} known h = elim (Option-cases (R.get ix.rev d)) [
    | inl e ↦ rw (e, is_some) (insert_docid-IsConsistent d v e known h)
    | inr (w, e) ↦ elim (Bool-cases (holds S (F.get ix.fwd v) d)) [
      | inl b ↦ rw (e, is_some, b) h
      | inr b ↦
          rw (e, is_some, b)
            (insert_docid-IsConsistent d v (ground (arith, rev-unindex_doc d d ix))
              (not_indexed-unindex_doc d ix) (unindex_doc-IsConsistent d h))
    ]
  ]

  -- In a consistent index, indexing gives the document the value, and changes no other
  -- document's.
  pub rev-inner_index_doc :
      (d : ℕ) (v : A) (j : ℕ) {ix : FieldIndex F R S}
      → IsConsistent ix
      → R.get (inner_index_doc d v ix).rev j ≡ (if d == j then some v else R.get ix.rev j)
  unfolding inner_index_doc insert_docid
  rev-inner_index_doc d v j {ix} h = elim (Option-cases (R.get ix.rev d)) [
    | inl e ↦ ground (arith, e, R.get-put ix.rev d v j)
    | inr (w, e) ↦ elim (Bool-cases (holds S (F.get ix.fwd v) d)) [
      | inl b ↦ ground (arith, e, b, h.agrees v d)
      | inr b ↦ ground (arith, e, b, R.get-put (unindex_doc d ix).rev d v j, rev-unindex_doc d j ix)
    ]
  ]
