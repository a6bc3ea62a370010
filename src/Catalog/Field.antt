-- ===== src/Catalog/Field.antt =====
-- catalog/indexes/field.py: `CatalogFieldIndex`. A value's document ids are kept in one of three
-- forms, a single integer, a tuple, or, from ten ids on, a tree set.
pub mod Forms
pub mod Invariant
pub mod Discriminator
pub mod Reads
pub mod Ranges
use zerodb.Common.{
  ℕ, zero, ◌+◌, ◌-◌, ◌≡◌, Bool, true, false, Option, none, some, List, [], ◌∷◌, ◌++◌, length, elem,
  leb, ◌==◌, if◌then◌else◌, is_some,
}
use zerodb.Common.Int.{ℤ, pos, negsuc, ◌+ℤ◌}
use zerodb.BTrees.{TreeModule, SetModule}
use Forms.{Docids, one, holds, add_docid, remove_docid}

pub record FieldIndex {A : Type 0} (F : TreeModule A) (R : TreeModule ℕ) (S : SetModule)
    : Type 0 where
  pub fwd : F.Tree (Docids S.DocSet)
  pub rev : R.Tree A
  pub not_indexed : S.DocSet
  pub num_docs : ℤ

module _ {A : Type 0} (F : TreeModule A) (S : SetModule) where
  -- the `try` block on `_fwd_index[value]`; a missing value or id is the caught `KeyError`
  unfoldable pub drop_from_fwd : ℕ → A → F.Tree (Docids S.DocSet) → F.Tree (Docids S.DocSet)
  drop_from_fwd docid value fwd = elim (F.get fwd value) [
    | none ↦ fwd
    | some docids ↦ elim (remove_docid S docids docid) [
      | none ↦ F.del fwd value
      | some rest ↦ F.put fwd value rest
    ]
  ]

  module _ (R : TreeModule ℕ) where
    -- `clear()`, as the constructor calls it
    unfoldable pub new_index : FieldIndex F R S
    new_index = record {
      fwd = F.empty _;
      rev = R.empty A;
      not_indexed = S.of_list [];
      num_docs = pos 0;
    }

module _ {A : Type 0} {F : TreeModule A} {R : TreeModule ℕ} {S : SetModule} where
  unfoldable pub forget_not_indexed : ℕ → FieldIndex F R S → FieldIndex F R S
  forget_not_indexed docid ix =
      if S.has ix.not_indexed docid
      then record ix { not_indexed = S.remove ix.not_indexed docid }
      else ix

  unfoldable pub unindex_doc : ℕ → FieldIndex F R S → FieldIndex F R S
  unindex_doc docid ix0 =
      let ix = forget_not_indexed docid ix0 in
      elim (R.get ix.rev docid) [
        | none ↦ ix
        | some value ↦ record ix {
          rev = R.del ix.rev docid;
          fwd = drop_from_fwd F S docid value ix.fwd;
          num_docs = ix.num_docs +ℤ negsuc 0;
        }
      ]

  unfoldable pub insert_docid : ℕ → A → FieldIndex F R S → FieldIndex F R S
  insert_docid docid value ix = record ix {
    fwd =
        F.put ix.fwd value
          (elim (F.get ix.fwd value) [ none ↦ one docid | some docids ↦ add_docid S docids docid ]);
    num_docs = ix.num_docs +ℤ pos 1;
    rev = R.put ix.rev docid value;
  }

  unfoldable pub inner_index_doc : ℕ → A → FieldIndex F R S → FieldIndex F R S
  inner_index_doc docid value ix =
      if is_some (R.get ix.rev docid)
      then (if holds S (F.get ix.fwd value) docid
          then ix
          else insert_docid docid value (unindex_doc docid ix))
      else insert_docid docid value ix
