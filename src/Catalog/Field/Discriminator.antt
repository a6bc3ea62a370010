-- ===== src/Catalog/Field/Discriminator.antt =====
-- What an index takes from an object: catalog/indexes/common.py and `index_doc` of
-- catalog/indexes/field.py. `super(CatalogIndex, self).unindex_doc` is the method of the
-- zope.index package that the repository does not contain: a parameter.
use Prim.Native.String.{String}
use zerodb.Common.{
  ℕ, ◌≡◌, Bool, true, false, Option, none, some, List, [], ◌∷◌, arith, if◌then◌else◌, ◌==◌,
}
use zerodb.Common.Result.{Result, ok, err, value_error, ◌>>=◌}
use zerodb.BTrees.{TreeModule, SetModule}
use zerodb.Catalog.Field.{FieldIndex, forget_not_indexed, inner_index_doc}
use zerodb.Catalog.Field.Invariant.{IsConsistent, rev-inner_index_doc}

-- The constructor's argument, and what is kept of it.
pub data DiscriminatorArg : Type 0 where
  tuple : List String → DiscriminatorArg
  string : String → DiscriminatorArg
  other : DiscriminatorArg

pub record Discriminator : Type 0 where
  pub name : String
  pub callable : Bool

unfoldable pub init_discriminator : DiscriminatorArg → Result Discriminator
init_discriminator (tuple (s ∷ [])) = ok (record { name = s; callable = true })
init_discriminator (tuple _) = err value_error
init_discriminator (string s) = ok (record { name = s; callable = false })
init_discriminator other = err value_error

-- An attribute's value: one that the index compares, or an object that it refuses.
pub data Attribute (A : Type 0) : Type 0 where
  plain : A → Attribute A
  persistent : Attribute A
  broken : Attribute A

-- Python's attribute access and the virtual fields of a class; a virtual field is a function that
-- may raise, which is `none`.
pub record ObjectModel (A : Type 0) : Type 1 where
  pub Obj : Type 0
  pub attribute : Obj → String → Option (Attribute A)
  pub virtual_field : Obj → String → Option (Obj → Option (Attribute A))

module _ {A : Type 0} (O : ObjectModel A) where
  abbrev call_virtual : O.Obj → Option (O.Obj → Option (Attribute A)) → Option (Attribute A)
  call_virtual obj none = none
  call_virtual obj (some f) = f obj

  -- `none` is `_marker`
  unfoldable pub discriminate : Discriminator → O.Obj → Option (Attribute A)
  discriminate d obj =
      if d.callable then call_virtual obj (O.virtual_field obj d.name) else O.attribute obj d.name

module _ {A : Type 0} {F : TreeModule A} {R : TreeModule ℕ} {S : SetModule} (O : ObjectModel A)
    (base_unindex_doc : ℕ → FieldIndex F R S → Result (FieldIndex F R S)) where
  abbrev add_not_indexed : ℕ → FieldIndex F R S → FieldIndex F R S
  add_not_indexed docid ix = record ix { not_indexed = S.add ix.not_indexed docid }

  abbrev index_value : ℕ → Option (Attribute A) → FieldIndex F R S → Result (FieldIndex F R S)
  index_value docid none ix = do ix' ← base_unindex_doc docid ix; ok (add_not_indexed docid ix')
  index_value docid (some persistent) ix = err value_error
  index_value docid (some broken) ix = err value_error
  index_value docid (some (plain value)) ix =
      ok (inner_index_doc docid value (forget_not_indexed docid ix))

  unfoldable pub index_doc :
      Discriminator → ℕ → O.Obj → FieldIndex F R S → Result (FieldIndex F R S)
  unfolding discriminate
  index_doc d docid obj ix = index_value docid (discriminate O d obj) ix

  forget_not_indexed-IsConsistent :
      (d : ℕ) {ix : FieldIndex F R S} → IsConsistent ix → IsConsistent (forget_not_indexed d ix)
  unfolding forget_not_indexed
  forget_not_indexed-IsConsistent d {ix} h = record {
    agrees = λ v j. ground (arith, h.agrees v j);
    counted = ground (arith, h.counted);
    apart = λ j. ground (arith, h.apart j, S.has-remove ix.not_indexed d j);
  }

  not_indexed-forget_not_indexed :
      (d : ℕ) (ix : FieldIndex F R S) → S.has (forget_not_indexed d ix).not_indexed d ≡ false
  unfolding forget_not_indexed
  not_indexed-forget_not_indexed d ix = ground (arith, S.has-remove ix.not_indexed d d)

  rev-forget_not_indexed : (d : ℕ) (ix : FieldIndex F R S) → (forget_not_indexed d ix).rev ≡ ix.rev
  unfolding forget_not_indexed
  rev-forget_not_indexed d ix = ground arith

  abbrev pub is_refused : Option (Attribute A) → Bool
  is_refused (some persistent) = true
  is_refused (some broken) = true
  is_refused _ = false

  -- An object whose discriminated attribute is a plain value is indexed under that value, with
  -- no other document changed.
  pub index_doc_indexes :
      (d : Discriminator) (docid : ℕ) (obj : O.Obj) (v : A) (ix : FieldIndex F R S)
      → discriminate O d obj ≡ some (plain v)
      → IsConsistent ix
      → (ix' : FieldIndex F R S) × (index_doc d docid obj ix ≡ ok ix')
        × ((j : ℕ) → R.get ix'.rev j ≡ (if docid == j then some v else R.get ix.rev j))
  unfolding index_doc
  index_doc_indexes d docid obj v ix e h = (
    inner_index_doc docid v (forget_not_indexed docid ix),
    rw (e, index_value),
    λ j. ground (
      arith,
      rev-forget_not_indexed docid ix,
      rev-inner_index_doc docid v j (forget_not_indexed-IsConsistent docid h),
    ),
  )

  -- A persistent or broken attribute raises `ValueError`.
  pub index_doc_refuses :
      (d : Discriminator) (docid : ℕ) (obj : O.Obj) (ix : FieldIndex F R S)
      → is_refused (discriminate O d obj) ≡ true
      → index_doc d docid obj ix ≡ err value_error
  unfolding index_doc
  index_doc_refuses d docid obj ix h = ground arith
