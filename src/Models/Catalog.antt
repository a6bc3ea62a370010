-- ===== src/Models/Catalog.antt =====
-- models/fields.py, the constructor of `Indexable`, and models/__init__.py, `create_catalog`: an
-- index for each indexed field, which reads the field as catalog/indexes/common.py says.
use Prim.Native.String.{String}
use zerodb.Common.{◌≡◌, refl, Bool, Option, List, [], ◌∷◌, if◌then◌else◌, is_some, ◌&&◌, arith}
use zerodb.Common.Result.{Result, ok, err, ◌>>=◌, field_exception}
use zerodb.Catalog.Field.Discriminator.{
  DiscriminatorArg, tuple, string, Discriminator, init_discriminator,
}
use zerodb.Models.{Default, Indexable}

unfoldable pub new_indexable :
    {V : Type 0} → Option (Default V) → Bool → Bool → Result (Indexable V)
new_indexable default virtual index =
    if is_some default && virtual
    then err field_exception
    else ok (record { default = default; virtual = virtual; indexed = index })

module _ {V : Type 0} where
  -- `discriminator or name`
  abbrev pub discriminator_of : String → Indexable V → DiscriminatorArg
  discriminator_of name field = if field.virtual then tuple (name ∷ []) else string name

  -- the indexes by name, each with what it reads
  unfoldable pub create_catalog :
      List (String × Indexable V) → Result (List (String × Discriminator))
  create_catalog [] = ok []
  create_catalog ((name, field) ∷ used) =
      let rest = create_catalog used in
      if field.indexed
      then (do
        d ← init_discriminator (discriminator_of name field)
        indexes ← rest
        ok ((name, d) ∷ indexes))
      else rest

  -- the indexed fields, and whether they are virtual
  abbrev pub indexed_fields : List (String × Indexable V) → List (String × Discriminator)
  indexed_fields [] = []
  indexed_fields ((name, field) ∷ used) =
      let rest = indexed_fields used in
      if field.indexed
      then (name, record { name = name; callable = field.virtual }) ∷ rest
      else rest

  -- Making a catalog never raises: it has one index for each indexed field, of its name, that calls
  -- the class's function exactly if the field is virtual.
  create_catalog_lem :
      (used : List (String × Indexable V)) → create_catalog used ≡ ok (indexed_fields used)
  unfolding create_catalog init_discriminator
  create_catalog_lem [] = refl
  create_catalog_lem ((name, field) ∷ used) = ground (arith, create_catalog_lem used)
