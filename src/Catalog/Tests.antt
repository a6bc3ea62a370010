-- ===== src/Catalog/Tests.antt =====
-- A field index over association lists: the document 5 with the value 30.
pub mod Ordered
pub mod Queries
pub mod Texts
use zerodb.Common.{
  ℕ, ◌≡◌, ◌↔◌, refl, Bool, true, false, Option, none, some, List, [], ◌∷◌, elem, take, ◌==◌, subst,
  arith, if◌then◌else◌, ℕ_discrete,
}
use zerodb.Common.Result.{Result, ok, ok-injective}
use zerodb.BTrees.{TreeModule, SetModule, assoc_trees, list_sets}
use zerodb.BTrees.Assoc.{lookup}
use zerodb.Catalog.Field.{FieldIndex, new_index, inner_index_doc, unindex_doc, forget_not_indexed}
use zerodb.Catalog.Field.Forms.{Docids, one, tuple, holds}
use zerodb.Catalog.Field.Invariant.{
  is_value, IsConsistent, new_index-IsConsistent, inner_index_doc-IsConsistent,
}
use zerodb.Catalog.Field.Reads.{apply_eq, scan_forward, matching, all_ids}
use zerodb.Catalog.Field.Ranges.{Bounds, apply_in_range, inside, elem-apply_in_range}
use zerodb.Catalog.Field.Discriminator.{Discriminator, Attribute, plain, ObjectModel, index_doc}
use Ordered.{ranged, ranged-IsRanged}

abbrev trees : TreeModule ℕ
trees = assoc_trees ℕ_discrete

abbrev Index : Type 0
Index = FieldIndex trees trees list_sets

abbrev empty_index : Index
empty_index = new_index trees list_sets trees

abbrev indexed : Index
indexed = inner_index_doc 5 30 empty_index

inner_index_doc-IsConsistent_example : IsConsistent indexed
unfolding new_index
inner_index_doc-IsConsistent_example =
    inner_index_doc-IsConsistent 5 30 {ix = empty_index} refl
      (new_index-IsConsistent trees trees list_sets)

-- the index with the document, once more for the other examples
indexed-IsConsistent : IsConsistent indexed
unfolding new_index
indexed-IsConsistent =
    inner_index_doc-IsConsistent 5 30 {ix = empty_index} refl
      (new_index-IsConsistent trees trees list_sets)

abbrev entries : List (Docids (List ℕ))
entries = one 4 ∷ tuple (2 ∷ 7 ∷ []) ∷ one 1 ∷ []

abbrev bounds : Bounds ℕ
bounds = record { lower = some 10; upper = some 30; excludemin = false; excludemax = false }

elem-apply_in_range_example : (elem 5 (apply_in_range ranged bounds indexed) ≡ true) ↔ (
    (v : ℕ) × (trees.get indexed.rev 5 ≡ some v)
    × (inside ℕ_discrete ranged.before bounds v ≡ true))
elem-apply_in_range_example =
    elem-apply_in_range ranged ranged-IsRanged bounds 5 {ix = indexed} indexed-IsConsistent

-- an object is a number, and has it as every attribute
abbrev objects : ObjectModel ℕ
objects = record {
  Obj = ℕ;
  attribute = λ obj name. some (plain obj);
  virtual_field = λ obj name. none;
}

abbrev unindexes : ℕ → Index → Result Index
unindexes docid ix = ok (unindex_doc docid ix)

abbrev age : Discriminator
age = record { name = "age"; callable = false }

abbrev twice_indexed : Index
twice_indexed = inner_index_doc 6 40 (forget_not_indexed 6 indexed)

index_doc_test : index_doc objects unindexes age 6 40 indexed ≡ ok twice_indexed
unfolding index_doc
index_doc_test = refl
