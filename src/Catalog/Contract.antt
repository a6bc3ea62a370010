-- ===== src/Catalog/Contract.antt =====
-- What db.py relies on of a catalog, zerodbext's, which is a parameter. Indexing is
-- taken not to raise; un-indexing may, as that of a text index does for a document without words
-- (Catalog/Text/Reindex.antt).
use zerodb.Common.{
  ℕ, ◌≡◌, Bool, true, Option, none, some, List, ite, is_some, elem, ◌==◌, if◌then◌else◌,
}
use zerodb.Common.Result.{Error, Result, ok}

-- A catalog: its indexes by name. `entry` is what an index has last been given for an id; an index
-- reads `value` of an object's contents. A query returns the number and the ids of what it finds.
pub record CatalogModule (Attr Doc Query Keyword : Type 0) : Type 1 where
  pub Value : Type 0
  pub value : Attr → Doc → Value
  pub Catalog : Type 0
  pub has_index : Catalog → Attr → Bool
  pub entry : Catalog → Attr → ℕ → Option Value
  pub index_doc : Catalog → ℕ → Doc → Catalog
  pub unindex_doc : Catalog → ℕ → Catalog
  -- what un-indexing a document raises, and what it leaves then
  pub unindex_error : Catalog → ℕ → Option Error
  pub unindex_partly : Catalog → ℕ → Catalog
  pub reindex_doc : Catalog → ℕ → Doc → Catalog
  pub reindex_index : Catalog → Attr → ℕ → Doc → Catalog
  pub query : Catalog → Query → List Keyword → Result (ℕ × List ℕ)
  pub attr_dec : Discrete Attr
  pub index-index_doc :
      (c : Catalog) (u : ℕ) (d : Doc) (a : Attr) → has_index (index_doc c u d) a ≡ has_index c a
  pub index-unindex_doc :
      (c : Catalog) (u : ℕ) (a : Attr) → has_index (unindex_doc c u) a ≡ has_index c a
  pub index-reindex_doc :
      (c : Catalog) (u : ℕ) (d : Doc) (a : Attr) → has_index (reindex_doc c u d) a ≡ has_index c a
  pub index-reindex_index :
      (c : Catalog) (b : Attr) (u : ℕ) (d : Doc) (a : Attr)
      → has_index (reindex_index c b u d) a ≡ has_index c a
  pub entry-index_doc :
      (c : Catalog) (u : ℕ) (d : Doc) (a : Attr) (k : ℕ)
      → has_index c a ≡ true
      → entry (index_doc c u d) a k ≡ (if u == k then some (value a d) else entry c a k)
  pub entry-unindex_doc :
      (c : Catalog) (u : ℕ) (a : Attr) (k : ℕ)
      → has_index c a ≡ true
      → entry (unindex_doc c u) a k ≡ (if u == k then none else entry c a k)
  pub entry-reindex_doc :
      (c : Catalog) (u : ℕ) (d : Doc) (a : Attr) (k : ℕ)
      → has_index c a ≡ true
      → entry (reindex_doc c u d) a k ≡ (if u == k then some (value a d) else entry c a k)
  pub entry-reindex_index :
      (c : Catalog) (b : Attr) (u : ℕ) (d : Doc) (a : Attr) (k : ℕ)
      → has_index c b ≡ true
      → entry (reindex_index c b u d) a k
        ≡ (if u == k then ite (attr_dec b a) (some (value a d)) (entry c a k) else entry c a k)
  pub query_known :
      (c : Catalog) (q : Query) (kw : List Keyword) (n : ℕ) (uids : List ℕ) (u : ℕ)
      → query c q kw ≡ ok (n, uids)
      → elem u uids ≡ true
      → (a : Attr) × (has_index c a ≡ true) × (is_some (entry c a u) ≡ true)

-- No document's un-indexing raises.
abbrev pub IsQuiet :
    {Attr Doc Query Keyword : Type 0} → CatalogModule Attr Doc Query Keyword → Type 0
IsQuiet catalogs = (c : catalogs.Catalog) (u : ℕ) → catalogs.unindex_error c u ≡ none
