-- ===== src/Catalog/Tests/Texts.antt =====
-- A text index over association lists: the document 5 with the words 1, 2, 1.
use zerodb.Common.{
  ℕ, ◌+◌, ◌*◌, ◌≡◌, refl, ap, Bool, true, false, none, some, List, [], ◌∷◌, ◌==◌, ite, is_some,
  arith, if◌then◌else◌, ℕ_discrete,
}
use zerodb.Common.Result.{ok, err, type_error}
use zerodb.BTrees.{TreeModule, assoc_trees}
use zerodb.BTrees.Assoc.{lookup}
use zerodb.Catalog.Postings.{Postings, Setting}
use zerodb.Catalog.Text.{TextIndex, new_index, index_doc, unindex_doc, insert_doc}
use zerodb.Catalog.Text.Invariant.{IsConsistent, new_index-IsConsistent, insert_doc-IsConsistent}
use zerodb.Catalog.Text.Remove.{Unindexed, unindex_doc-Unindexed}
use zerodb.Catalog.Text.Reindex.{Indexed, index_doc-Indexed, wordless_raises}

abbrev pair_dec : Discrete (ℕ × ℕ)
pair_dec (a, b) (c, d) = elim (ℕ_discrete a c) [
  | yes e ↦ elim (ℕ_discrete b d) [
    | yes f ↦ yes (λ i. (e i, f i))
    | no n ↦ no (λ h. n (ap (λ (p : ℕ × ℕ). p.1) h))
  ]
  | no n ↦ no (λ h. n (ap (λ (p : ℕ × ℕ). p.0) h))
]

abbrev pairs : TreeModule (ℕ × ℕ)
pairs = assoc_trees pair_dec

ite-pair_dec {ℓ} :
    {A : Type ℓ} (x y : A) (a b c d : ℕ)
    → ite (pair_dec (a, b) (c, d)) x y ≡ (if b == d then ite (ℕ_discrete a c) x y else y)
ite-pair_dec x y a b c d = ground arith

abbrev has : pairs.Tree (Unit {0}) → ℕ → ℕ → Bool
has p s d = is_some (pairs.get p (s, d))

has-put :
    (p : pairs.Tree (Unit {0})) (s d s' d' : ℕ)
    → has (pairs.put p (s, d) tt) s' d'
      ≡ (if d == d' then ite (ℕ_discrete s s') true (has p s' d') else has p s' d')
has-put p s d s' d' = ground (
  arith,
  pairs.get-put p (s, d) tt (s', d'),
  ite-pair_dec (some tt) (pairs.get p (s', d')) s d s' d',
)

has-del :
    (p : pairs.Tree (Unit {0})) (s d s' d' : ℕ)
    → has (pairs.del p (s, d)) s' d'
      ≡ (if d == d' then ite (ℕ_discrete s s') false (has p s' d') else has p s' d')
has-del p s d s' d' =
    ground
      (arith, pairs.get-del p (s, d) (s', d'), ite-pair_dec none (pairs.get p (s', d')) s d s' d')

size-put_new :
    (p : pairs.Tree (Unit {0})) (s d : ℕ)
    → has p s d ≡ false
    → pairs.len (pairs.put p (s, d) tt) ≡ pairs.len p + 1
size-put_new p s d h = ground (arith, h, pairs.len-put_new p (s, d) tt)

abbrev postings : Postings ℕ
postings = record {
  dec_score = ℕ_discrete;
  Set = pairs.Tree (Unit {0});
  empty = pairs.empty (Unit {0});
  has = has;
  add = λ p s d. pairs.put p (s, d) tt;
  remove = λ p s d. pairs.del p (s, d);
  size = λ p. pairs.len p;
  has-empty = λ s d. rw (pairs.get-empty (Unit {0}) (s, d)) refl;
  has-add = λ p s d s' d'. has-put p s d s' d';
  has-remove = λ p s d s' d'. has-del p s d s' d';
  size-empty = pairs.len-empty (Unit {0});
  size-add_new = λ p s d h. size-put_new p s d h;
  size-remove = λ p s d h. pairs.len-del p (s, d) h;
}

abbrev setting : Setting
setting = record {
  Score = ℕ;
  score = λ f n. f * 10 + n;
  postings = postings;
  Code = List ℕ;
  encode = λ l. l;
  decode = λ l. l;
  decode-encode = λ l. refl;
  Lexicon = Unit {0};
  Text = List ℕ;
  source_to_word_ids = λ l t. (t, l);
  words = assoc_trees ℕ_discrete;
  docs = assoc_trees ℕ_discrete;
}

abbrev two_words : List ℕ
two_words = 1 ∷ 2 ∷ 1 ∷ []

abbrev one_doc : TextIndex setting
one_doc = insert_doc setting 5 two_words (new_index setting tt true)

one_doc-IsConsistent : IsConsistent one_doc
unfolding insert_doc new_index lookup ℕ_discrete
one_doc-IsConsistent = insert_doc-IsConsistent 5 two_words refl (new_index-IsConsistent tt)

index_doc-Indexed_example :
    (ix' : TextIndex setting) × (index_doc setting 5 (2 ∷ 3 ∷ []) one_doc ≡ (ok 2, ix'))
    × Indexed 5 (2 ∷ 3 ∷ []) one_doc ix'
index_doc-Indexed_example =
    index_doc-Indexed 5 3 (2 ∷ 3 ∷ []) (2 ∷ 3 ∷ []) tt one_doc-IsConsistent refl refl

unindex_doc-Unindexed_example :
    (ix' : TextIndex setting) × (unindex_doc setting 5 one_doc ≡ (ok tt, ix'))
    × Unindexed 5 one_doc ix'
unfolding insert_doc new_index lookup ℕ_discrete
unindex_doc-Unindexed_example = unindex_doc-Unindexed 5 2 two_words one_doc-IsConsistent refl refl

wordless_raises_example :
    (let kept = index_doc setting 5 [] (new_index setting tt true) in
      (kept.0 ≡ ok 0)
      × (unindex_doc setting 5 kept.1 ≡ (err type_error, kept.1))
      × ((index_doc setting 5 [] kept.1).0 ≡ err type_error))
unfolding new_index lookup ℕ_discrete
wordless_raises_example = wordless_raises 5 [] [] (new_index setting tt true) refl refl refl
