-- ===== src/Catalog/Postings.antt =====
-- What the text index (catalog/indexes/text_lucene.py) stands on: sets of postings, a lexicon, and
-- lists of word ids as `Counter` and `set` see them.
use zerodb.Common.{
  ℕ, suc, ◌+◌, ◌≡◌, Bool, true, false, List, [], ◌∷◌, elem, ◌==◌, ite, if◌then◌else◌,
}
use zerodb.BTrees.{TreeModule}

-- A set of pairs (score, docid), as `TreeSet` keeps them.
pub record Postings (Score : Type 0) : Type 1 where
  pub dec_score : Discrete Score
  pub Set : Type 0
  pub empty : Set
  pub has : Set → Score → ℕ → Bool
  pub add : Set → Score → ℕ → Set
  pub remove : Set → Score → ℕ → Set
  pub size : Set → ℕ
  pub has-empty : (s : Score) (d : ℕ) → has empty s d ≡ false
  pub has-add :
      (p : Set) (s : Score) (d : ℕ) (s' : Score) (d' : ℕ)
      → has (add p s d) s' d'
        ≡ (if d == d' then ite (dec_score s s') true (has p s' d') else has p s' d')
  pub has-remove :
      (p : Set) (s : Score) (d : ℕ) (s' : Score) (d' : ℕ)
      → has (remove p s d) s' d'
        ≡ (if d == d' then ite (dec_score s s') false (has p s' d') else has p s' d')
  pub size-empty : size empty ≡ 0
  pub size-add_new :
      (p : Set) (s : Score) (d : ℕ) → has p s d ≡ false → size (add p s d) ≡ size p + 1
  pub size-remove :
      (p : Set) (s : Score) (d : ℕ) → has p s d ≡ true → size (remove p s d) + 1 ≡ size p

-- What the index uses of other packages: scores, -sqrt(f) / sqrt(n) of a word that a document with
-- n different words has f times; the code in which word ids are kept; the lexicon.
pub record Setting : Type 1 where
  pub Score : Type 0
  pub score : ℕ → ℕ → Score
  pub postings : Postings Score
  pub Code : Type 0
  pub encode : List ℕ → Code
  pub decode : Code → List ℕ
  pub decode-encode : (wids : List ℕ) → decode (encode wids) ≡ wids
  pub Lexicon : Type 0
  pub Text : Type 0
  pub source_to_word_ids : Lexicon → Text → List ℕ × Lexicon
  pub words : TreeModule ℕ
  pub docs : TreeModule ℕ

-- `Counter(wids)`: how often a word occurs, and the different words
abbrev pub count : ℕ → List ℕ → ℕ
count w [] = 0
count w (v ∷ wids) = if v == w then suc (count w wids) else count w wids

abbrev pub unique : List ℕ → List ℕ
unique [] = []
unique (w ∷ wids) = if elem w wids then unique wids else w ∷ unique wids

-- the words of the first list that are not in the second, and those of both, each once
abbrev pub difference : List ℕ → List ℕ → List ℕ
difference [] ys = []
difference (x ∷ xs) ys = if elem x ys then difference xs ys else x ∷ difference xs ys

abbrev pub union : List ℕ → List ℕ → List ℕ
union [] ys = ys
union (x ∷ xs) ys = if elem x ys then union xs ys else x ∷ union xs ys
