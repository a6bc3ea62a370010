-- ===== src/Catalog/Text/Words.antt =====
-- The loops of text_lucene.py over a document's words, word by word: what each leaves at one word.
use zerodb.Common.{
  distinct, ℕ, ◌≡◌, Bool, true, false, ◌&&◌, ◌||◌, not, Option, none, some, List, [], ◌∷◌, elem,
  ◌==◌, if◌then◌else◌, is_some, refl, arith, Option-cases, inl, inr,
}
use zerodb.Common.Int.{pos, ◌+ℤ◌, eq_ℤ}
use zerodb.Common.Result.{ok}
use zerodb.Catalog.Postings.{Setting, unique, difference, union}
use zerodb.Catalog.Text.{
  WordInfo, TextIndex, new_info, get_doctrees, change_all, change_found, put_or_del,
  without_posting, drop_words,
}

pub elem-unique : (wids : List ℕ) (w : ℕ) → elem w (unique wids) ≡ elem w wids
elem-unique [] w = refl
elem-unique (v ∷ wids) w = ground (arith, elem-unique wids w)

pub distinct-unique : (wids : List ℕ) → distinct (unique wids) ≡ true
distinct-unique [] = refl
distinct-unique (v ∷ wids) = ground (arith, distinct-unique wids, elem-unique wids v)

pub elem-difference :
    (xs ys : List ℕ) (w : ℕ) → elem w (difference xs ys) ≡ (elem w xs && not (elem w ys))
elem-difference [] ys w = refl
elem-difference (x ∷ xs) ys w = ground (arith, elem-difference xs ys w)

pub distinct-difference : (xs ys : List ℕ) → distinct xs ≡ true → distinct (difference xs ys) ≡ true
distinct-difference [] ys h = refl
distinct-difference (x ∷ xs) ys h =
    ground (arith, distinct-difference xs ys, elem-difference xs ys x)

pub elem-union : (xs ys : List ℕ) (w : ℕ) → elem w (union xs ys) ≡ (elem w xs || elem w ys)
elem-union [] ys w = refl
elem-union (x ∷ xs) ys w = ground (arith, elem-union xs ys w)

module _ (X : Setting) where
  abbrev pub found_or_new : Option (WordInfo X) → WordInfo X
  found_or_new none = new_info X
  found_or_new (some info) = info

  abbrev pub changed : Option (WordInfo X) → (WordInfo X → WordInfo X) → Option (WordInfo X)
  changed none f = none
  changed (some info) f = some (f info)

  -- The records that `_get_doctrees` makes; it changes no other field than the counter of words.
  pub wordinfo-get_doctrees :
      (wids : List ℕ) (ix : TextIndex X) (w : ℕ)
      → X.words.get (get_doctrees X wids ix).wordinfo w ≡ (
          if elem w wids
          then some (found_or_new (X.words.get ix.wordinfo w))
          else X.words.get ix.wordinfo w)
  unfolding get_doctrees
  wordinfo-get_doctrees [] ix w = refl
  wordinfo-get_doctrees (v ∷ wids) ix w = elim (Option-cases (X.words.get ix.wordinfo v)) [
    | inl e ↦
        rw (e, get_doctrees, is_some) ground
          (
            arith,
            e,
            wordinfo-get_doctrees wids
                (record ix {
                  wordinfo = X.words.put ix.wordinfo v (new_info X);
                  word_count = ix.word_count +ℤ pos 1;
                })
                w,
            X.words.get-put ix.wordinfo v (new_info X) w,
          )
    | inr (i, e) ↦ rw (e, get_doctrees, is_some) ground (arith, e, wordinfo-get_doctrees wids ix w)
  ]

  abbrev pub SameDocs : TextIndex X → TextIndex X → Type 0
  SameDocs a b =
      (a.docwords ≡ b.docwords)
      × (a.keep_phrases ≡ b.keep_phrases)
      × (a.document_count ≡ b.document_count)

  pub get_doctrees_keeps : (wids : List ℕ) (ix : TextIndex X) → SameDocs (get_doctrees X wids ix) ix
  unfolding get_doctrees
  get_doctrees_keeps [] ix = (refl, refl, refl)
  get_doctrees_keeps (v ∷ wids) ix = elim (Option-cases (X.words.get ix.wordinfo v)) [
    | inl e ↦
        rw (e, get_doctrees, is_some)
          (get_doctrees_keeps wids (record ix {
            wordinfo = X.words.put ix.wordinfo v (new_info X);
            word_count = ix.word_count +ℤ pos 1;
          }))
    | inr (i, e) ↦ rw (e, get_doctrees, is_some) (get_doctrees_keeps wids ix)
  ]

  get-change_found :
      (f : WordInfo X → WordInfo X) (v w : ℕ) (t : X.words.Tree (WordInfo X))
      → X.words.get (change_found X v (X.words.get t v) f t) w
        ≡ (if v == w then changed (X.words.get t v) f else X.words.get t w)
  get-change_found f v w t = elim (Option-cases (X.words.get t v)) [
    | inl e ↦ ground (arith, e)
    | inr (i, e) ↦ ground (arith, e, X.words.get-put t v (f i) w)
  ]

  pub get-change_all :
      (f : ℕ → WordInfo X → WordInfo X) (wids : List ℕ) (t : X.words.Tree (WordInfo X)) (w : ℕ)
      → distinct wids ≡ true
      → X.words.get (change_all X f wids t) w
        ≡ (if elem w wids then changed (X.words.get t w) (f w) else X.words.get t w)
  unfolding change_all
  get-change_all f [] t w h = refl
  get-change_all f (v ∷ wids) t w h = ground (
    arith,
    h,
    get-change_all f wids (change_found X v (X.words.get t v) (f v) t) w,
    get-change_found (f v) v w t,
  )

  -- what the loop of `unindex_doc` leaves of a word's record
  abbrev pub unless_empty : WordInfo X → Option (WordInfo X)
  unless_empty info = if eq_ℤ info.length (pos 0) then none else some info

  abbrev pub less_doc : ℕ → X.Score → Option (WordInfo X) → Option (WordInfo X)
  less_doc docid s none = none
  less_doc docid s (some info) = unless_empty (without_posting X docid s info)

  abbrev pub has_posting : Option (WordInfo X) → X.Score → ℕ → Bool
  has_posting none s docid = false
  has_posting (some info) s docid = X.postings.has info.weights s docid

  get-put_or_del :
      (v w : ℕ) (info : WordInfo X) (t : X.words.Tree (WordInfo X))
      → X.words.get (put_or_del X v info t) w
        ≡ (if v == w then unless_empty info else X.words.get t w)
  get-put_or_del v w info t = ground (arith, X.words.get-put t v info w, X.words.get-del t v w)

  -- The loop of `unindex_doc`, where the document is posted under each of the words.
  pub drop_words_drops :
      (docid : ℕ) (scores : ℕ → X.Score) (wids : List ℕ) (t : X.words.Tree (WordInfo X))
      → distinct wids ≡ true
      → ((w : ℕ) → elem w wids ≡ true → has_posting (X.words.get t w) (scores w) docid ≡ true)
      → (t' : X.words.Tree (WordInfo X)) × (drop_words X docid scores wids t ≡ (ok tt, t'))
        × ((w : ℕ)
            → X.words.get t' w ≡ (
                if elem w wids
                then less_doc docid (scores w) (X.words.get t w)
                else X.words.get t w))
  unfolding drop_words
  drop_words_drops docid scores [] t h all = (t, refl, λ w. refl)
  drop_words_drops docid scores (v ∷ wids) t h all = elim (Option-cases (X.words.get t v)) [
    | inl e ↦ absurd (ground (arith, e, all v))
    | inr (i, e) ↦
        let kept = without_posting X docid (scores v) i in
        let t1 = put_or_del X v kept t in
        let (t', ran, at) =
          drop_words_drops docid scores wids t1 (ground (arith, h))
            (λ w m. ground (arith, h, m, all w, get-put_or_del v w kept t)) in
        let here : X.postings.has i.weights (scores v) docid ≡ true = ground (arith, e, all v) in
        (
          t',
          rw (e, drop_words, here) ran,
          λ w. ground (arith, e, h, at w, get-put_or_del v w kept t),
        )
  ]
