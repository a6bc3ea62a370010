-- ===== src/Catalog/Text.antt =====
-- catalog/indexes/text_lucene.py: `IncrementalLuceneIndex`, its postings and counters. Scores are
-- floats, which are a parameter with an equality; so are the lexicon and the code of word ids.
pub mod Words
pub mod Invariant
pub mod Remove
pub mod Exchange
pub mod Reindex
use zerodb.Common.{
  ℕ, zero, suc, ◌+◌, ◌≡◌, Bool, true, false, ◌&&◌, not, Option, none, some, List, [], ◌∷◌, length,
  elem, ◌==◌, ite, if◌then◌else◌, is_some, refl,
}
use zerodb.Common.Int.{ℤ, pos, negsuc, ◌+ℤ◌, eq_ℤ}
use zerodb.Common.Result.{Result, ok, err, key_error, type_error}
use zerodb.Catalog.Postings.{Setting, count, unique, difference, union}

module _ (X : Setting) where
  -- an entry of `_wordinfo`
  pub record WordInfo : Type 0 where
    pub weights : X.postings.Set
    pub length : ℤ

  pub record TextIndex : Type 0 where
    pub lexicon : X.Lexicon
    pub keep_phrases : Bool
    pub wordinfo : X.words.Tree WordInfo
    pub docwords : X.docs.Tree X.Code
    pub word_count : ℤ
    pub document_count : ℤ

module _ (X : Setting) where
  -- `_get_widscores`: the score of a word of a document with these words
  abbrev pub widscore : List ℕ → ℕ → X.Score
  widscore wids w = X.score (count w wids) (length (unique wids))

  unfoldable pub new_index : X.Lexicon → Bool → TextIndex X
  new_index lexicon keep_phrases = record {
    lexicon = lexicon;
    keep_phrases = keep_phrases;
    wordinfo = X.words.empty (WordInfo X);
    docwords = X.docs.empty X.Code;
    word_count = pos 0;
    document_count = pos 0;
  }

  abbrev pub new_info : WordInfo X
  new_info = record { weights = X.postings.empty; length = pos 0 }

  -- the loop of `_get_doctrees`, which makes the records that are missing
  unfoldable pub get_doctrees : List ℕ → TextIndex X → TextIndex X
  get_doctrees [] ix = ix
  get_doctrees (w ∷ wids) ix = get_doctrees wids (
      if is_some (X.words.get ix.wordinfo w) then ix else record ix {
        wordinfo = X.words.put ix.wordinfo w new_info;
        word_count = ix.word_count +ℤ pos 1;
      })

  -- a loop that changes, in place, the record of each of the words
  abbrev change_found :
      ℕ
      → Option (WordInfo X)
      → (WordInfo X → WordInfo X)
      → X.words.Tree (WordInfo X)
      → X.words.Tree (WordInfo X)
  change_found w none f t = t
  change_found w (some info) f t = X.words.put t w (f info)

  unfoldable pub change_all :
      (ℕ → WordInfo X → WordInfo X) → List ℕ → X.words.Tree (WordInfo X) → X.words.Tree (WordInfo X)
  change_all f [] t = t
  change_all f (w ∷ wids) t = change_all f wids (change_found w (X.words.get t w) (f w) t)

  abbrev pub add_posting : ℕ → (ℕ → X.Score) → ℕ → WordInfo X → WordInfo X
  add_posting docid scores w info = record info {
    weights = X.postings.add info.weights (scores w) docid;
  }

  abbrev pub change_length : ℤ → ℕ → WordInfo X → WordInfo X
  change_length n w info = record info { length = info.length +ℤ n }

  -- the loop of `index_doc`
  abbrev pub add_word : ℕ → (ℕ → X.Score) → ℕ → WordInfo X → WordInfo X
  add_word docid scores w info = change_length (pos 1) w (add_posting docid scores w info)

  abbrev pub encode_words : TextIndex X → List ℕ → X.Code
  encode_words ix wids = X.encode (if ix.keep_phrases then wids else unique wids)

  -- `index_doc` of a document that is not there yet
  unfoldable pub insert_doc : ℕ → List ℕ → TextIndex X → TextIndex X
  unfolding get_doctrees change_all
  insert_doc docid wids ix =
      let ix1 = get_doctrees (unique wids) ix in
      record ix1 {
        docwords = X.docs.put ix.docwords docid (encode_words ix wids);
        wordinfo = change_all (add_word docid (widscore wids)) (unique wids) ix1.wordinfo;
        document_count = ix.document_count +ℤ pos 1;
      }

  -- a removal that finds no pair is logged and passed over
  abbrev pub drop_posting : ℕ → (ℕ → X.Score) → ℕ → WordInfo X → WordInfo X
  drop_posting docid scores w info =
      if X.postings.has info.weights (scores w) docid
      then record info { weights = X.postings.remove info.weights (scores w) docid }
      else info

  -- the loops of `_reindex_doc`
  abbrev pub exchange : ℕ → List ℕ → List ℕ → X.words.Tree (WordInfo X) → X.words.Tree (WordInfo X)
  exchange docid old new t =
      let removed = change_all (change_length (negsuc 0)) (difference (unique old) new) t in
      let added = change_all (change_length (pos 1)) (difference (unique new) old) removed in
      let dropped = change_all (drop_posting docid (widscore old)) (unique old) added in
      change_all (add_posting docid (widscore new)) (unique new) dropped

  -- `_reindex_doc`; `parallel_traversal(*zip(*[]))` lacks its arguments where there are no words
  abbrev pub replace_doc : ℕ → List ℕ → List ℕ → List ℕ → TextIndex X → Result ℕ × TextIndex X
  replace_doc docid old new [] ix = (err type_error, ix)
  replace_doc docid old new (w ∷ all_wids) ix =
      let ix1 = get_doctrees (w ∷ all_wids) ix in
      (
        ok (length new),
        record ix1 {
          wordinfo = exchange docid old new ix1.wordinfo;
          docwords = X.docs.put ix.docwords docid (encode_words ix new);
        },
      )

  unfoldable pub index_doc : ℕ → X.Text → TextIndex X → Result ℕ × TextIndex X
  unfolding insert_doc
  index_doc docid text ix0 =
      let (wids, lexicon) = X.source_to_word_ids ix0.lexicon text in
      let ix : TextIndex X = record ix0 { lexicon = lexicon } in
      elim (X.docs.get ix.docwords docid) [
        | none ↦ (ok (length wids), insert_doc docid wids ix)
        | some code ↦
            let old = X.decode code in
            replace_doc docid old wids (union (unique wids) (unique old)) ix
      ]

  -- the loop of `unindex_doc`; an exception leaves what was changed before
  abbrev put_or_del : ℕ → WordInfo X → X.words.Tree (WordInfo X) → X.words.Tree (WordInfo X)
  put_or_del w info t = if eq_ℤ info.length (pos 0) then X.words.del t w else X.words.put t w info

  abbrev without_posting : ℕ → X.Score → WordInfo X → WordInfo X
  without_posting docid s info = record {
    weights = X.postings.remove info.weights s docid;
    length = info.length +ℤ negsuc 0;
  }

  abbrev drop_word :
      ℕ
      → X.Score
      → ℕ
      → Option (WordInfo X)
      → X.words.Tree (WordInfo X)
      → Result (Unit {0}) × X.words.Tree (WordInfo X)
  drop_word docid s w none t = (err key_error, t)
  drop_word docid s w (some info) t =
      if X.postings.has info.weights s docid
      then (ok tt, put_or_del w (without_posting docid s info) t)
      else (err key_error, X.words.put t w (change_length (negsuc 0) w info))

  abbrev then_words :
      Result (Unit {0}) × X.words.Tree (WordInfo X)
      → (X.words.Tree (WordInfo X) → Result (Unit {0}) × X.words.Tree (WordInfo X))
      → Result (Unit {0}) × X.words.Tree (WordInfo X)
  then_words (ok u, t) f = f t
  then_words (err e, t) f = (err e, t)

  unfoldable pub drop_words :
      ℕ
      → (ℕ → X.Score)
      → List ℕ
      → X.words.Tree (WordInfo X)
      → Result (Unit {0}) × X.words.Tree (WordInfo X)
  drop_words docid scores [] t = (ok tt, t)
  drop_words docid scores (w ∷ wids) t =
      then_words (drop_word docid (scores w) w (X.words.get t w) t) (drop_words docid scores wids)

  abbrev pub finish_unindex :
      ℕ
      → TextIndex X
      → Result (Unit {0}) × X.words.Tree (WordInfo X)
      → Result (Unit {0}) × TextIndex X
  finish_unindex docid ix (err e, t) = (err e, record ix { wordinfo = t })
  finish_unindex docid ix (ok u, t) = (
    ok tt,
    record ix {
      wordinfo = t;
      docwords = X.docs.del ix.docwords docid;
      document_count = ix.document_count +ℤ negsuc 0;
    },
  )

  abbrev pub remove_doc : ℕ → List ℕ → List ℕ → TextIndex X → Result (Unit {0}) × TextIndex X
  remove_doc docid old [] ix = (err type_error, ix)
  remove_doc docid old (w ∷ wids) ix =
      let ix1 = get_doctrees (w ∷ wids) ix in
      finish_unindex docid ix1 (drop_words docid (widscore old) (w ∷ wids) ix1.wordinfo)

  unfoldable pub unindex_doc : ℕ → TextIndex X → Result (Unit {0}) × TextIndex X
  unfolding get_doctrees drop_words
  unindex_doc docid ix = elim (X.docs.get ix.docwords docid) [
    | none ↦ (ok tt, ix)
    | some code ↦ let old = X.decode code in remove_doc docid old (unique old) ix
  ]
