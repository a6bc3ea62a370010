-- ===== src/Catalog/Text/Invariant.antt =====
-- The postings of a text index are those of its documents' words, and the counters count
-- (catalog/indexes/text_lucene.py). Here: the invariant, a new index, and a new document.
use zerodb.Common.{
  ℕ, ◌≡◌, Bool, true, false, ◌&&◌, Option, none, some, List, [], elem, ◌==◌, ite, if◌then◌else◌,
  refl, arith, Bool-cases, inl, inr,
}
use zerodb.Common.Int.{pos, incr_pos}
use zerodb.Catalog.Postings.{Setting, unique}
use zerodb.Catalog.Text.{
  WordInfo, TextIndex, widscore, new_index, get_doctrees, add_word, insert_doc, encode_words,
}
use zerodb.Catalog.Text.Words.{
  elem-unique, distinct-unique, found_or_new, has_posting, wordinfo-get_doctrees,
  get_doctrees_keeps, get-change_all,
}

module _ (X : Setting) where
  abbrev pub decoded : Option X.Code → List ℕ
  decoded none = []
  decoded (some code) = X.decode code

  -- the words that the index keeps of a document
  abbrev pub words_of : TextIndex X → ℕ → List ℕ
  words_of ix docid = decoded (X.docs.get ix.docwords docid)

  -- the pair (score, docid) is the one of a document with these words
  abbrev pub is_score : List ℕ → ℕ → X.Score → Bool
  is_score wids w s = elem w wids && ite (X.postings.dec_score (widscore X wids w) s) true false

  abbrev pub posted : TextIndex X → ℕ → X.Score → ℕ → Bool
  posted ix w s docid = has_posting X (X.words.get ix.wordinfo w) s docid

  -- a word's counter is the number of its pairs
  abbrev pub IsMeasured : Option (WordInfo X) → Type 0
  IsMeasured none = Unit {0}
  IsMeasured (some info) = info.length ≡ pos (X.postings.size info.weights)

-- With phrases kept: each word's pairs are exactly the scores of the documents that have it, its
-- counter is their number, and the index's counter is the number of its documents.
pub record IsConsistent {X : Setting} (ix : TextIndex X) : Type 0 where
  pub phrases : ix.keep_phrases ≡ true
  pub agrees :
      (w : ℕ) (s : X.Score) (docid : ℕ)
      → posted X ix w s docid ≡ is_score X (words_of X ix docid) w s
  pub measured : (w : ℕ) → IsMeasured X (X.words.get ix.wordinfo w)
  pub counted : ix.document_count ≡ pos (X.docs.len ix.docwords)

module _ {X : Setting} where
  pub new_index-IsConsistent : (lexicon : X.Lexicon) → IsConsistent (new_index X lexicon true)
  unfolding new_index
  new_index-IsConsistent lexicon = record {
    phrases = refl;
    agrees = λ w s d. ground (arith, X.words.get-empty (WordInfo X) w, X.docs.get-empty X.Code d);
    measured = λ w. rw (X.words.get-empty (WordInfo X) w, IsMeasured) tt;
    counted = ground (arith, X.docs.len-empty X.Code);
  }

  -- what `_get_doctrees` and the loop of `index_doc` leave of a word's record
  word_after : ℕ → List ℕ → ℕ → Option (WordInfo X) → Option (WordInfo X)
  word_after docid wids w o =
      if elem w wids then some (add_word X docid (widscore X wids) w (found_or_new X o)) else o

  get-insert_doc :
      (docid : ℕ) (wids : List ℕ) (ix : TextIndex X) (w : ℕ)
      → X.words.get (insert_doc X docid wids ix).wordinfo w
        ≡ word_after docid wids w (X.words.get ix.wordinfo w)
  unfolding insert_doc word_after
  get-insert_doc docid wids ix w = ground (
    arith,
    get-change_all X (add_word X docid (widscore X wids)) (unique wids)
        (get_doctrees X (unique wids) ix).wordinfo w (distinct-unique wids),
    wordinfo-get_doctrees X (unique wids) ix w,
    elem-unique wids w,
  )

  word_after-posts :
      (docid : ℕ) (wids : List ℕ) (w : ℕ) (o : Option (WordInfo X)) (s : X.Score) (d : ℕ)
      → has_posting X o s docid ≡ false
      → has_posting X (word_after docid wids w o) s d
        ≡ (if docid == d then is_score X wids w s else has_posting X o s d)
  unfolding word_after
  word_after-posts docid wids w none s d h = ground (
    arith,
    X.postings.has-add X.postings.empty (widscore X wids w) docid s d,
    X.postings.has-empty s d,
  )
  word_after-posts docid wids w (some i) s d h =
      ground (arith, h, X.postings.has-add i.weights (widscore X wids w) docid s d)

  word_after-measures :
      (docid : ℕ) (wids : List ℕ) (w : ℕ) (o : Option (WordInfo X))
      → has_posting X o (widscore X wids w) docid ≡ false
      → IsMeasured X o
      → IsMeasured X (word_after docid wids w o)
  unfolding word_after
  word_after-measures docid wids w none h m = elim (Bool-cases (elem w wids)) [
    | inl e ↦
        rw (e, IsMeasured) ground
          (
            arith,
            X.postings.size-empty,
            incr_pos 0,
            X.postings.size-add_new X.postings.empty (widscore X wids w) docid,
            X.postings.has-empty (widscore X wids w) docid,
          )
    | inr e ↦ rw (e, IsMeasured) tt
  ]
  word_after-measures docid wids w (some i) h m = elim (Bool-cases (elem w wids)) [
    | inl e ↦
        rw (e, IsMeasured) ground
          (
            arith,
            m,
            h,
            incr_pos (X.postings.size i.weights),
            X.postings.size-add_new i.weights (widscore X wids w) docid,
          )
    | inr e ↦ rw (e, IsMeasured) m
  ]

  pub words_of-insert_doc :
      (docid : ℕ) (wids : List ℕ) (ix : TextIndex X) (d : ℕ)
      → ix.keep_phrases ≡ true
      → words_of X (insert_doc X docid wids ix) d ≡ (if docid == d then wids else words_of X ix d)
  unfolding insert_doc
  words_of-insert_doc docid wids ix d h =
      ground (
        arith,
        h,
        X.docs.get-put ix.docwords docid (encode_words X ix wids) d,
        X.decode-encode wids,
      )

  -- Indexing a document that is not there keeps a consistent index consistent.
  pub insert_doc-IsConsistent :
      (docid : ℕ) (wids : List ℕ) {ix : TextIndex X}
      → X.docs.get ix.docwords docid ≡ none
      → IsConsistent ix
      → IsConsistent (insert_doc X docid wids ix)
  unfolding insert_doc
  insert_doc-IsConsistent docid wids {ix} fresh c =
      let absent : (w : ℕ) (s : X.Score) → posted X ix w s docid ≡ false =
        λ w s. ground (arith, fresh, c.agrees w s docid) in
      record {
        phrases = ground (arith, c.phrases, get_doctrees_keeps X (unique wids) ix);
        agrees = λ w s d. ground (
          arith,
          get-insert_doc docid wids ix w,
          word_after-posts docid wids w (X.words.get ix.wordinfo w) s d (absent w s),
          words_of-insert_doc docid wids ix d c.phrases,
          c.agrees w s d,
        );
        measured = λ w. rw (get-insert_doc docid wids ix w) (
            word_after-measures docid wids w (X.words.get ix.wordinfo w)
              (absent w (widscore X wids w)) (c.measured w));
        counted = ground (
          arith,
          fresh,
          c.counted,
          X.docs.len-put_new ix.docwords docid (encode_words X ix wids),
          incr_pos (X.docs.len ix.docwords),
        );
      }
