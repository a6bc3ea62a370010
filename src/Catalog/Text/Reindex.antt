-- ===== src/Catalog/Text/Reindex.antt =====
-- Indexing a document of a text index again with another text (catalog/indexes/text_lucene.py).
use zerodb.Common.{
  ℕ, sym, ◌≡◌, Bool, true, false, ◌||◌, none, some, ap, ◌∙◌, if_pos, List, [], ◌∷◌, elem, ◌==◌,
  if◌then◌else◌, refl, arith, Option-cases, inl, inr, length,
}
use zerodb.Common.Result.{ok, err, type_error}
use zerodb.Catalog.Postings.{Setting, unique, union}
use zerodb.Catalog.Text.{
  TextIndex, get_doctrees, insert_doc, replace_doc, exchange, encode_words, index_doc, unindex_doc,
}
use zerodb.Catalog.Text.Words.{elem-unique, elem-union, found_or_new, get_doctrees_keeps}
use zerodb.Catalog.Text.Invariant.{
  IsConsistent, decoded, words_of, insert_doc-IsConsistent, words_of-insert_doc,
}
use zerodb.Catalog.Text.Exchange.{
  IsPostedAs, replaced_word, found_or_new-IsPostedAs, replaced_word-posts, replaced_word-measures,
  get-replaced,
}

-- What indexing a text did: the document has its words, every other document is as before, and
-- the index is consistent.
pub record Indexed {X : Setting} (docid : ℕ) (wids : List ℕ) (ix ix' : TextIndex X) : Type 0 where
  pub words : (d : ℕ) → words_of X ix' d ≡ (if docid == d then wids else words_of X ix d)
  pub consistent : IsConsistent ix'

no_words : (b : Bool) → (if b then [] else unique []) ≡ []
no_words true = refl
no_words false = refl

module _ {X : Setting} where
  -- `_reindex_doc`, where the document had a word or has one now
  replace_doc-Indexed :
      (docid v : ℕ) (code : X.Code) (new all : List ℕ) {ix : TextIndex X}
      → IsConsistent ix
      → X.docs.get ix.docwords docid ≡ some code
      → ((w : ℕ) → elem w all ≡ (elem w new || elem w (X.decode code)))
      → elem v all ≡ true
      → (ix' : TextIndex X) × (replace_doc X docid (X.decode code) new all ix
          ≡ (ok (length new), ix'))
        × Indexed docid new ix ix'
  replace_doc-Indexed docid v code new [] c at both m = absurd (cc)
  replace_doc-Indexed docid v code new (u ∷ us) {ix} c at both m =
      let old = X.decode code in
      let all = u ∷ us in
      let ix1 = get_doctrees X all ix in
      let (docs, phr, cnt) = get_doctrees_keeps X all ix in
      let known : words_of X ix docid ≡ old = ground (arith, at) in
      let was : (w : ℕ) → IsPostedAs X docid old w (found_or_new X (X.words.get ix.wordinfo w)) =
        λ w. rw (sym known) (found_or_new-IsPostedAs docid w c) in
      let found : (w : ℕ)
          → X.words.get (exchange X docid old new ix1.wordinfo) w
            ≡ replaced_word docid old new w (X.words.get ix.wordinfo w) =
        λ w. get-replaced docid old new all ix w (both w) in
      let words : (d : ℕ)
          → decoded X (X.docs.get (X.docs.put ix.docwords docid (encode_words X ix new)) d)
            ≡ (if docid == d then new else words_of X ix d) =
        λ d. ground (
          arith,
          c.phrases,
          X.docs.get-put ix.docwords docid (encode_words X ix new) d,
          X.decode-encode new,
        ) in
      (
        record ix1 {
          wordinfo = exchange X docid old new ix1.wordinfo;
          docwords = X.docs.put ix.docwords docid (encode_words X ix new);
        },
        refl,
        record {
          words = words;
          consistent = record {
            phrases = ground (arith, phr, c.phrases);
            agrees = λ w s d. ground (
              arith,
              found w,
              words d,
              c.agrees w s d,
              replaced_word-posts docid old new w (X.words.get ix.wordinfo w) s d (was w),
            );
            measured = λ w. rw (found w) (
                replaced_word-measures docid old new w (X.words.get ix.wordinfo w) (was w)
                  (c.measured w));
            counted = ground (
              arith,
              at,
              cnt,
              c.counted,
              X.docs.len-put_old ix.docwords docid (encode_words X ix new),
            );
          };
        },
      )

  -- the index after the lexicon has read the text
  abbrev pub with_lexicon : TextIndex X → X.Lexicon → TextIndex X
  with_lexicon ix lexicon = record ix { lexicon = lexicon }

  with_lexicon-IsConsistent :
      (lexicon : X.Lexicon) {ix : TextIndex X}
      → IsConsistent ix
      → IsConsistent (with_lexicon ix lexicon)
  with_lexicon-IsConsistent lexicon c = record {
    phrases = c.phrases;
    agrees = c.agrees;
    measured = c.measured;
    counted = c.counted;
  }

  -- In a consistent index, indexing a text that has a word returns the number of its words,
  -- whether the document is new or had another text: the document has then these words, every
  -- other document is as before, and the index is consistent.
  pub index_doc-Indexed :
      (docid v : ℕ) (text : X.Text) (wids : List ℕ) (lexicon : X.Lexicon) {ix : TextIndex X}
      → IsConsistent ix
      → X.source_to_word_ids ix.lexicon text ≡ (wids, lexicon)
      → elem v wids ≡ true
      → (ix' : TextIndex X) × (index_doc X docid text ix ≡ (ok (length wids), ix'))
        × Indexed docid wids ix ix'
  unfolding index_doc
  index_doc-Indexed docid v text wids lexicon {ix} c read has =
      let c' = with_lexicon-IsConsistent lexicon c in
      elim (Option-cases (X.docs.get ix.docwords docid)) [
        | inl e ↦ (
          insert_doc X docid wids (with_lexicon ix lexicon),
          rw (e, index_doc, read) refl,
          record {
            words = λ d. words_of-insert_doc docid wids (with_lexicon ix lexicon) d c.phrases;
            consistent = insert_doc-IsConsistent docid wids e c';
          },
        )
        | inr (code, e) ↦
            let old = X.decode code in
            let all = union (unique wids) (unique old) in
            let both : (w : ℕ) → elem w all ≡ (elem w wids || elem w old) = λ w. ground (
              arith,
              elem-union (unique wids) (unique old) w,
              elem-unique wids w,
              elem-unique old w,
            ) in
            let (ix', ran, done) =
              replace_doc-Indexed docid v code wids all c' e both (ground (arith, has, both v)) in
            (
              ix',
              rw (e, index_doc, read) ran,
              record { words = done.words; consistent = done.consistent },
            )
      ]

  -- A document that was not there and whose text has no words is indexed, and is then stuck:
  -- un-indexing it raises and leaves the index as it is, and indexing another text without words
  -- raises too.
  pub wordless_raises :
      (docid : ℕ) (text other : X.Text) (ix : TextIndex X)
      → X.docs.get ix.docwords docid ≡ none
      → (X.source_to_word_ids ix.lexicon text).0 ≡ []
      → (X.source_to_word_ids (X.source_to_word_ids ix.lexicon text).1 other).0 ≡ []
      → (let kept = index_doc X docid text ix in
          (kept.0 ≡ ok 0)
          × (unindex_doc X docid kept.1 ≡ (err type_error, kept.1))
          × ((index_doc X docid other kept.1).0 ≡ err type_error))
  unfolding index_doc unindex_doc
  wordless_raises docid text other ix absent none_read none_after =
      let ix' = insert_doc X docid [] (with_lexicon ix (X.source_to_word_ids ix.lexicon text).1) in
      let ran : index_doc X docid text ix ≡ (ok 0, ix') = rw (absent, index_doc, none_read) refl in
      let at : X.docs.get ix'.docwords docid ≡ some (X.encode []) =
        X.docs.get-put ix.docwords docid (encode_words X ix []) docid
        ∙ if_pos (X.docs.dec docid docid) refl _ _
        ∙ ap (λ l. some (X.encode l)) (no_words ix.keep_phrases) in
      rw ran (
        refl,
        rw (at, unindex_doc, X.decode-encode) refl,
        rw (at, index_doc, X.decode-encode, none_after) refl,
      )
