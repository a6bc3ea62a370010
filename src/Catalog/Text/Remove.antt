-- ===== src/Catalog/Text/Remove.antt =====
-- Un-indexing a document of a consistent text index (catalog/indexes/text_lucene.py).
use zerodb.Common.{
  ap, ℕ, ◌≡◌, true, false, Option, none, some, List, [], ◌∷◌, elem, ◌==◌, ite, if◌then◌else◌,
  is_some, refl, arith, Option-cases, Bool-cases, inl, inr,
}
use zerodb.Common.Int.{pos, negsuc, ◌+ℤ◌, decr_pos, eq_ℤ}
use zerodb.Common.Result.{ok}
use zerodb.Catalog.Postings.{Setting, unique}
use zerodb.Catalog.Text.{
  WordInfo, TextIndex, widscore, get_doctrees, drop_words, unindex_doc, remove_doc, finish_unindex,
}
use zerodb.Catalog.Text.Words.{
  elem-unique, distinct-unique, has_posting, less_doc, wordinfo-get_doctrees, get_doctrees_keeps,
  drop_words_drops,
}
use zerodb.Catalog.Text.Invariant.{IsConsistent, words_of, posted, IsMeasured}

module _ (X : Setting) where
  -- One pair less: a record that becomes empty had no other pair.
  less_doc-posts :
      (docid : ℕ) (s0 : X.Score) (o : Option (WordInfo X)) (s : X.Score) (d : ℕ)
      → has_posting X o s0 docid ≡ true
      → IsMeasured X o
      → has_posting X (less_doc X docid s0 o) s d ≡ (
          if docid == d
          then ite (X.postings.dec_score s0 s) false (has_posting X o s d)
          else has_posting X o s d)
  less_doc-posts docid s0 none s d h m = absurd (cc)
  less_doc-posts docid s0 (some i) s d h m =
      let rest = X.postings.remove i.weights s0 docid in
      ground (
        arith,
        h,
        m,
        X.postings.size-remove i.weights s0 docid,
        decr_pos (X.postings.size rest),
        X.postings.has-remove i.weights s0 docid s d,
        X.postings.size-remove rest s d,
      )

  less_doc-measures :
      (docid : ℕ) (s : X.Score) (o : Option (WordInfo X))
      → has_posting X o s docid ≡ true
      → IsMeasured X o
      → IsMeasured X (less_doc X docid s o)
  less_doc-measures docid s none h m = tt
  less_doc-measures docid s (some i) h m =
      let rest = X.postings.remove i.weights s docid in
      let down : i.length +ℤ negsuc 0 ≡ pos (X.postings.size rest) =
        ground (
          arith,
          h,
          m,
          X.postings.size-remove i.weights s docid,
          decr_pos (X.postings.size rest),
        ) in
      elim (Bool-cases (eq_ℤ (i.length +ℤ negsuc 0) (pos 0))) [
        | inl e ↦ rw (e, IsMeasured) tt
        | inr e ↦ rw (e, IsMeasured) down
      ]

-- What `unindex_doc` did: the document is gone, every other document is as before, and the index
-- is consistent.
pub record Unindexed {X : Setting} (docid : ℕ) (ix ix' : TextIndex X) : Type 0 where
  pub gone : X.docs.get ix'.docwords docid ≡ none
  pub words : (d : ℕ) → words_of X ix' d ≡ (if docid == d then [] else words_of X ix d)
  pub consistent : IsConsistent ix'

module _ {X : Setting} where
  get_doctrees_found :
      (wids : List ℕ) (ix : TextIndex X) (w : ℕ)
      → ((v : ℕ) → elem v wids ≡ true → is_some (X.words.get ix.wordinfo v) ≡ true)
      → X.words.get (get_doctrees X wids ix).wordinfo w ≡ X.words.get ix.wordinfo w
  get_doctrees_found wids ix w all = elim (Option-cases (X.words.get ix.wordinfo w)) [
    | inl e ↦ ground (arith, e, wordinfo-get_doctrees X wids ix w, all w)
    | inr (i, e) ↦ ground (arith, e, wordinfo-get_doctrees X wids ix w)
  ]

  remove_doc_some :
      (docid v : ℕ) (old wids : List ℕ) (ix : TextIndex X)
      → elem v wids ≡ true
      → remove_doc X docid old wids ix ≡ (
          let ix1 = get_doctrees X wids ix in
          finish_unindex X docid ix1 (drop_words X docid (widscore X old) wids ix1.wordinfo))
  remove_doc_some docid v old [] ix h = absurd (cc)
  remove_doc_some docid v old (w ∷ wids) ix h = refl

  scored-posted :
      (docid : ℕ) (code : X.Code) {ix : TextIndex X}
      → IsConsistent ix
      → X.docs.get ix.docwords docid ≡ some code
      → (w : ℕ) → elem w (X.decode code) ≡ true
      → posted X ix w (widscore X (X.decode code) w) docid ≡ true
  scored-posted docid code {ix} c at w m =
      ground (arith, at, m, c.agrees w (widscore X (X.decode code) w) docid)

  dropped-IsConsistent :
      (docid : ℕ) (code : X.Code) {ix ix' : TextIndex X}
      → IsConsistent ix
      → X.docs.get ix.docwords docid ≡ some code
      → ix'.keep_phrases ≡ ix.keep_phrases
      → ix'.docwords ≡ X.docs.del ix.docwords docid
      → ix'.document_count ≡ ix.document_count +ℤ negsuc 0
      → ((w : ℕ)
          → X.words.get ix'.wordinfo w ≡ (
              if elem w (X.decode code)
              then less_doc X docid (widscore X (X.decode code) w) (X.words.get ix.wordinfo w)
              else X.words.get ix.wordinfo w))
      → IsConsistent ix'
  dropped-IsConsistent docid code {ix = ix} {ix' = ix'} c at phr docs cnt found =
      let old = X.decode code in
      let here = scored-posted docid code c at in
      let gone : (d : ℕ)
          → X.docs.get ix'.docwords d ≡ (if docid == d then none else X.docs.get ix.docwords d) =
        λ d. rw docs ground (arith, X.docs.get-del ix.docwords docid d) in
      record {
        phrases = ground (arith, phr, c.phrases);
        agrees = λ w s d. elim (Bool-cases (elem w old)) [
          | inl m ↦ ground (
            arith,
            m,
            at,
            found w,
            gone d,
            c.agrees w s d,
            here w m,
            less_doc-posts X docid (widscore X old w) (X.words.get ix.wordinfo w) s d (here w m)
                (c.measured w),
          )
          | inr m ↦ ground (arith, m, at, found w, gone d, c.agrees w s d)
        ];
        measured = λ w. elim (Bool-cases (elem w old)) [
          | inl m ↦
              rw (found w, m)
                (less_doc-measures X docid (widscore X old w) (X.words.get ix.wordinfo w) (here w m)
                  (c.measured w))
          | inr m ↦ rw (found w, m) (c.measured w)
        ];
        counted =
            rw (docs, cnt) ground
              (
                arith,
                at,
                c.counted,
                X.docs.len-del ix.docwords docid,
                decr_pos (X.docs.len (X.docs.del ix.docwords docid)),
              );
      }

  -- Un-indexing a document that has a word returns: the document is gone, every other document
  -- keeps its words, and a consistent index stays consistent.
  pub unindex_doc-Unindexed :
      (docid v : ℕ) (code : X.Code) {ix : TextIndex X}
      → IsConsistent ix
      → X.docs.get ix.docwords docid ≡ some code
      → elem v (X.decode code) ≡ true
      → (ix' : TextIndex X) × (unindex_doc X docid ix ≡ (ok tt, ix')) × Unindexed docid ix ix'
  unfolding unindex_doc
  unindex_doc-Unindexed docid v code {ix} c at has =
      let old = X.decode code in
      let scores = widscore X old in
      let here = scored-posted docid code c at in
      let kept : (w : ℕ)
          → X.words.get (get_doctrees X (unique old) ix).wordinfo w ≡ X.words.get ix.wordinfo w =
        λ w.
          get_doctrees_found (unique old) ix w
            (λ u m. ground (arith, here u, m, elem-unique old u)) in
      let (t, ran, after) =
        drop_words_drops X docid scores (unique old) (get_doctrees X (unique old) ix).wordinfo
          (distinct-unique old) (λ w m. ground (arith, here w, m, kept w, elem-unique old w)) in
      let ix' : TextIndex X = record (get_doctrees X (unique old) ix) {
        wordinfo = t;
        docwords = X.docs.del (get_doctrees X (unique old) ix).docwords docid;
        document_count = (get_doctrees X (unique old) ix).document_count +ℤ negsuc 0;
      } in
      let (docs, phr, cnt) = get_doctrees_keeps X (unique old) ix in
      let found : (w : ℕ)
          → X.words.get t w ≡ (
              if elem w old
              then less_doc X docid (scores w) (X.words.get ix.wordinfo w)
              else X.words.get ix.wordinfo w) =
        λ w. ground (arith, after w, kept w, elem-unique old w) in
      let gone : (d : ℕ)
          → X.docs.get ix'.docwords d ≡ (if docid == d then none else X.docs.get ix.docwords d) =
        λ d. rw docs ground (arith, X.docs.get-del ix.docwords docid d) in
      (
        ix',
        rw
            (
              at,
              unindex_doc,
              remove_doc_some docid v old (unique old) ix (ground (arith, has, elem-unique old v)),
              ran,
            )
            refl,
        record {
          gone = ground (arith, gone docid);
          words = λ d. ground (arith, gone d);
          consistent =
              dropped-IsConsistent docid code {ix = ix} {ix' = ix'} c at phr
                (ap (λ (t : X.docs.Tree X.Code). X.docs.del t docid) docs)
                (ap (λ n. n +ℤ negsuc 0) cnt) found;
        },
      )
