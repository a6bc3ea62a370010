-- ===== src/Catalog/Text/Exchange.antt =====
-- What re-indexing does to the record of one word (catalog/indexes/text_lucene.py).
use zerodb.Common.{
  ℕ, ap, sym, ◌≡◌, Bool, true, false, ◌||◌, Option, none, some, List, elem, ◌==◌, if◌then◌else◌,
  refl, arith, Option-cases, Bool-cases, inl, inr,
}
use zerodb.Common.Int.{pos, negsuc, incr_pos, decr_pos}
use zerodb.Catalog.Postings.{Setting, unique, difference}
use zerodb.Catalog.Text.{
  WordInfo, TextIndex, widscore, get_doctrees, exchange, change_length, change_all, drop_posting,
  add_posting, new_info,
}
use zerodb.Catalog.Text.Words.{
  elem-unique, distinct-unique, elem-difference, distinct-difference, found_or_new, changed,
  has_posting, wordinfo-get_doctrees, get-change_all,
}
use zerodb.Catalog.Text.Invariant.{IsConsistent, words_of, is_score, IsMeasured}

module _ (X : Setting) where
  -- what the loops of `_reindex_doc` do with the record of one word
  abbrev counted_word : Bool → Bool → WordInfo X → WordInfo X
  counted_word true false info = change_length X (negsuc 0) 0 info
  counted_word false true info = change_length X (pos 1) 0 info
  counted_word true true info = info
  counted_word false false info = info

  abbrev exchange_word : ℕ → List ℕ → List ℕ → ℕ → WordInfo X → WordInfo X
  exchange_word docid old new w info =
      let i1 = counted_word (elem w old) (elem w new) info in
      let i2 = if elem w old then drop_posting X docid (widscore X old) w i1 else i1 in
      if elem w new then add_posting X docid (widscore X new) w i2 else i2

  get-exchange :
      (docid : ℕ) (old new : List ℕ) (t : X.words.Tree (WordInfo X)) (w : ℕ)
      → X.words.get (exchange X docid old new t) w
        ≡ changed X (X.words.get t w) (exchange_word docid old new w)
  get-exchange docid old new t w =
      let removed = change_all X (change_length X (negsuc 0)) (difference (unique old) new) t in
      let added = change_all X (change_length X (pos 1)) (difference (unique new) old) removed in
      let dropped = change_all X (drop_posting X docid (widscore X old)) (unique old) added in
      ground (
        arith,
        get-change_all X (change_length X (negsuc 0)) (difference (unique old) new) t w
            (distinct-difference (unique old) new (distinct-unique old)),
        get-change_all X (change_length X (pos 1)) (difference (unique new) old) removed w
            (distinct-difference (unique new) old (distinct-unique new)),
        get-change_all X (drop_posting X docid (widscore X old)) (unique old) added w
            (distinct-unique old),
        get-change_all X (add_posting X docid (widscore X new)) (unique new) dropped w
            (distinct-unique new),
        elem-difference (unique old) new w,
        elem-difference (unique new) old w,
        elem-unique old w,
        elem-unique new w,
      )

  -- The record had the document's pair exactly if the word is one of these.
  abbrev pub IsPostedAs : ℕ → List ℕ → ℕ → WordInfo X → Type 0
  IsPostedAs docid old w info =
      (s : X.Score) → X.postings.has info.weights s docid ≡ is_score X old w s

  dropped_word-IsPostedAs :
      (docid : ℕ) (old : List ℕ) (w : ℕ) (p : X.postings.Set) (s : X.Score) (d : ℕ)
      → X.postings.has p (widscore X old w) docid ≡ true
      → ((s : X.Score) → X.postings.has p s docid ≡ is_score X old w s)
      → X.postings.has (X.postings.remove p (widscore X old w) docid) s d
        ≡ (if docid == d then false else X.postings.has p s d)
  dropped_word-IsPostedAs docid old w p s d there h =
      ground (arith, there, h s, X.postings.has-remove p (widscore X old w) docid s d)

  exchange_word-posts :
      (docid : ℕ) (old new : List ℕ) (w : ℕ) (info : WordInfo X) (s : X.Score) (d : ℕ)
      → IsPostedAs docid old w info
      → X.postings.has (exchange_word docid old new w info).weights s d
        ≡ (if docid == d then is_score X new w s else X.postings.has info.weights s d)
  exchange_word-posts docid old new w info s d h =
      let p = info.weights in
      let rest = X.postings.remove p (widscore X old w) docid in
      ground (
        arith,
        h s,
        h (widscore X old w),
        dropped_word-IsPostedAs docid old w p s d,
        X.postings.has-add p (widscore X new w) docid s d,
        X.postings.has-add rest (widscore X new w) docid s d,
      )

  exchange_word-measures :
      (docid : ℕ) (old new : List ℕ) (w : ℕ) (info : WordInfo X)
      → IsPostedAs docid old w info
      → info.length ≡ pos (X.postings.size info.weights)
      → (exchange_word docid old new w info).length
        ≡ pos (X.postings.size (exchange_word docid old new w info).weights)
  exchange_word-measures docid old new w info h m =
      let p = info.weights in
      let rest = X.postings.remove p (widscore X old w) docid in
      ground (
        arith,
        m,
        h (widscore X old w),
        h (widscore X new w),
        dropped_word-IsPostedAs docid old w p (widscore X new w) docid,
        X.postings.size-remove p (widscore X old w) docid,
        X.postings.size-add_new p (widscore X new w) docid,
        X.postings.size-add_new rest (widscore X new w) docid,
        incr_pos (X.postings.size p),
        decr_pos (X.postings.size rest),
      )

module _ {X : Setting} where
  pub found_or_new-IsPostedAs :
      (docid w : ℕ) {ix : TextIndex X}
      → IsConsistent ix
      → IsPostedAs X docid (words_of X ix docid) w (found_or_new X (X.words.get ix.wordinfo w))
  found_or_new-IsPostedAs docid w {ix} c s = elim (Option-cases (X.words.get ix.wordinfo w)) [
    | inl e ↦ ground (arith, e, c.agrees w s docid, X.postings.has-empty s docid)
    | inr (i, e) ↦ ground (arith, e, c.agrees w s docid)
  ]

  -- the record of a word, as `_reindex_doc` leaves it
  pub replaced_word : ℕ → List ℕ → List ℕ → ℕ → Option (WordInfo X) → Option (WordInfo X)
  replaced_word docid old new w o =
      changed X (if elem w new || elem w old then some (found_or_new X o) else o)
        (exchange_word X docid old new w)

  pub replaced_word-posts :
      (docid : ℕ) (old new : List ℕ) (w : ℕ) (o : Option (WordInfo X)) (s : X.Score) (d : ℕ)
      → IsPostedAs X docid old w (found_or_new X o)
      → has_posting X (replaced_word docid old new w o) s d
        ≡ (if docid == d then is_score X new w s else has_posting X o s d)
  unfolding replaced_word
  replaced_word-posts docid old new w none s d h =
      ground
        (arith, exchange_word-posts X docid old new w (new_info X) s d h, X.postings.has-empty s d)
  replaced_word-posts docid old new w (some i) s d h =
      ground (arith, exchange_word-posts X docid old new w i s d h)

  pub replaced_word-measures :
      (docid : ℕ) (old new : List ℕ) (w : ℕ) (o : Option (WordInfo X))
      → IsPostedAs X docid old w (found_or_new X o)
      → IsMeasured X o
      → IsMeasured X (replaced_word docid old new w o)
  unfolding replaced_word
  replaced_word-measures docid old new w none h m = elim (Bool-cases (elem w new || elem w old)) [
    | inl e ↦ rw e (
        exchange_word-measures X docid old new w (new_info X) h
          (ap pos (sym X.postings.size-empty)))
    | inr e ↦ rw e tt
  ]
  replaced_word-measures docid old new w (some i) h m =
      elim (Bool-cases (elem w new || elem w old)) [
        | inl e ↦ rw e (exchange_word-measures X docid old new w i h m)
        | inr e ↦ rw e (exchange_word-measures X docid old new w i h m)
      ]

  pub get-replaced :
      (docid : ℕ) (old new all : List ℕ) (ix : TextIndex X) (w : ℕ)
      → elem w all ≡ (elem w new || elem w old)
      → X.words.get (exchange X docid old new (get_doctrees X all ix).wordinfo) w
        ≡ replaced_word docid old new w (X.words.get ix.wordinfo w)
  unfolding replaced_word
  get-replaced docid old new all ix w h =
      rw
        (
          get-exchange X docid old new (get_doctrees X all ix).wordinfo w,
          wordinfo-get_doctrees X all ix w,
          h,
        )
        refl
