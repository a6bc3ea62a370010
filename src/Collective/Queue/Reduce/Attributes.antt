-- ===== src/Collective/Queue/Reduce/Attributes.antt =====
-- The attributes that an entry asks for, and what merging two entries keeps of them (`optimize` of
-- collective/indexing/queue.py).
use zerodb.Common.{◌≡◌, refl, Bool, true, Option, none, some, List, [], ◌∷◌, arith, ◌||◌, ap}
use zerodb.Collective.Queue.Reduce.{Keys, has_attr, union, merge_attr}

module _ (K : Keys) where
  -- the entry asks for the attribute
  abbrev pub covers : Option (List K.Attr) → K.Attr → Bool
  covers none a = true
  covers (some attrs) a = has_attr K a attrs

  has_attr-union :
      (attr iattr : List K.Attr) (a : K.Attr)
      → has_attr K a (union K attr iattr) ≡ (has_attr K a attr || has_attr K a iattr)
  has_attr-union attr [] a = ground arith
  has_attr-union attr (b ∷ iattr) a = elim (K.dec_attr b a) [
    | yes e ↦
        let same : has_attr K b attr ≡ has_attr K a attr = ap (λ x. has_attr K x attr) e in
        ground (arith, e, same, has_attr-union attr iattr a)
    | no n ↦ ground (arith, n, has_attr-union attr iattr a)
  ]

  pub covers-merge_attr :
      (x y : Option (List K.Attr)) (a : K.Attr)
      → (covers x a || covers y a) ≡ true
      → covers (merge_attr K x y) a ≡ true
  covers-merge_attr none y a h = refl
  covers-merge_attr (some x) none a h = refl
  covers-merge_attr (some x) (some y) a h = ground (arith, h, has_attr-union x y a)
