-- ===== src/Storage/Prefetch.antt =====
-- storage/__init__.py: `prefetch_trees`, which fetches the nodes of trees level by level. Objects
-- are numbers; the kinds of children that are followed, which the first call determines, are a
-- test.
use zerodb.Common.{
  ℕ, zero, suc, ◌≤◌, ◌≡◌, refl, Bool, true, false, ◌||◌, Option, none, some, List, [], ◌∷◌, ◌++◌,
  elem, length, ap, ◌∙◌, if◌then◌else◌, arith, Bool-cases, inl, inr, ◌==◌, ==_iff,
}

-- `is_object` is `isinstance(t, Persistent) and hasattr(t, "_p_oid")`; `state` is the first
-- component of `__getstate__()`, or nothing.
pub record Heap : Type 0 where
  pub is_object : ℕ → Bool
  pub is_followed : ℕ → Bool
  pub state : ℕ → Option (List ℕ)

abbrev pub filter : (ℕ → Bool) → List ℕ → List ℕ
filter test [] = []
filter test (o ∷ l) = if test o then o ∷ filter test l else filter test l

module _ (H : Heap) where
  abbrev children_of : Option (List ℕ) → List ℕ
  children_of none = []
  children_of (some l) = filter H.is_followed l

  unfoldable pub children : List ℕ → List ℕ
  children [] = []
  children (t ∷ trees) = children_of (H.state t) ++ children trees

  abbrev fetch_level : List ℕ → List (List ℕ) → List (List ℕ)
  fetch_level [] rest = []
  fetch_level (t ∷ trees) rest = (t ∷ trees) ∷ rest

  -- The bulk requests, each the list of the objects that are asked for at once.
  unfoldable pub prefetch_trees : ℕ → List ℕ → List (List ℕ)
  unfolding children
  prefetch_trees zero trees = []
  prefetch_trees (suc depth) trees =
      let rest = prefetch_trees depth (children (filter H.is_object trees)) in
      fetch_level (filter H.is_object trees) rest

  -- The object `t` is so many steps below the tree `p`: each step goes from an object to one that
  -- its state holds and that is of a kind that is followed.
  pub data Below (t : ℕ) : ℕ → ℕ → Type 0 where
    root : H.is_object t ≡ true → Below t zero t
    child :
        {n p c : ℕ} (held : List ℕ)
        → H.is_object p ≡ true
        → H.state p ≡ some held
        → elem c held ≡ true
        → H.is_followed c ≡ true
        → Below t n c
        → Below t (suc n) p

  -- An object is in one of the requests.
  abbrev pub fetched : ℕ → List (List ℕ) → Bool
  fetched t [] = false
  fetched t (level ∷ rest) = elem t level || fetched t rest

  elem-filter :
      (test : ℕ → Bool) (l : List ℕ) (t : ℕ)
      → elem t l ≡ true
      → test t ≡ true
      → elem t (filter test l) ≡ true
  elem-filter test [] t m h = cc
  elem-filter test (o ∷ l) t m h = elim (Bool-cases (o == t)) [
    | inl b ↦ ground (arith, ==_iff o t, b, h)
    | inr b ↦ ground (arith, b, m, elem-filter test l t)
  ]

  fetched-level :
      (t : ℕ) (level : List ℕ) (rest : List (List ℕ))
      → elem t level ≡ true
      → fetched t (fetch_level level rest) ≡ true
  fetched-level t [] rest h = cc
  fetched-level t (o ∷ level) rest h = ground (arith, h)

  elem-++ : (l m : List ℕ) (t : ℕ) → elem t (l ++ m) ≡ (elem t l || elem t m)
  elem-++ [] m t = refl
  elem-++ (x ∷ l) m t = ground (arith, elem-++ l m t)

  -- The children of every tree are there.
  elem-children :
      (trees held : List ℕ) (p c : ℕ)
      → elem p trees ≡ true
      → H.state p ≡ some held
      → elem c held ≡ true
      → H.is_followed c ≡ true
      → elem c (children trees) ≡ true
  unfolding children
  elem-children [] held p c m e h f = cc
  elem-children (o ∷ trees) held p c m e h f = elim (Bool-cases (o == p)) [
    | inl b ↦
        let same : H.state o ≡ some held = ap H.state ((==_iff o p).0 b) ∙ e in
        let first : elem c (children_of (H.state o)) ≡ true =
          ap (λ state. elem c (children_of state)) same ∙ elem-filter H.is_followed held c h f in
        ground (arith, first, elem-++ (children_of (H.state o)) (children trees) c)
    | inr b ↦
        let later = elem-children trees held p c (ground (arith, b, m)) e h f in
        ground (arith, later, elem-++ (children_of (H.state o)) (children trees) c)
  ]

  fetched-later :
      (t p : ℕ) (level : List ℕ) (rest : List (List ℕ))
      → elem p level ≡ true
      → fetched t rest ≡ true
      → fetched t (fetch_level level rest) ≡ true
  fetched-later t p [] rest m h = absurd (cc)
  fetched-later t p (o ∷ level) rest m h = ground (arith, h)

  length-fetch_level :
      (level : List ℕ) (rest : List (List ℕ)) → length (fetch_level level rest) ≤ suc (length rest)
  length-fetch_level [] rest = omega arith
  length-fetch_level (o ∷ level) rest = omega arith

  -- The requests are at most as many as the depth.
  pub length-prefetch_trees :
      (depth : ℕ) (trees : List ℕ) → length (prefetch_trees depth trees) ≤ depth
  unfolding prefetch_trees
  length-prefetch_trees zero trees = omega arith
  length-prefetch_trees (suc depth) trees =
      let level = filter H.is_object trees in
      omega (
        arith,
        length-fetch_level level (prefetch_trees depth (children level)),
        length-prefetch_trees depth (children level),
      )

  -- Every object fewer steps below one of the trees than the depth is asked for in some request.
  pub prefetch_trees_lem :
      (depth n t p : ℕ) (trees : List ℕ)
      → suc n ≤ depth
      → elem p trees ≡ true
      → Below t n p
      → fetched t (prefetch_trees depth trees) ≡ true
  unfolding prefetch_trees
  prefetch_trees_lem zero n t p trees l m b = absurd (omega arith)
  prefetch_trees_lem (suc depth) zero t p trees l m (root o) =
      let level = filter H.is_object trees in
      fetched-level t level (prefetch_trees depth (children level))
        (elem-filter H.is_object trees t m o)
  prefetch_trees_lem (suc depth) (suc n) t p trees l m (child {c = c} held o e h f b) =
      let level = filter H.is_object trees in
      let there = elem-filter H.is_object trees p m o in
      fetched-later t p level (prefetch_trees depth (children level)) there (
        prefetch_trees_lem depth n t c (children level) (omega arith)
          (elem-children level held p c there e h f) b)
