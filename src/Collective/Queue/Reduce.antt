-- ===== src/Collective/Queue/Reduce.antt =====
-- `IndexQueue.optimize` of collective/indexing/queue.py: one entry for each object, its operations
-- added up, those that un-index first. The operations are those of collective/indexing/config.py.
pub mod Attributes
pub mod Net
pub mod Order
pub mod Asked
use zerodb.Common.{
  ℕ, zero, suc, ◌+◌, ◌≡◌, refl, Bool, true, false, Option, none, some, List, [], ◌∷◌, ◌++◌, ite,
  if◌then◌else◌, arith, map, ltb, leb, ◌&&◌, ◌||◌,
}
use zerodb.Common.Int.{ℤ, pos, negsuc, ◌+ℤ◌, max_ℤ, min_ℤ, eq_ℤ, leb_ℤ}

abbrev pub unindex_op : ℤ
unindex_op = negsuc 0

abbrev pub reindex_op : ℤ
reindex_op = pos 0

abbrev pub index_op : ℤ
index_op = pos 1

-- What the queue asks of objects and attributes: `hash(obj)`, with the physical path of an object
-- that has one, as `oid`; `id(obj)`, by which `Model.__lt__` orders, as `rank`.
pub record Keys : Type 1 where
  pub Obj : Type 0
  pub Oid : Type 0
  pub Attr : Type 0
  pub oid : Obj → Oid
  pub rank : Obj → ℕ
  pub dec_oid : Discrete Oid
  pub dec_attr : Discrete Attr

pub record Entry (K : Keys) : Type 0 where
  pub op : ℤ
  pub obj : K.Obj
  pub attr : Option (List K.Attr)

-- `min(max(op, UNINDEX), INDEX)`
abbrev pub clamp : ℤ → ℤ
clamp op = min_ℤ (max_ℤ op unindex_op) index_op

module _ (K : Keys) where
  abbrev pub has_attr : K.Attr → List K.Attr → Bool
  has_attr a [] = false
  has_attr a (b ∷ l) = ite (K.dec_attr b a) true (has_attr a l)

  -- `tuple(set(attr).union(iattr))`; the order of a set is not modelled
  abbrev pub union : List K.Attr → List K.Attr → List K.Attr
  union attr [] = attr
  union attr (a ∷ iattr) = if has_attr a attr then union attr iattr else a ∷ union attr iattr

  abbrev merge_attr : Option (List K.Attr) → Option (List K.Attr) → Option (List K.Attr)
  merge_attr (some attr) (some iattr) = some (union attr iattr)
  merge_attr _ _ = none

  -- one round of the loop, on the entry of the object in `res`; `none` deletes it
  unfoldable pub step : Option (Entry K) → Entry K → Option (Entry K)
  step none e =
      some (record { op = clamp (pos 0 +ℤ e.op); obj = e.obj; attr = merge_attr e.attr e.attr })
  step (some old) e =
      if eq_ℤ old.op index_op && eq_ℤ e.op unindex_op
      then none
      else some
          (record { op = clamp (old.op +ℤ e.op); obj = e.obj; attr = merge_attr old.attr e.attr })

  -- the dictionary `res`, one item for each oid
  abbrev pub Res : Type 0
  Res = List (K.Oid × Entry K)

  unfoldable pub res_get : Res → K.Oid → Option (Entry K)
  res_get [] k = none
  res_get ((j, e) ∷ res) k = ite (K.dec_oid j k) (some e) (res_get res k)

  unfoldable pub res_del : Res → K.Oid → Res
  res_del [] k = []
  res_del ((j, e) ∷ res) k = let rest = res_del res k in ite (K.dec_oid j k) rest ((j, e) ∷ rest)

  abbrev pub res_set : Res → K.Oid → Option (Entry K) → Res
  res_set res k none = res_del res k
  res_set res k (some e) = (k, e) ∷ res_del res k

  -- the loop over the queue
  unfoldable pub reduce : List (Entry K) → Res → Res
  reduce [] res = res
  reduce (e ∷ queue) res =
      reduce queue (res_set res (K.oid e.obj) (step (res_get res (K.oid e.obj)) e))

  -- entries compare by their operations and then by their objects
  abbrev pub entry_leb : Entry K → Entry K → Bool
  entry_leb a b = (if eq_ℤ a.op b.op then leb (K.rank a.obj) (K.rank b.obj) else leb_ℤ a.op b.op)

  unfoldable pub insort : Entry K → List (Entry K) → List (Entry K)
  insort e [] = e ∷ []
  insort e (f ∷ l) = let rest = insort e l in if entry_leb e f then e ∷ f ∷ l else f ∷ rest

  -- `sorted(res.values())`
  unfoldable pub sorted : Res → List (Entry K)
  unfolding insort
  sorted [] = []
  sorted ((k, e) ∷ res) = insort e (sorted res)

  -- the list that `optimize` sets
  unfoldable pub optimized : List (Entry K) → List (Entry K)
  unfolding reduce sorted step res_get res_del
  optimized queue = sorted (reduce queue [])
