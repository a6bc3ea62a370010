-- ===== src/Collective/Queue/Reduce/Asked.antt =====
-- What the reduction keeps of re-indexing operations: every attribute that was asked for (`optimize`
-- of collective/indexing/queue.py).
use zerodb.Common.{
  ◌≡◌, refl, Bool, true, false, Option, none, some, List, [], ◌∷◌, ite, arith, ◌&&◌, ◌||◌, inl, inr,
  Bool-cases, ap, sym, if_pos, if_neg, subst,
}
use zerodb.Common.Int.{◌+ℤ◌}
use zerodb.Collective.Queue.Reduce.{
  Keys, Entry, reindex_op, step, Res, res_get, res_del, reduce, insort, sorted, optimized,
  merge_attr, entry_leb,
}
use zerodb.Collective.Queue.Reduce.Net.{net, get-reduce}
use zerodb.Collective.Queue.Reduce.Attributes.{covers, covers-merge_attr}

module _ (K : Keys) where
  abbrev pub asks : List (Entry K) → K.Oid → K.Attr → Bool
  asks [] k a = false
  asks (e ∷ l) k a = (ite (K.dec_oid (K.oid e.obj) k) true false && covers K e.attr a) || asks l k a

  -- each entry re-indexes, an object of which something holds
  abbrev pub AllReindex : (K.Obj → Type 0) → List (Entry K) → Type 0
  AllReindex P [] = Unit {0}
  AllReindex P (e ∷ l) = ((e.op ≡ reindex_op) × P e.obj) × AllReindex P l

  -- what the reduction has of an object asks for the attribute
  abbrev kept : Option (Entry K) → K.Attr → Bool
  kept none a = false
  kept (some e) a = covers K e.attr a

  abbrev IsReindex : Option (Entry K) → Type 0
  IsReindex none = Unit {0}
  IsReindex (some e) = e.op ≡ reindex_op

  step-IsReindex :
      (o : Option (Entry K)) (e : Entry K)
      → IsReindex o
      → e.op ≡ reindex_op
      → IsReindex (step K o e)
  unfolding step ◌+ℤ◌
  step-IsReindex none e h r = ground (arith, r)
  step-IsReindex (some old) e h r = ground (arith, h, r)

  kept-step :
      (o : Option (Entry K)) (e : Entry K) (a : K.Attr)
      → IsReindex o
      → e.op ≡ reindex_op
      → (kept o a || covers K e.attr a) ≡ true
      → kept (step K o e) a ≡ true
  unfolding step
  kept-step none e a h r k = covers-merge_attr K e.attr e.attr a (ground (arith, k))
  kept-step (some old) e a h r k = ground (arith, h, r, k, covers-merge_attr K old.attr e.attr a)

  -- From an entry that re-indexes, a queue that only re-indexes keeps what was asked for.
  kept-net :
      (P : K.Obj → Type 0) (q : List (Entry K)) (k : K.Oid) (a : K.Attr) (o : Option (Entry K))
      → AllReindex P q
      → IsReindex o
      → (kept o a || asks q k a) ≡ true
      → kept (net k q o) a ≡ true
  unfolding net
  kept-net P [] k a o h r c = ground (arith, c)
  kept-net P (e ∷ q) k a o ((op, p), h) r c = elim (K.dec_oid (K.oid e.obj) k) [
    | yes y ↦ rw (if_pos _ y) (
        kept-net P q k a (step K o e) h (step-IsReindex o e r op)
          (ground (arith, y, c, kept-step o e a r op)))
    | no n ↦ rw (if_neg _ n) (kept-net P q k a o h r (ground (arith, n, c)))
  ]

  -- each item of the dictionary is a re-indexing of the object that it is kept under
  abbrev Kept : (K.Obj → Type 0) → Res K → Type 0
  Kept P [] = Unit {0}
  Kept P ((k, e) ∷ res) = ((K.oid e.obj ≡ k) × (e.op ≡ reindex_op) × P e.obj) × Kept P res

  res_del-Kept :
      (P : K.Obj → Type 0) (res : Res K) (k : K.Oid) → Kept P res → Kept P (res_del K res k)
  unfolding res_del
  res_del-Kept P [] k h = h
  res_del-Kept P ((j, e) ∷ res) k (x, h) = elim (K.dec_oid j k) [
    | yes y ↦ rw (if_pos _ y) (res_del-Kept P res k h)
    | no n ↦ rw (if_neg _ n) (x, res_del-Kept P res k h)
  ]

  get-IsReindex :
      (P : K.Obj → Type 0) (res : Res K) (k : K.Oid) → Kept P res → IsReindex (res_get K res k)
  unfolding res_get
  get-IsReindex P [] k h = tt
  get-IsReindex P ((j, e) ∷ res) k (x, h) = elim (K.dec_oid j k) [
    | yes y ↦ rw (if_pos _ y) (x.1)
    | no n ↦ rw (if_neg _ n) (get-IsReindex P res k h)
  ]

  -- a round of the loop leaves an item of the same object
  step-some :
      (o : Option (Entry K)) (e : Entry K)
      → IsReindex o
      → e.op ≡ reindex_op
      → (f : Entry K) × (step K o e ≡ some f) × (f.obj ≡ e.obj) × (f.op ≡ reindex_op)
  unfolding step ◌+ℤ◌
  step-some none e h r = (
    record { op = reindex_op; obj = e.obj; attr = merge_attr K e.attr e.attr },
    rw r refl,
    refl,
    refl,
  )
  step-some (some old) e h r = (
    record { op = reindex_op; obj = e.obj; attr = merge_attr K old.attr e.attr },
    rw (h, r) refl,
    refl,
    refl,
  )

  reduce-Kept :
      (P : K.Obj → Type 0) (q : List (Entry K)) (res : Res K)
      → AllReindex P q
      → Kept P res
      → Kept P (reduce K q res)
  unfolding reduce
  reduce-Kept P [] res h k = k
  reduce-Kept P (e ∷ q) res ((op, p), h) k =
      let (f, made, same, r) =
        step-some (res_get K res (K.oid e.obj)) e (get-IsReindex P res (K.oid e.obj) k) op in
      rw (made) (
        reduce-Kept P q ((K.oid e.obj, f) ∷ res_del K res (K.oid e.obj)) h
          ((ap K.oid same, r, subst P (sym same) p), res_del-Kept P res (K.oid e.obj) k))

  asks-insort :
      (e : Entry K) (l : List (Entry K)) (k : K.Oid) (a : K.Attr)
      → asks (insort K e l) k a ≡ asks (e ∷ l) k a
  unfolding insort
  asks-insort e [] k a = refl
  asks-insort e (f ∷ l) k a = elim (Bool-cases (entry_leb K e f)) [
    | inl b ↦ rw (b, insort) refl
    | inr b ↦ rw (b, insort) ground (arith, asks-insort e l k a)
  ]

  insort-AllReindex :
      (P : K.Obj → Type 0) (e : Entry K) (l : List (Entry K))
      → (e.op ≡ reindex_op) × P e.obj
      → AllReindex P l
      → AllReindex P (insort K e l)
  unfolding insort
  insort-AllReindex P e [] x h = (x, tt)
  insort-AllReindex P e (f ∷ l) x (y, h) = elim (Bool-cases (entry_leb K e f)) [
    | inl b ↦ rw (b, insort) (x, (y, h))
    | inr b ↦ rw (b, insort) (y, insort-AllReindex P e l x h)
  ]

  sorted-AllReindex : (P : K.Obj → Type 0) (res : Res K) → Kept P res → AllReindex P (sorted K res)
  unfolding sorted
  sorted-AllReindex P [] h = tt
  sorted-AllReindex P ((k, e) ∷ res) (x, h) =
      insort-AllReindex P e (sorted K res) (x.1, x.2) (sorted-AllReindex P res h)

  asks-sorted :
      (P : K.Obj → Type 0) (res : Res K) (k : K.Oid) (a : K.Attr)
      → Kept P res
      → kept (res_get K res k) a ≡ true
      → asks (sorted K res) k a ≡ true
  unfolding sorted res_get
  asks-sorted P [] k a h c = c
  asks-sorted P ((j, e) ∷ res) k a (x, h) c =
      ground (arith, c, x.0, asks-insort e (sorted K res) k a, asks-sorted P res k a h)

  -- A queue that only re-indexes is reduced to entries that only re-index, of the same objects, and
  -- that ask for every attribute that it asked for.
  pub optimized-asks :
      (P : K.Obj → Type 0) (q : List (Entry K))
      → AllReindex P q
      → AllReindex P (optimized K q)
        × ((k : K.Oid) (a : K.Attr) → asks q k a ≡ true → asks (optimized K q) k a ≡ true)
  unfolding optimized res_get
  optimized-asks P q h =
      let all = reduce-Kept P q [] h tt in
      (
        sorted-AllReindex P (reduce K q []) all,
        λ k a c.
            asks-sorted P (reduce K q []) k a all
              (rw (get-reduce q [] k) (kept-net P q k a none h tt c)),
      )
