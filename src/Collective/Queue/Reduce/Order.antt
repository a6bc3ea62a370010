-- ===== src/Collective/Queue/Reduce/Order.antt =====
-- The order of the reduced queue, and what its entries are (`optimize` of
-- collective/indexing/queue.py).
use mathlib.Core.List.Perm
use mathlib.Core.List.{Perm}
use zerodb.Common.{
  ◌≡◌, Bool, true, Option, none, some, List, [], ◌∷◌, map, arith, ◌&&◌, Bool-cases, inl, inr,
}
use zerodb.Common.Int.{ℤ, leb_ℤ, pos, ◌+ℤ◌}
use zerodb.Collective.Queue.Reduce.{
  Keys, Entry, unindex_op, index_op, clamp, step, Res, res_get, res_del, res_set, reduce, entry_leb,
  insort, sorted, optimized,
}

abbrev pub is_op : ℤ → Bool
is_op op = leb_ℤ unindex_op op && leb_ℤ op index_op

abbrev pub AllOps : {K : Keys} → List (Entry K) → Type 0
AllOps [] = Unit
AllOps (e ∷ l) = (is_op e.op ≡ true) × AllOps l

-- Each entry's operation is at most that of the next.
abbrev pub IsAscending : {K : Keys} → List (Entry K) → Type 0
IsAscending [] = Unit
IsAscending (e ∷ []) = Unit
IsAscending (e ∷ f ∷ l) = (leb_ℤ e.op f.op ≡ true) × IsAscending (f ∷ l)

clamp-is_op : (op : ℤ) → is_op (clamp op) ≡ true
clamp-is_op op = ground arith

module _ {K : Keys} where
  abbrev pub entries : Res K → List (Entry K)
  entries = map (λ r. r.1)

  abbrev HeadOk : Option (Entry K) → Type 0
  HeadOk none = Unit
  HeadOk (some e) = is_op e.op ≡ true

  step-is_op : (s : Option (Entry K)) (e : Entry K) → HeadOk (step K s e)
  unfolding step
  step-is_op none e = clamp-is_op (pos 0 +ℤ e.op)
  step-is_op (some old) e = ground (arith, clamp-is_op (old.op +ℤ e.op))

  res_del-AllOps :
      (res : Res K) (k : K.Oid) → AllOps (entries res) → AllOps (entries (res_del K res k))
  unfolding res_del
  res_del-AllOps [] k h = h
  res_del-AllOps ((j, e) ∷ res) k h = ground (arith, res_del-AllOps res k h.1)

  -- Whatever was queued, each reduced operation is one of the three.
  reduce-AllOps :
      (queue : List (Entry K)) (res : Res K)
      → AllOps (entries res)
      → AllOps (entries (reduce K queue res))
  unfolding reduce
  reduce-AllOps [] res h = h
  reduce-AllOps (e ∷ queue) res h =
      reduce-AllOps queue (res_set K res (K.oid e.obj) (step K (res_get K res (K.oid e.obj)) e))
        (set-AllOps (step K (res_get K res (K.oid e.obj)) e) (step-is_op _ e))
    where
      set-AllOps :
          (o : Option (Entry K)) → HeadOk o → AllOps (entries (res_set K res (K.oid e.obj) o))
      set-AllOps none ok = res_del-AllOps res (K.oid e.obj) h
      set-AllOps (some f) ok = (ok, res_del-AllOps res (K.oid e.obj) h)

  insort-AllOps :
      (e : Entry K) (l : List (Entry K)) → is_op e.op ≡ true → AllOps l → AllOps (insort K e l)
  unfolding insort
  insort-AllOps e [] h a = (h, tt)
  insort-AllOps e (f ∷ l) h a = ground (arith, insort-AllOps e l h a.1)

  sorted-AllOps : (res : Res K) → AllOps (entries res) → AllOps (sorted K res)
  unfolding sorted
  sorted-AllOps [] h = tt
  sorted-AllOps ((k, e) ∷ res) h = insort-AllOps e (sorted K res) h.0 (sorted-AllOps res h.1)

  pub optimized-AllOps : (queue : List (Entry K)) → AllOps (optimized K queue)
  unfolding optimized
  optimized-AllOps queue = sorted-AllOps (reduce K queue []) (reduce-AllOps queue [] tt)

  abbrev Below : Entry K → List (Entry K) → Type 0
  Below e [] = Unit
  Below e (f ∷ l) = leb_ℤ e.op f.op ≡ true

  IsAscending-cons :
      (e : Entry K) (l : List (Entry K)) → Below e l → IsAscending l → IsAscending (e ∷ l)
  IsAscending-cons e [] b h = tt
  IsAscending-cons e (f ∷ l) b h = (b, h)

  Below-insort :
      (f e : Entry K) (l : List (Entry K))
      → leb_ℤ f.op e.op ≡ true
      → Below f l
      → Below f (insort K e l)
  unfolding insort
  Below-insort f e [] h b = h
  Below-insort f e (g ∷ l) h b = ground arith

  tail-IsAscending :
      (e : Entry K) (l : List (Entry K)) → IsAscending (e ∷ l) → Below e l × IsAscending l
  tail-IsAscending e [] h = (tt, tt)
  tail-IsAscending e (f ∷ l) h = h

  insort-IsAscending :
      (e : Entry K) (l : List (Entry K)) → IsAscending l → IsAscending (insort K e l)
  unfolding insort
  insort-IsAscending e [] h = tt
  insort-IsAscending e (f ∷ l) h = elim (Bool-cases (entry_leb K e f)) [
    | inl b ↦ rw (b, insort) (ground (arith, b), h)
    | inr b ↦
        let t = tail-IsAscending f l h in
        rw (b, insort)
          (IsAscending-cons f (insort K e l) (Below-insort f e l (ground (arith, b)) t.0)
            (insort-IsAscending e l t.1))
  ]

  sorted-IsAscending : (res : Res K) → IsAscending (sorted K res)
  unfolding sorted
  sorted-IsAscending [] = tt
  sorted-IsAscending ((k, e) ∷ res) = insort-IsAscending e (sorted K res) (sorted-IsAscending res)

  insort-perm : (e : Entry K) (l : List (Entry K)) → Perm (insort K e l) (e ∷ l)
  unfolding insort
  insort-perm e [] = Perm.refl (e ∷ [])
  insort-perm e (f ∷ l) = elim (Bool-cases (entry_leb K e f)) [
    | inl b ↦ rw (b, insort) (Perm.refl (e ∷ f ∷ l))
    | inr b ↦ rw (b, insort) (Perm.trans (Perm.cons f (insort-perm e l)) (Perm.swap e f l))
  ]

  sorted-perm : (res : Res K) → Perm (sorted K res) (entries res)
  unfolding sorted
  sorted-perm [] = Perm.refl []
  sorted-perm ((k, e) ∷ res) =
      Perm.trans (insort-perm e (sorted K res)) (Perm.cons e (sorted-perm res))

  -- `optimize` leaves the reduced entries, each once, so that those that un-index come first and
  -- those that index come last.
  optimized_sorted :
      (queue : List (Entry K))
      → IsAscending (optimized K queue) × Perm (optimized K queue) (entries (reduce K queue []))
  unfolding optimized
  optimized_sorted queue = (sorted-IsAscending (reduce K queue []), sorted-perm (reduce K queue []))
