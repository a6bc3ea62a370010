-- ===== src/Collective/Queue/Reduce/Net.antt =====
-- What the reduction keeps of the operations on one object (`optimize` of
-- collective/indexing/queue.py).
use zerodb.Common.{
  zero, suc, ◌≡◌, refl, Bool, true, Option, none, some, List, [], ◌∷◌, ite, if◌then◌else◌, arith,
  ◌||◌, subst, some-inj, sym, if_pos, if_neg,
}
use zerodb.Common.Int.{ℤ, pos, negsuc, ◌+ℤ◌, eq_ℤ}
use zerodb.Collective.Queue.Reduce.{
  Keys, Entry, unindex_op, reindex_op, index_op, step, Res, res_get, res_del, res_set, reduce,
  merge_attr,
}
use zerodb.Collective.Queue.Reduce.Attributes.{covers, covers-merge_attr}

module _ {K : Keys} where
  get-res_del :
      (res : Res K) (k j : K.Oid)
      → res_get K (res_del K res k) j ≡ ite (K.dec_oid k j) none (res_get K res j)
  unfolding res_get res_del
  get-res_del [] k j = ground arith
  get-res_del ((i, e) ∷ res) k j = ground (arith, get-res_del res k j)

  get-res_set :
      (res : Res K) (k : K.Oid) (o : Option (Entry K)) (j : K.Oid)
      → res_get K (res_set K res k o) j ≡ ite (K.dec_oid k j) o (res_get K res j)
  get-res_set res k none j = get-res_del res k j
  get-res_set res k (some e) j = unfold res_get in ground (arith, get-res_del res k j)

  -- the rounds of the loop that concern the object `k`
  unfoldable pub net : K.Oid → List (Entry K) → Option (Entry K) → Option (Entry K)
  net k [] s = s
  net k (e ∷ queue) s = net k queue (ite (K.dec_oid (K.oid e.obj) k) (step K s e) s)

  -- The entry of an object depends on its own operations alone.
  pub get-reduce :
      (queue : List (Entry K)) (res : Res K) (k : K.Oid)
      → res_get K (reduce K queue res) k ≡ net k queue (res_get K res k)
  unfolding reduce net
  get-reduce [] res k = refl
  get-reduce (e ∷ queue) res k =
      let o = step K (res_get K res (K.oid e.obj)) e in
      ground (
        arith,
        get-reduce queue (res_set K res (K.oid e.obj) o) k,
        get-res_set res (K.oid e.obj) o k,
      )

module _ (K : Keys) where
  -- A catalog, as far as one object goes: the object is absent, or present with the attributes of
  -- which the catalog has the present values.
  abbrev pub Entered : Type 0
  Entered = Option (K.Attr → Bool)

  -- What one operation does to a catalog; `none` if it makes no sense. The catalog gets the present
  -- values of the attributes that are named, or of all.
  unfoldable pub apply_op : ℤ → Option (List K.Attr) → Entered → Option Entered
  apply_op op attr none = if eq_ℤ op index_op then some (some (covers K attr)) else none
  apply_op op attr (some current) =
      if eq_ℤ op unindex_op
      then some none
      else if eq_ℤ op reindex_op
      then some (some (λ a. current a || covers K attr a))
      else none

  -- The second catalog has the object if the first does, and every present value that it has.
  abbrev pub AtLeast : Entered → Entered → Type 0
  AtLeast none none = Unit {0}
  AtLeast none (some g) = ⊥
  AtLeast (some f) none = ⊥
  AtLeast (some f) (some g) = (a : K.Attr) → f a ≡ true → g a ≡ true

  AtLeast-refl : (p : Entered) → AtLeast p p
  AtLeast-refl none = tt
  AtLeast-refl (some f) = λ a h. h

  -- The operations that make sense.
  data Sense : ℤ → Option (List K.Attr) → Entered → Entered → Type 0 where
    indexes : (attr : Option (List K.Attr)) → Sense index_op attr none (some (covers K attr))
    unindexes :
        (attr : Option (List K.Attr)) (f : K.Attr → Bool) → Sense unindex_op attr (some f) none
    reindexes :
        (attr : Option (List K.Attr)) (f : K.Attr → Bool)
        → Sense reindex_op attr (some f) (some (λ a. f a || covers K attr a))

  apply_op-Sense :
      (op : ℤ) (attr : Option (List K.Attr)) (p q : Entered)
      → apply_op op attr p ≡ some q
      → Sense op attr p q
  unfolding apply_op
  apply_op-Sense (pos zero) attr none q h = cc
  apply_op-Sense (pos (suc zero)) attr none q h =
      subst (Sense index_op attr none) (some-inj h) (indexes attr)
  apply_op-Sense (pos (suc (suc n))) attr none q h = absurd (ground arith)
  apply_op-Sense (negsuc n) attr none q h = absurd (ground arith)
  apply_op-Sense (pos zero) attr (some f) q h =
      subst (Sense reindex_op attr (some f)) (some-inj h) (reindexes attr f)
  apply_op-Sense (pos (suc n)) attr (some f) q h = absurd (ground arith)
  apply_op-Sense (negsuc zero) attr (some f) q h =
      subst (Sense unindex_op attr (some f)) (some-inj h) (unindexes attr f)
  apply_op-Sense (negsuc (suc n)) attr (some f) q h = absurd (ground arith)

  unfoldable pub apply_entry : Option (Entry K) → Entered → Option Entered
  unfolding apply_op
  apply_entry none p = some p
  apply_entry (some e) p = apply_op e.op e.attr p

  -- The entry takes a catalog to one that is at least as good.
  abbrev pub Reaches : Option (Entry K) → Entered → Entered → Type 0
  Reaches s p r = (r' : Entered) × (apply_entry s p ≡ some r') × AtLeast r r'

  -- The entry of two operations that make sense one after the other.
  step-two :
      (o1 o2 : K.Obj) (x y : Option (List K.Attr)) (a b : ℤ) (p q q' r : Entered)
      → Sense a x p q'
      → AtLeast q q'
      → Sense b y q r
      → Reaches
          (step K
            (some (record { op = a; obj = o1; attr = x }))
            (record { op = b; obj = o2; attr = y }))
          p
          r
  unfolding apply_entry step ◌+ℤ◌
  step-two o1 o2 x y a b p q q' r (indexes x') m (unindexes y' f) = (none, refl, tt)
  step-two o1 o2 x y a b p q q' r (indexes x') m (reindexes y' f) = (
    some (covers K (merge_attr K x y)),
    refl,
    λ c h. covers-merge_attr K x y c (ground (arith, h, m c)),
  )
  step-two o1 o2 x y a b p q q' r (unindexes x' g) m (indexes y') = (
    some (λ c. g c || covers K (merge_attr K x y) c),
    refl,
    λ c h. ground (arith, covers-merge_attr K x y c (ground (arith, h))),
  )
  step-two o1 o2 x y a b p q q' r (reindexes x' g) m (unindexes y' f) = (none, refl, tt)
  step-two o1 o2 x y a b p q q' r (reindexes x' g) m (reindexes y' f) = (
    some (λ c. g c || covers K (merge_attr K x y) c),
    refl,
    λ c h. ground (arith, h, m c, covers-merge_attr K x y c),
  )
  step-two o1 o2 x y a b p q q' r (indexes x') m (indexes y') = absurd m
  step-two o1 o2 x y a b p q q' r (unindexes x' g) m (unindexes y' f) = absurd m
  step-two o1 o2 x y a b p q q' r (unindexes x' g) m (reindexes y' f) = absurd m
  step-two o1 o2 x y a b p q q' r (reindexes x' g) m (indexes y') = absurd m

  step-one :
      (o : K.Obj) (y : Option (List K.Attr)) (b : ℤ) (p q r : Entered)
      → AtLeast q p
      → Sense b y q r
      → Reaches (step K none (record { op = b; obj = o; attr = y })) p r
  unfolding apply_entry step ◌+ℤ◌
  step-one o y b none q r m (indexes y') = (
    some (covers K (merge_attr K y y)),
    refl,
    λ c h. covers-merge_attr K y y c (ground (arith, h)),
  )
  step-one o y b none q r m (unindexes y' f) = absurd m
  step-one o y b none q r m (reindexes y' f) = absurd m
  step-one o y b (some g) q r m (indexes y') = absurd m
  step-one o y b (some g) q r m (unindexes y' f) = (none, refl, tt)
  step-one o y b (some g) q r m (reindexes y' f) = (
    some (λ c. g c || covers K (merge_attr K y y) c),
    refl,
    λ c h. ground (arith, h, m c, covers-merge_attr K y y c),
  )

  Reaches-step :
      (s : Option (Entry K)) (e : Entry K) (p q r : Entered)
      → Reaches s p q
      → apply_op e.op e.attr q ≡ some r
      → Reaches (step K s e) p r
  unfolding apply_entry
  Reaches-step none e p q r (q', same, m) k =
      step-one e.obj e.attr e.op p q r (subst (AtLeast q) (sym (some-inj same)) m)
        (apply_op-Sense e.op e.attr q r k)
  Reaches-step (some old) e p q r (q', first, m) k =
      step-two old.obj e.obj old.attr e.attr old.op e.op p q q' r
        (apply_op-Sense old.op old.attr p q' first) m (apply_op-Sense e.op e.attr q r k)

  abbrev pub then_run : Option Entered → (Entered → Option Entered) → Option Entered
  then_run none f = none
  then_run (some p) f = f p

  then_run-eq-some :
      (o : Option Entered) (f : Entered → Option Entered) (r : Entered)
      → then_run o f ≡ some r
      → (q : Entered) × (o ≡ some q) × (f q ≡ some r)
  then_run-eq-some none f r h = absurd (cc)
  then_run-eq-some (some q) f r h = (q, refl, h)

  -- The queue's operations on the object `k`, one after the other.
  unfoldable pub run : K.Oid → List (Entry K) → Entered → Option Entered
  run k [] p = some p
  run k (e ∷ queue) p =
      ite (K.dec_oid (K.oid e.obj) k) (then_run (apply_op e.op e.attr p) (run k queue))
        (run k queue p)

  Reaches-net :
      (k : K.Oid) (queue : List (Entry K)) (s : Option (Entry K)) (p q r : Entered)
      → Reaches s p q
      → run k queue q ≡ some r
      → Reaches (net k queue s) p r
  unfolding net run
  Reaches-net k [] s p q r h g = subst (Reaches s p) (some-inj g) h
  Reaches-net k (e ∷ queue) s p q r h g = elim (K.dec_oid (K.oid e.obj) k) [
    | yes d ↦
        let (q1, one, rest) =
          then_run-eq-some (apply_op e.op e.attr q) (run k queue) r (rw (if_pos _ d) at g) in
        rw (if_pos _ d)
          (Reaches-net k queue (step K s e) p q1 r (Reaches-step s e p q q1 h one) rest)
    | no d ↦ rw (if_neg _ d) (Reaches-net k queue s p q r h (rw (if_neg _ d) at g))
  ]

  -- Where the queued operations on an object make sense one after the other (it is indexed when
  -- absent, un-indexed and re-indexed when present), the one entry that `optimize` leaves for it,
  -- or no entry, makes sense in their place: the object is then in the catalog just where it would
  -- be after all of them, and of every attribute of which the catalog would have the present value,
  -- it has it.
  pub reduce_effect :
      (queue : List (Entry K)) (k : K.Oid) (p r : Entered)
      → run k queue p ≡ some r
      → (r' : Entered) × (apply_entry (res_get K (reduce K queue []) k) p ≡ some r') × AtLeast r r'
  unfolding apply_entry res_get
  reduce_effect queue k p r h =
      subst (λ s. Reaches s p r) (sym (get-reduce queue [] k))
        (Reaches-net k queue none p p r (p, refl, AtLeast-refl p) h)
