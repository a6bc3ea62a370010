-- ===== src/Permissions/Register/Invalidate.antt =====
-- permissions/subdb.py: `StorageServer.invalidate`. A connection is its place among the server's,
-- with the id of its user; what is sent is a list of messages in order.
use zerodb.Common.{
  ℕ, suc, ◌≤◌, ◌≡◌, refl, Bool, true, false, ◌&&◌, Option, none, some, not, ◌==◌, if◌then◌else◌,
  List, [], ◌∷◌, ◌++◌, leb, length, arith, Bool-cases, inl, inr, ap,
}
use zerodb.Common.Result.{Result, ok, err, ◌>>=◌, index_error}

pub record Connection : Type 0 where
  pub conn : ℕ
  pub user_id : ℕ

-- the object ids that a transaction changed
abbrev pub Oids : Type 0
Oids = List ℕ

pub data Message : Type 0 where
  invalidate_transaction : ℕ → Oids → Message
  info : ℕ → Message

pub record Server : Type 0 where
  pub invq : List (ℕ × Oids)
  pub invq_bound : ℕ
  pub cert_invalidations : List (ℕ × Oids)

-- `list.pop()`
unfoldable pub pop : List (ℕ × Oids) → Result (List (ℕ × Oids))
pop [] = err index_error
pop (x ∷ []) = ok []
pop (x ∷ y ∷ l) = do rest ← pop (y ∷ l); ok (x ∷ rest)

abbrev push : ℕ → Oids → List (ℕ × Oids) → List (ℕ × Oids)
push tid invalidated invq = (tid, invalidated) ∷ invq

-- the update of the queue of invalidations
unfoldable pub update_invq : ℕ → Oids → Server → Result (List (ℕ × Oids))
unfolding pop
update_invq tid [] s = ok s.invq
update_invq tid (o ∷ oids) s =
    if leb s.invq_bound (length s.invq)
    then (do rest ← pop s.invq; ok (push tid (o ∷ oids) rest))
    else ok (push tid (o ∷ oids) s.invq)

abbrev info_messages : Option ℕ → ℕ → List (ℕ × Message)
info_messages none zs = []
info_messages (some i) zs = (zs, info i) ∷ []

abbrev messages : Connection → ℕ → Oids → Option ℕ → Connection → List (ℕ × Message)
messages conn tid [] i zs = info_messages i zs.conn
messages conn tid (o ∷ oids) i zs =
    if zs.conn == conn.conn
    then info_messages i zs.conn
    else (zs.conn, invalidate_transaction tid (o ∷ oids)) ∷ []

-- the loop over the connections of the storage; `none` is a `conn` of `None`
unfoldable pub broadcast :
    Option Connection → ℕ → Oids → Option ℕ → List Connection → List (ℕ × Message)
broadcast none tid invalidated i zss = []
broadcast (some conn) tid invalidated i [] = []
broadcast (some conn) tid invalidated i (zs ∷ zss) =
    let rest = broadcast (some conn) tid invalidated i zss in
    if zs.user_id == conn.user_id then messages conn tid invalidated i zs ++ rest else rest

-- `certs` says whether the storage is the acceptor's
unfoldable pub invalidate :
    Option Connection
    → Bool
    → ℕ
    → Oids
    → Option ℕ
    → List Connection
    → Server
    → Result (Server × List (ℕ × Message))
unfolding update_invq broadcast
invalidate conn certs tid invalidated i zss s = do
  invq ← update_invq tid invalidated s
  let sent = broadcast conn tid invalidated i zss
  let cert = (if certs then (tid, invalidated) ∷ s.cert_invalidations else s.cert_invalidations)
  ok (record s { invq = invq; cert_invalidations = cert }, sent)

-- a message to this connection is among those sent
abbrev pub is_sent : ℕ → List (ℕ × Message) → Bool
is_sent zs [] = false
is_sent zs ((to, m) ∷ l) = if to == zs then true else is_sent zs l

-- the connections of the same user, without the one that made the change
abbrev pub is_peer : Connection → ℕ → List Connection → Bool
is_peer conn zs [] = false
is_peer conn zs (c ∷ l) =
    if c.user_id == conn.user_id && (c.conn == zs && not (c.conn == conn.conn))
    then true
    else is_peer conn zs l

-- An invalidation without an `info` is sent to exactly the other connections of the user who made
-- the change, so that no other user learns of it.
pub is_sent-broadcast :
    (conn : Connection) (tid o : ℕ) (oids : Oids) (zss : List Connection) (zs : ℕ)
    → is_sent zs (broadcast (some conn) tid (o ∷ oids) none zss) ≡ is_peer conn zs zss
unfolding broadcast
is_sent-broadcast conn tid o oids [] zs = refl
is_sent-broadcast conn tid o oids (c ∷ zss) zs =
    ground (arith, is_sent-broadcast conn tid o oids zss zs)

pop_total :
    (x : ℕ × Oids) (l : List (ℕ × Oids))
    → (r : List (ℕ × Oids)) × (pop (x ∷ l) ≡ ok r) × (length r ≡ length l)
unfolding pop
pop_total x [] = ([], refl, refl)
pop_total x (y ∷ l) = let (r, e, n) = pop_total y l in (x ∷ r, rw e refl, ap suc n)

-- With a bound of at least one, the queue of invalidations never grows past its bound, and no
-- call raises.
pub update_invq-le :
    (tid : ℕ) (oids : Oids) (s : Server)
    → 1 ≤ s.invq_bound
    → length s.invq ≤ s.invq_bound
    → (r : List (ℕ × Oids)) × (update_invq tid oids s ≡ ok r) × (length r ≤ s.invq_bound)
unfolding update_invq
update_invq-le tid [] s b h = (s.invq, refl, h)
update_invq-le tid (o ∷ oids) s b h = elim (Bool-cases (leb s.invq_bound (length s.invq))) [
  | inl full ↦ go s.invq full refl
  | inr room ↦ (push tid (o ∷ oids) s.invq, ground (arith, room), ground (arith, room))
]
  where
    go :
        (l : List (ℕ × Oids))
        → leb s.invq_bound (length s.invq) ≡ true
        → s.invq ≡ l
        → (r : List (ℕ × Oids)) × (update_invq tid (o ∷ oids) s ≡ ok r) × (length r ≤ s.invq_bound)
    go [] full e = absurd (ground (arith, full, e))
    go (x ∷ l) full e =
        let (r, popped, n) = pop_total x l in
        (push tid (o ∷ oids) r, ground (arith, full, e, popped), ground (arith, full, e, n, h))
