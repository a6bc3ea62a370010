-- ===== src/Permissions/Owner/History.antt =====
-- Any sequence of requests through `OwnerStorage`: a user's records are changed by no one else.
use zerodb.Common.{
  ℕ, ◌≡◌, false, some, List, [], ◌∷◌, ◌++◌, Bool-cases, inl, inr, subst, sym, ap, ◌∙◌,
}
use zerodb.Common.Bytes.{Bytes, bytes_eq, bytes_eq_iff}
use zerodb.Common.Result.{Result, ok, err, storage_error, ◌>>=◌}
use zerodb.Permissions.Owner.{load_data, Storage, store, check_old}
use zerodb.Permissions.Owner.Access.{IsStranger, stranger_raises}

-- A request for the data of a record, or to store one; the user who makes it comes first.
pub data Request : Type 0 where
  loads : Bytes → Bytes → ℕ → Request
  stores : Bytes → Bytes → ℕ → Bytes → Request

abbrev pub user_of : Request → Bytes
user_of (loads u oid tid) = u
user_of (stores u oid serial content) = u

module _ (S : Storage) where
  abbrev committed : S.State → Result S.State → S.State
  committed s (ok s') = s'
  committed s (err e) = s

  -- The state after a request; one that raises is rolled back.
  unfoldable pub serve : Request → S.State → S.State
  serve (loads u oid tid) s = s
  serve (stores u oid serial content) s = committed s (store S u s oid serial content)

  unfoldable pub serve_all : List Request → S.State → S.State
  unfolding serve
  serve_all [] s = s
  serve_all (r ∷ rs) s = serve_all rs (serve r s)

  abbrev pub AllStrangers : Bytes → Bytes → List Request → Type 0
  AllStrangers v oid [] = Unit
  AllStrangers v oid (r ∷ rs) = IsStranger (user_of r) v oid × AllStrangers v oid rs

  module _ (v oid content : Bytes) where
    abbrev Owned : S.State → Type 0
    Owned s = load_data (S.load_before s oid S.maxtid) ≡ some (content ++ v)

    committed-Owned :
        (r : Result (Unit {0})) (o : Bytes) (serial : ℕ) (new : Bytes) (s : S.State)
        → bytes_eq o oid ≡ false
        → Owned s
        → Owned (committed s (r >>= λ _. ok (S.store s o serial new)))
    committed-Owned (err x) o serial new s b e = e
    committed-Owned (ok tt) o serial new s b e = S.load-store s o serial new oid ∙ rw b e

    serve-Owned :
        (r : Request) (s : S.State) → IsStranger (user_of r) v oid → Owned s → Owned (serve r s)
    unfolding serve
    serve-Owned (loads u o tid) s h e = e
    serve-Owned (stores u o serial new) s h e = elim (Bool-cases (bytes_eq o oid)) [
      | inl b ↦
          let same : oid ≡ o = sym ((bytes_eq_iff o oid).0 b) in
          let refused = (stranger_raises S u v s oid content serial new h e).1 in
          let here =
            subst (λ (k : Bytes). store S u s k serial new ≡ err storage_error) same refused in
          subst Owned (sym (ap (committed s) here)) e
      | inr b ↦
          unfold store in
          committed-Owned (check_old S u o (S.load_before s o S.maxtid)) o serial (new ++ u) s b e
    ]

    -- Whatever other users load and store, in any order, a record that its owner wrote keeps its
    -- data, if their ids have the length of the owner's and differ from it, and the record is
    -- neither the object 0 nor a root folder of theirs.
    pub serve_all_isolated :
        (rs : List Request) (s : S.State)
        → AllStrangers v oid rs
        → load_data (S.load_before s oid S.maxtid) ≡ some (content ++ v)
        → load_data (S.load_before (serve_all rs s) oid S.maxtid) ≡ some (content ++ v)
    unfolding serve_all
    serve_all_isolated [] s h e = e
    serve_all_isolated (r ∷ rs) s h e =
        serve_all_isolated rs (serve r s) h.1 (serve-Owned r s h.0 e)
