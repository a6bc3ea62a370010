-- ===== src/Permissions/Owner.antt =====
-- permissions/ownerstorage.py: `OwnerStorage`, which keeps the owner's id at the end of each
-- record. The storage below it is ZODB's, and a parameter.
pub mod Access
pub mod History
use zerodb.Common.{
  ℕ, zero, suc, ◌+◌, ◌-◌, ◌≡◌, Bool, true, false, ◌||◌, Option, none, some, List, [], ◌∷◌, ◌++◌,
  if◌then◌else◌, map,
}
use zerodb.Common.Bytes.{Bytes, bytes_eq, ends_with, without_suffix}
use zerodb.Common.Result.{
  Result, ok, err, ◌>>=◌, storage_error, pos_key_error, type_error, name_error,
}

-- What `loadBefore` of the storage below gives: `POSKeyError`, `None`, or a record with its serial
-- and the serial that follows.
pub data Load : Type 0 where
  key_error : Load
  nothing : Load
  found : Bytes → ℕ → Option ℕ → Load

abbrev pub load_data : Load → Option Bytes
load_data key_error = none
load_data nothing = none
load_data (found content serial after) = some content

-- The storage below. A state is what is committed, and `store` gives the state once its
-- transaction is committed; a record that was stored is there with its data, and the others stay.
pub record Storage : Type 1 where
  pub State : Type 0
  pub maxtid : ℕ
  pub load_before : State → Bytes → ℕ → Load
  pub store : State → Bytes → ℕ → Bytes → State
  pub load-store :
      (s : State) (oid : Bytes) (serial : ℕ) (content oid' : Bytes)
      → load_data (load_before (store s oid serial content) oid' maxtid)
        ≡ (if bytes_eq oid oid' then some content else load_data (load_before s oid' maxtid))

abbrev pub z64 : Bytes
z64 = 0 ∷ 0 ∷ 0 ∷ 0 ∷ 0 ∷ 0 ∷ 0 ∷ 0 ∷ []

-- the condition of `_check_permissions`
unfoldable pub may_access : Bytes → Bytes → Bytes → Bool
may_access user_id content oid =
    ends_with content user_id || (bytes_eq oid user_id || bytes_eq oid z64)

-- The message has the ids as numbers (`u64`), which they are for ids of eight bytes, the only ones
-- that ZODB makes; an id of another length would raise `struct.error` in its place.
unfoldable pub check_permissions : Bytes → Bytes → Bytes → Result (Unit {0})
unfolding may_access
check_permissions user_id content oid =
    if may_access user_id content oid then ok tt else err storage_error

module _ (S : Storage) (user_id : Bytes) where
  abbrev pub strip_owner : Bytes → Load → Result (Option (Bytes × ℕ × Option ℕ))
  strip_owner oid key_error = err pos_key_error
  strip_owner oid nothing = ok none
  strip_owner oid (found content serial after) = do
    checked ← check_permissions user_id content oid
    ok (some (without_suffix content user_id, serial, after))

  unfoldable pub load_before : S.State → Bytes → ℕ → Result (Option (Bytes × ℕ × Option ℕ))
  unfolding check_permissions
  load_before s oid tid = strip_owner oid (S.load_before s oid tid)

  -- the check of the old record; a record that is not there is a new one, and `None[0]` raises
  abbrev pub check_old : Bytes → Load → Result (Unit {0})
  check_old oid key_error = ok tt
  check_old oid nothing = err type_error
  check_old oid (found content serial after) = check_permissions user_id content oid

  unfoldable pub store : S.State → Bytes → ℕ → Bytes → Result S.State
  unfolding check_permissions
  store s oid serial content = do
    checked ← check_old oid (S.load_before s oid S.maxtid)
    ok (S.store s oid serial (content ++ user_id))

  -- `loadSerial` names a variable `tid` that is not there
  unfoldable pub load_serial : S.State → Bytes → ℕ → Result Bytes
  load_serial s oid serial = err name_error
