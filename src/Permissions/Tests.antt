-- ===== src/Permissions/Tests.antt =====
-- A storage that is a function, certificates that are their own hashes, and an admin with one user.
use zerodb.Common.{
  ℕ, ◌≤◌, ◌≡◌, ◌≢◌, refl, false, arith, Option, none, some, List, [], ◌∷◌, ◌++◌, length,
  if◌then◌else◌, ℕ_discrete,
}
use zerodb.Common.Bytes.{Bytes, bytes_eq, bytes_discrete}
use zerodb.Common.Result.{ok, err, storage_error}
use zerodb.BTrees.{assoc_trees}
use zerodb.BTrees.Assoc.{lookup}
use zerodb.Permissions.Owner.{Load, key_error, found, load_data, Storage, load_before, store}
use zerodb.Permissions.Owner.Access.{IsStranger, load_before-store, stranger_raises}
use zerodb.Permissions.Owner.History.{Request, loads, stores, serve_all, serve_all_isolated}
use zerodb.Permissions.User.{Crypto, User, new_user}
use zerodb.Permissions.Admin.{
  Trees, Admin, new_admin, add_user, add_user_cert, del_user, change_cert, committed, has_cert,
}
use zerodb.Permissions.Admin.Invariant.{IsValid}
use zerodb.Permissions.Admin.Changes.{new_admin-IsValid, add_user-IsValid, del_user-IsValid}
use zerodb.Permissions.Admin.ChangeCert.{change_cert-IsValid}
use zerodb.Permissions.Admin.Commit.{change_cert_lost}
use zerodb.Permissions.Register.{register}
use zerodb.Permissions.Register.Auth.{Entered, register-Entered, register-del_user}
use zerodb.Permissions.Register.Invalidate.{
  Connection, Server, broadcast, is_sent, is_peer, update_invq, is_sent-broadcast, update_invq-le,
}

abbrev pub load_of : Option Bytes → Load
load_of none = key_error
load_of (some content) = found content 0 none

pub load_data-load_of : (o : Option Bytes) → load_data (load_of o) ≡ o
load_data-load_of none = refl
load_data-load_of (some content) = refl

-- a state is a function from object ids
abbrev pub memory : Storage
memory = record {
  State = Bytes → Option Bytes;
  maxtid = 1;
  load_before = λ s oid tid. load_of (s oid);
  store = λ s oid serial content. λ o. if bytes_eq oid o then some content else s o;
  load-store = λ s oid serial content o. ground (arith, load_data-load_of (s o));
}

-- the record 9, which the user 2 wrote
abbrev one_record : Bytes → Option Bytes
one_record o = if bytes_eq o (9 ∷ []) then some (5 ∷ 2 ∷ []) else none

stranger : IsStranger (1 ∷ []) (2 ∷ []) (9 ∷ [])
stranger = record {
  same_length = refl;
  differs = λ e. ground (arith, e);
  not_root = λ e. ground (arith, e);
  not_zero = λ e. ground (arith, e);
}

stranger_raises_example :
    (load_before memory (1 ∷ []) one_record (9 ∷ []) 1 ≡ err storage_error)
    × (store memory (1 ∷ []) one_record (9 ∷ []) 0 (7 ∷ []) ≡ err storage_error)
unfolding bytes_eq
stranger_raises_example =
    stranger_raises memory (1 ∷ []) (2 ∷ []) one_record (9 ∷ []) (5 ∷ []) 0 (7 ∷ []) stranger refl

abbrev requests : List Request
requests = loads (1 ∷ []) (9 ∷ []) 1 ∷ stores (1 ∷ []) (9 ∷ []) 0 (7 ∷ []) ∷ []

serve_all_isolated_example :
    load_data (memory.load_before (serve_all memory requests one_record) (9 ∷ []) 1)
    ≡ some (5 ∷ 2 ∷ [])
unfolding bytes_eq
serve_all_isolated_example =
    serve_all_isolated memory (2 ∷ []) (9 ∷ []) (5 ∷ []) requests one_record
      (stranger, (stranger, tt)) refl

abbrev nothing_stored : Bytes → Option Bytes
nothing_stored o = none

abbrev stored : Bytes → Option Bytes
stored = memory.store nothing_stored (9 ∷ []) 0 (5 ∷ 1 ∷ [])

load_before-store_example :
    (serial : ℕ) × (after : Option ℕ) × (load_before memory (1 ∷ []) stored (9 ∷ []) 1
      ≡ ok (some (5 ∷ [], serial, after)))
    × (load_data (memory.load_before stored (9 ∷ []) 1) ≡ some (5 ∷ 1 ∷ []))
unfolding store
load_before-store_example =
    load_before-store memory (1 ∷ []) nothing_stored stored (9 ∷ []) 0 (5 ∷ []) (omega arith) refl

abbrev crypto : Crypto
crypto = record {
  Der = Bytes;
  dec_der = bytes_discrete;
  get_der = λ pem. pem;
  hash_password = λ p salt. salt ++ p;
  security = λ name p. p;
}

abbrev trees : Trees crypto
trees = record {
  ids = assoc_trees ℕ_discrete;
  names = assoc_trees bytes_discrete;
  ders = assoc_trees bytes_discrete;
}

abbrev nobody : ℕ → User crypto
nobody id = new_user crypto [] id none []

abbrev empty_admin : Admin crypto trees
empty_admin = new_admin (0 ∷ []) nobody

-- the user `b`, under the id 1, with the certificate 8
abbrev with_user : Admin crypto trees
with_user = (add_user (b'b' ∷ []) 1 (some (8 ∷ [])) (some (3 ∷ [])) (4 ∷ []) empty_admin).1

add_user-IsValid_example : IsValid with_user
unfolding new_admin lookup
add_user-IsValid_example =
    add_user-IsValid (b'b' ∷ []) 1 (some (8 ∷ [])) (some (3 ∷ [])) (4 ∷ []) {a = empty_admin} refl
      ((new_admin-IsValid (0 ∷ []) nobody).0)

with_user-IsValid : IsValid with_user
unfolding new_admin lookup
with_user-IsValid =
    add_user-IsValid (b'b' ∷ []) 1 (some (8 ∷ [])) (some (3 ∷ [])) (4 ∷ []) {a = empty_admin} refl
      ((new_admin-IsValid (0 ∷ []) nobody).0)

listed : trees.names.get with_user.users_by_name (b'b' ∷ []) ≡ some 1
unfolding add_user add_user_cert new_admin lookup ℕ_discrete bytes_eq
listed = refl

del_user-IsValid_example :
    ((del_user (b'b' ∷ []) with_user).0 ≡ ok tt) × IsValid (del_user (b'b' ∷ []) with_user).1
del_user-IsValid_example = del_user-IsValid (b'b' ∷ []) 1 {a = with_user} listed with_user-IsValid

change_cert-IsValid_example :
    IsValid (change_cert (b'b' ∷ []) (some (6 ∷ [])) (some (2 ∷ [])) with_user).1
change_cert-IsValid_example =
    change_cert-IsValid (b'b' ∷ []) 1 (some (6 ∷ [])) (some (2 ∷ [])) {a = with_user} listed
      with_user-IsValid

-- after the commit that added the user
abbrev stored_user : Admin crypto trees
stored_user = record with_user { changed = λ id. false }

stored_user-IsValid : IsValid stored_user
stored_user-IsValid =
    let v = with_user-IsValid in
    record { held = v.held; own_id = v.own_id; unique = v.unique; named = v.named }

unused_cert : trees.ders.get stored_user.uids (6 ∷ []) ≡ none
unfolding add_user add_user_cert new_admin lookup ℕ_discrete bytes_eq
unused_cert = refl

change_cert_lost_example :
    (let out = change_cert (b'b' ∷ []) (some (6 ∷ [])) none stored_user in
      let stored = committed stored_user out.1 in
      (out.0 ≡ ok tt)
      × (trees.ders.get stored.uids (6 ∷ []) ≡ some (some 1))
      × ((stored.objects 1).certs ≡ (stored_user.objects 1).certs)
      × (has_cert crypto (6 ∷ []) (stored.objects 1).certs ≡ false))
change_cert_lost_example =
    change_cert_lost (b'b' ∷ []) 1 6 [] {a = stored_user} stored_user-IsValid listed refl
      unused_cert

register_test : register (8 ∷ []) none with_user ≡ ok 1
unfolding register add_user add_user_cert new_admin new_user lookup ℕ_discrete bytes_eq
register_test = refl

register-Entered_example : Entered with_user (8 ∷ []) 1 none
register-Entered_example = register-Entered (8 ∷ []) none with_user 1 register_test

register-del_user_example : register (8 ∷ []) none (del_user (b'b' ∷ []) with_user).1 ≢ ok 1
register-del_user_example =
    register-del_user (b'b' ∷ []) 1 (8 ∷ []) none {a = with_user} listed with_user-IsValid

abbrev connections : List Connection
connections =
    record { conn = 1; user_id = 1 }
    ∷ record { conn = 2; user_id = 1 }
    ∷ record { conn = 3; user_id = 2 }
    ∷ []

abbrev first : Connection
first = record { conn = 1; user_id = 1 }

is_sent-broadcast_example :
    is_sent 2 (broadcast (some first) 5 (9 ∷ []) none connections) ≡ is_peer first 2 connections
is_sent-broadcast_example = is_sent-broadcast first 5 9 [] connections 2

abbrev server : Server
server = record { invq = (4, 9 ∷ []) ∷ []; invq_bound = 1; cert_invalidations = [] }

update_invq-le_example :
    (r : List (ℕ × List ℕ)) × (update_invq 5 (7 ∷ []) server ≡ ok r) × (length r ≤ 1)
update_invq-le_example = update_invq-le 5 (7 ∷ []) server (omega arith) (omega arith)
