-- ===== src/Db/Tests/Assignments.antt =====
-- The object 4 gets another value of its first attribute, and the transaction commits.
use zerodb.Common.{ℕ, ◌+◌, ◌*◌, ◌/◌, ◌%◌, Bool, true, false, none, [], ℕ_discrete}
use zerodb.Db.AutoReindex.{Hashes, Fields, valued, App, set_attr}
use zerodb.Db.Tests.{site, bases}
use zerodb.Db.Tests.Runs.{db_with_four}

abbrev hashes : Hashes site
hashes = record { Oid = ℕ; oid = λ o. o; rank = λ o. o; dec_oid = ℕ_discrete }

abbrev write : ℕ → Bool → ℕ → ℕ
write d true v = v * 10 + d % 10
write d false v = d / 10 * 10 + v % 10

abbrev fields : Fields site
fields = record { Val = ℕ; is_indexed = λ c a. true; read = λ d a. valued d; write = write }

abbrev before : App site hashes
before = record {
  db = record db_with_four { subscribed = true };
  queue = record { heap = λ a. []; next = 1; queue = 0; tmhook = none; joined = 0 };
}

abbrev after : App site hashes
after = set_attr site bases hashes fields true 4 true 7 before
