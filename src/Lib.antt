-- ===== src/Lib.antt =====
-- zerodb: a verification library for the end-to-end encrypted object database zerodb.
--
-- A client keeps Python objects in a ZODB database whose server sees only encrypted records. The
-- client's part: objects of a model have integer ids (intid.py); their attributes are indexed by
-- a catalog (catalog/), whose updates are queued during a transaction and reduced before its
-- commit (collective/indexing/); queries return lazy sequences of objects (util/iter.py); records
-- are compressed and encrypted on their way to the server (transform/, storage/transforming.py)
-- under keys derived from passwords (crypto/kdf.py), and tree searches fetch nodes ahead
-- (storage/__init__.py). The server's part: connections are tied to users by certificates and
-- passwords (permissions/subdb.py, over the users of permissions/base.py), and each user's
-- records carry its id (permissions/ownerstorage.py). The paths are those of the package, below
-- zerodb/.
--
-- The files:
--
--   - Common: names of the libraries passed on; Boolean tests, lists by native numbers, integers,
--     results with the exceptions of the program, byte strings.
--   - BTrees: the BTrees package as an interface, with association lists as an instance that
--     runs. An index, the id store and the admin take such modules as parameters.
--   - Catalog/Field and its children: catalog/indexes/field.py and common.py. `FieldIndex` is the
--     state of a `CatalogFieldIndex`; Forms holds what happens to one value's ids, which are an
--     integer, a tuple or a tree set; Invariant the agreement of the two directions;
--     Discriminator `index_doc`; Reads and Ranges the queries.
--   - Catalog/Text and its children: `IncrementalLuceneIndex` of catalog/indexes/text_lucene.py,
--     over Catalog/Postings (scores, sets of postings, lexicon). Words says what its loops leave
--     at one word, Invariant what its postings and counters are, Remove, Exchange and Reindex
--     what un-indexing and re-indexing do.
--   - Catalog/Contract: what db.py relies on of a catalog.
--   - Db and its children: db.py. `ModelState` is what a `DbModel` has: the id store, the catalog
--     and what the objects hold. Table is the agreement of the three, Reindex, Removal and
--     History the operations (History as changes of an abstract table), Lookup `__getitem__` and
--     `query`. Dispatch is the class `DB`, whose `DbState` has a store and a catalog for each
--     class; Frame and Synced carry the agreement to all classes. AutoReindex is
--     `Model.__setattr__` of models/__init__.py with subscribers.py, indexer.py and the queue of
--     collective/indexing: Pending, Stored, Hook and Commit say what the queued re-indexings do,
--     Assign what assignments queue.
--   - Catalog/Query: catalog/query.py, the comparisons and their negations (Negate), `And` and
--     `Or` (Logic), over an interface for the indexes' methods. Catalog/Json:
--     catalog/query_json.py.
--   - Models: `ModelMeta` and the constructor of `Model`, of models/__init__.py; Models/Catalog:
--     its `create_catalog`, and the constructor of `Indexable` of models/fields.py.
--   - Intid: intid.py. The random draws are a list; the attribute `_p_uid` of objects is a
--     function in the state.
--   - Collective/Queue and its children: queue.py, transactions.py and config.py of
--     collective/indexing. The queue's list stands in a heap, since savepoints share it. Reduce
--     is `optimize`, Process the calls, up to the first that raises, Hooked the state machine of
--     a queue in its transactions, Savepoint the savepoints.
--   - Permissions/Owner: ownerstorage.py over a storage that is an interface. Permissions/User
--     and Permissions/Admin: base.py, the admin's indexes over a heap of users, as the connection
--     sees them; Commit says what a commit stores. Permissions/Register: `register` and
--     `invalidate` of subdb.py.
--   - Transform: Encrypt, Aes and Compress are encrypt_common.py, encrypt_aes.py and
--     compress_common.py of transform/; Register is the registration of encrypters and
--     compressors; Storage is storage/transforming.py, over the storage interface of
--     Permissions/Owner.
--   - Storage/Search: the binary search of storage/__init__.py in a BTree's raw state;
--     Storage/Prefetch and Storage/Traverse: its `prefetch_trees` and `parallel_traversal`.
--   - Util/Iter: `Sliceable` of util/iter.py, over an interface for cachetools' LRU cache; its
--     `DBList` is in Db/Lookup/Sequence. Util/ThreadWatcher: util/thread_watcher.py, with Due the
--     table of callbacks that it stands for.
--   - Crypto/Kdf: crypto/kdf.py.
--   - The modules named Tests hold runs of the code on concrete data and uses of the theorems
--     there.
--
-- Python's exceptions are results with an error; a method that changes state before it raises
-- returns that state beside the error. What the program takes from other packages is an
-- interface: a record of operations and of the laws that their documentation states. Integers of
-- Python are native natural numbers, or integers where they go below zero; dates and floats do
-- not occur in the parts that are modelled.
--
-- Fuel: the loop of `IdStore.add` runs once, since an id that `_generateId` returns is not in the
-- tree; the draws of `_generateId` end with a free one by a hypothesis. The binary search has one
-- more unit of fuel than it has children, and its interval shrinks in each pass. The scan of
-- cached indexes of a slice has as much fuel as the slice's end, or as the bound of the cache's
-- keys. The traversal of trees has more levels than any of its trees is high. Iteration over a
-- view has a number of steps greater than the list is long.
--
-- Not modelled: the searches of the text index, the Okapi index and the lexicon, iteration over
-- all objects, the prefetching of query results, the set-up of servers, TLS and processes. A
-- catalog whose indexes raise while an object is indexed is not considered; un-indexing may
-- raise. Concurrency between clients is the storage's and is not modelled; neither is the order
-- of Python's sets and dictionaries.
pub mod Common
pub mod BTrees
pub mod Catalog
pub mod Intid
pub mod Collective
pub mod Permissions
pub mod Transform
pub mod Util
pub mod Storage
pub mod Crypto
pub mod Models
pub mod Db
