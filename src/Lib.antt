-- ===== src/Lib.antt =====
-- MARC-FS, a FUSE file system over the Mail.ru Cloud.
--
-- The program. The kernel calls the callbacks of src/fuse_hooks.cpp. A callback takes a client of
-- the Mail.ru Cloud from a pool (src/object_pool.h), does its work with it and tries again while
-- the server fails (`doWithRetry`). An open regular file is a `MarcFileNode`
-- (src/marc_file_node.cpp), which keeps the content in a storage, in memory or in a file of a
-- cache directory (src/memory_storage.cpp, src/file_storage.cpp), downloads it on open and uploads
-- it on flush. A file larger than `MARCFS_MAX_FILE_SIZE` is held by the cloud in parts, which a
-- listing shows as one file again (`handleCompounds`). Stats of paths are cached for a minute
-- (src/mru_cache.cpp). The client (src/marc_rest_client.cpp) turns the calls into requests.
--
-- The files.
--   Base          texts, lists, slices, machine integers, decimal digits, and the
--                 state-and-exception effect `M` in which code that changes state or throws is
--                 written
--   Storage       `AbstractStorage` as the record `Storage`, with its laws `IsLawful`;
--                 Storage.Memory and Storage.File are the two implementations, Storage.Instances
--                 fills the record, Storage.Calls runs calls of both against a byte vector, and
--                 Storage.Shared has several storages over one cache directory
--   CloudFile     src/marc_api_cloudfile.h and .cpp
--   Cloud         the calls of `MarcRestClient` as the record `Client`, with `IsLawful`, what they
--                 do to the files that the cloud holds, and runs of such calls (Runs)
--   Parts         names and number of the parts of a large file
--   Node          src/marc_file_node.h and .cpp, over any storage and any client
--   Dict          association lists, for the hash maps of the source
--   Stat          `fillStat` and `emptyStat` of src/mru_cache.cpp, and `fillStat` of the nodes
--   Cache         `CacheManager`, a method as one step; Threads has the steps between its locks,
--                 Races what goes wrong between the two locks of `get`, Alone that one thread at
--                 work does what Cache does, and Alone.Ageing that this is a map that never forgets
--                 and withholds what is old
--   Compounds     `handleCompounds`
--   Retry         `doWithRetry` and the pool of clients, with what a caller can count on (Laws,
--                 Once), what a retried job keeps (Invariants), and that it does not wait for ever
--                 (Prompt)
--   ObjectPool    src/object_pool.h: the pool and its methods, several threads over it (Threads),
--                 and what holds of them: Rounds for `initialize`, Sharing and Waiting for what is
--                 safe, Stuck for what is not
--   Paths         `find_last_of` and `substr` on paths, with laws of the two halves (Names)
--   Hooks         the callbacks, by what they serve: Attributes, Links, Files, Names; Listed and
--                 Lookup prove laws of them, Frames what they keep of the state (Frames.Flows: and
--                 that they do not wait for ever), Files.Flushing what a flush, Files.Truncating
--                 what a truncation and Names what a rename and an unlink leave, Web follows a flush
--                 over HTTP to the files of the server, and Faults shows where they go wrong
--   Fuse          the table of callbacks in src/main.cpp as a data type of requests that `serve`
--                 answers, and runs of requests; Handles has what every run keeps, Waiting that no
--                 run waits for ever, Sessions what happens to a file between `open` and `release`,
--                 and Expiry what an `open` does when the stat in the cache is too old
--   Rest          src/marc_rest_client.h and .cpp: `toPadded40Hex` (Hex), `paramString` (Params),
--                 the read callback of an upload (Transfers), `performAction` and `performGet`
--                 (Session), the calls and `obtainShard` (Calls), `login` (Login), and the addresses
--                 (Endpoints); src/marc_api_shard.h and .cpp (Shard). Rest.Server states what a
--                 server does with a request, and its child modules follow each call down to the
--                 files of the cloud, up to Refinement
--   Start         src/main.cpp and src/account.cpp: the configuration (Options), the hiding of
--                 credentials (Hiding), and `main` up to the call of FUSE (Launch)
--   ThreadPool    src/thread_pool.h, which no other file uses: the queue and its workers, what they
--                 run (Running), and that no worker is forgotten (Rousing)
--   Tests         a small cloud, a small server (Web), and the theorems at concrete states
--
-- How the code is read. An operation keeps the source's name. A method that changes its object
-- takes the state last and gives the result with the state, also where it throws (`fail`). A
-- `MailApiException` is `mail code`; undefined behaviour is the result `undefined`, and a wait
-- that nothing ends is `blocked`. Buffers are lists of bytes. An `int` that a method returns is
-- `to_int` of its value, and offsets are reduced `% 2 ^ 64` where the source adds them as
-- `uint64_t`. The limit on the size of a file is an argument `limit` of the node; `max_file_size`
-- is its value. Loops over parts recurse on the number of parts that are left, and the loop of
-- `doWithRetry` on the tries that are left. How often curl asks for the bytes of an upload is the
-- fuel of `sent`; one time more than there are bytes is enough. Clock readings are arguments; a
-- callback has one reading of each clock, and between two requests any time passes, as the request
-- `elapse`. In the callbacks each open file has a storage of its own; Storage.Shared adds that the
-- storages in files share the cache directory and its counter.
--
-- Parameters. The JSON library is the record `Json`; `fuse_opt_parse` is an argument of `main`;
-- the order in which a hash map is walked is `Setup.order`, a permutation where that matters; curl
-- is the record `Http` of Rest.Session. Where a theorem speaks of the cloud, `Cloud.IsLawful`
-- names what it relies on: while the connection works, a call on a file changes what its own path
-- holds. `IsServer` of Rest.Server says it one level deeper, of single requests, and the client's
-- own calls have the first from the second. A rename into another folder goes by a path of the old
-- folder, so a move of a file asks that this place is free. A locked method is one step; two
-- threads inside one callback are not interleaved, only their calls of the pool are, in
-- ObjectPool.Threads, and those of the cache, in Cache.Threads. In the pool the number of threads
-- and of clients is arbitrary, and a sleeping thread may wake by itself.
--
-- Not modelled: `dump` and `trace_post` of src/utils.cpp, which print what curl does and are
-- nearly the example of curl's documentation, other logging, `initCallback`, which sets options of
-- FUSE, and the tests and packaging of the repository.
pub mod Base
pub mod Storage
pub mod CloudFile
pub mod Cloud
pub mod Parts
pub mod Node
pub mod Dict
pub mod Stat
pub mod Cache
pub mod Compounds
pub mod Retry
pub mod Paths
pub mod ObjectPool
pub mod Hooks
pub mod Fuse
pub mod Rest
pub mod Start
pub mod ThreadPool
pub mod Tests
