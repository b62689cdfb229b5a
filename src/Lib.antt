-- ===== src/Lib.antt =====
-- The metadata allocator of src/sri-glibc/malloc: the code that keeps the metadata of malloc's
-- chunks apart from the chunks themselves. And the tracing of a program's calls (src/mhooks), with
-- their replay (src/replay), which keeps its addresses in the table of src/lphash.
--
-- Parts, and the files that model them:
-- * Utils.antt (utils.c, utils.h): `add_size`, `mul_size`, `is_power_of_two`, the Jenkins hash,
--   `ctz64`, and `sri_mmap` and `sri_munmap`. `mmap` itself is a parameter (`Mmap`), a function from
--   the address hint and the size to the answer.
-- * Memcxt.antt (memcxt.c, memcxt.h): the pools of buckets and of segments. A `Pool` is its address,
--   its bit masks and its count of free elements. A `Slot` is a pointer to an element: the address of
--   the pool and the index in it. `alloc_bucket` and `alloc_segment` are one function of the number
--   of masks, likewise the two functions that free. Memcxt/Context.antt is `memcxt_allocate`,
--   `memcxt_release` and `init_memcxt`.
-- * Variant.antt (metadata.c, src/lphash/lphash.c): what tells metadata.c's table from its copy in lphash.c: the fields of a bucket, the
--   hash, the greatest load, the bit masks in a pool of buckets, and how a segment is allocated. The
--   definitions and theorems in Metadata/ hold for any `Variant`, and so for both files; a key is
--   called `chunk`, as in metadata.c. Metadata/Chunk.antt is metadata.c's variant, with `Fingerprint`.
-- * Metadata.antt (metadata.c, metadata.h, chunkinfo.h): the linear hash table that maps a chunk to
--   its `Bucket`s. `Metadata` is `metadata_t`. A bin is the list of the buckets chained by
--   `next_bucket`, and the bins lie in the segments of the context, which the directory points to.
--   Init.antt is `init_metadata`, Expand.antt the split of a bin, Contract.antt the join of the last
--   two, and Access.antt is `metadata_add`, `metadata_lookup`, `metadata_delete` and
--   `metadata_delete_all`.
--   Client.antt is the inline functions of metadata.h, Teardown.antt `delete_metadata`, and
--   Cache.antt the cache of two lookups by itself.
-- * Lphash.antt (src/lphash/lphash.c, lphash.h): the table of addresses, with lphash.c's names for the
--   code that it shares with metadata.c. Lphash/Table.antt is its variant, Lphash/Pools.antt its pools,
--   Lphash/Segments.antt `alloc_lpsegment`. Lphash/Client.antt fills the interface of the replay with
--   the table's operations, beyond 2 ^ 31 - 256 bins or 2 ^ 64 - 1 buckets with a refusal, and
--   Lphash/Replayed.antt is a traced program's replay with that table. Addresses have no greatest value
--   there, so that the system can always map a new one.
-- * Lfht.antt (lfht.c, lfht.h): the table of lookup.c that grows by migration, as one thread runs it.
--   A table is a function from the index to an `Entry`, and the headers are a list, newest first.
--   Lfht/Probe.antt has the operations. Their walk has as much fuel as the table has entries, after
--   which it is back where it began. Lfht/Probe/Placed.antt has `IsPlaced`, that every key stands
--   where its walk ends, and Lfht/Probe/Commands.antt a client's calls in a table with room for them.
-- * Lookup.antt (lookup.c): the arena of a pointer. The regions are a list as long as their array. Their
--   count and the array's length are `int32_t` in the code: numbers below 2 ^ 31, and `none` where signed
--   arithmetic overflows. The two tables are an interface, `WordMap`, that says what lookup.c relies on of lfht.c, and
--   Lookup/Words.antt fills it with tables of lfht.c that have room.
-- * Mhook.antt (src/mhooks/mhook.c, mhook.h): the hook that logs a program's calls. Characters are
--   their codes. Mhook/Calls.antt is the hooks: glibc's functions and `write` are the parameter `Libc`,
--   and a depth of two is enough for the recursion through a hook. Mhook/Event.antt says what a line
--   tells.
-- * Replay.antt (src/replay/replaylib.c): the program that makes the calls of a log again. Lines and
--   numbers are in Replay.antt, the handlers and the loop over the file in Replay/Handlers.antt. The
--   table of lphash.c is the interface `PointerTable`, the allocator under test the parameter
--   `Allocator`. The loop's fuel is one more than the length of the file. At the end, and if the file
--   cannot be opened, the table is released: `destroy` says whether `delete_lphash` passes its assertions.
-- * Tests.antt and the files in Tests/: the development's data at concrete inputs.
-- The table asks the pools for segments, and gives back the buckets that it deletes; the pools and the
-- directory come from `sri_mmap`.
--
-- `Option` stands for an abort: `none` is an assertion that fails, or a dereference of `NULL`. All
-- numbers are natural numbers, and the wrap-around of 32 and 64 bits is written out where it can
-- matter. The loops are structural; that of `ctz64` has fuel 64, one round for each bit.
--
-- The theorems on pools are in Memcxt/, from one mask to a chain of pools. Those on the table are in
-- Metadata/: Hash (Larson's address), Content (the bins as a function, their split and their join),
-- Store (the directory, with `IsTable`, the invariant of the table, in Store/Table), then a child of
-- each operation's file. `buckets_of` is the abstract map, from a chunk to its buckets in order, and
-- `total` sums a weight over all the buckets, so that a theorem on every `total` says that no bucket
-- is lost or doubled.
--
-- `IsCounted` is the state of the table's books: `count` counts its buckets, and each of them is an
-- element in use of the pools and stands in the table once (`Live`, in Store/Live).
--
-- Conditions: `CanExpand` says that there are at most 2 ^ 31 - 256 bins (with one more, 2 ^ 23 segments
-- fill a directory of 2 ^ 23 entries, and at the next expansion `metadata_expand_directory` fails its
-- assertion on `directory_length_max`), that the kernel maps no new pool at the address of a pool that
-- is mapped, and that it does not map a larger directory at the address of the old one, which stays
-- mapped. `Mmap` answers by its arguments, and an operation makes no two
-- calls with the same arguments. `CanContract` says that the system maps the smaller directory, whose
-- allocation the code does not test, and not at the address of the old one.
--
-- A history of calls is a relation, `Reachable` in Metadata/Client/History.antt: each call has its own
-- `mmap`, and `Granted` says on what condition, `CanExpand` and a count below 2 ^ 64 - 1 for an insertion,
-- and `CanContract` for a deletion.
--
-- Not modelled: the cache as part of the table's operations (SRI_METADATA_CACHE, off by default), the
-- dump functions, interleavings of threads in lfht.c, the clocks and messages of the replay,
-- and glibc's allocator (malloc.c, arena.c, hooks.c), which calls the table. Migration is modelled,
-- but the theorems on lfht.c are about tables that do not expand.
pub mod Base
pub mod Utils
pub mod Memcxt
pub mod Metadata
pub mod Lfht
pub mod Tests
pub mod Mhook
pub mod Replay
pub mod Lookup
pub mod Variant
pub mod Lphash
