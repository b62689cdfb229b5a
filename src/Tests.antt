-- ===== src/Tests.antt =====
-- Data for the runs at concrete inputs: a system that maps at fixed addresses, a context, a table
-- as `init_metadata` makes it of utils.c, memcxt.c and metadata.c in src/sri-glibc/malloc, and a
-- bucket.
mod Words
mod Pools
mod Tables
mod Lfht
mod Contraction
mod Deletion
mod Logs
mod Regions
mod Pointers
use sri_glibc_malloc.Base.{
  ℕ, ◌≡◌, ◌+◌, ◌==◌, refl, sym, true, false, ◌∙◌, ap, none, some, Option, List, [], ◌∷◌,
  if◌then◌else◌, arith, replicate, Bool, eq_of_some,
}
use mathlib.Core.Path.{subst}
use sri_glibc_malloc.Utils.{Mmap, sri_mmap, mul_size, is_power_of_two, ctz64, ctz_loop}
use sri_glibc_malloc.Memcxt.{Memcxt, Pool, Slot, alloc, alloc_in, init_pool, new_pool}
use sri_glibc_malloc.Memcxt.Context.{memcxt_allocate}
use sri_glibc_malloc.Memcxt.Laws.{IsMemcxt}
use sri_glibc_malloc.Metadata.{Metadata, Bucket, write_bin}
use sri_glibc_malloc.Metadata.Chunk.{chunk_table, hash, fingerprint, ChunkFields}
use sri_glibc_malloc.Metadata.Hash.{home}
use sri_glibc_malloc.Metadata.Access.Write.{counted_as, counted_as-IsTable, written-IsTable}
use sri_glibc_malloc.Metadata.Expand.Correct.{CanExpand}
use sri_glibc_malloc.Metadata.Store.Table.{IsTable}
use sri_glibc_malloc.Metadata.Init.{init_metadata, with_directory, fill_segments}
use sri_glibc_malloc.Metadata.Init.Ready.{EmptyOr, init_metadata-EmptyOr}

-- The directory and the first pool go to different places.
abbrev pub first_mmap : Mmap
first_mmap hint size = if size == 8192 then 4096 else 65536

abbrev pub later_mmap : Mmap
later_mmap hint size = 1048576

abbrev pub no_pools : Memcxt
no_pools = record { segments = []; buckets = [] }

pub no_pools-IsMemcxt : IsMemcxt no_pools
no_pools-IsMemcxt = record { segments = tt; ready = refl; buckets = tt }

abbrev pub blank : Metadata
blank = record {
  memcxt = no_pools;
  directory = 0;
  entries = λ i. none;
  bins = λ s j. [];
  directory_length = 0;
  directory_current = 0;
  minimum = 0;
  doublings = 0;
  p = 0;
  count = 0;
  maxp = 0;
  bincount = 0;
}

abbrev pub first_slot : Slot
first_slot = record { pool = 65536; index = 0 }

abbrev pub first_pool : Pool
first_pool = record {
  base = 65536;
  bitmasks = 1 ∷ 0 ∷ 0 ∷ 0 ∷ 0 ∷ 0 ∷ 0 ∷ 0 ∷ [];
  free_count = 511;
}

abbrev pub first_table : Metadata
first_table = record {
  memcxt = record { segments = first_pool ∷ []; buckets = [] };
  directory = 4096;
  entries = λ i. if i == 0 then some first_slot else none;
  bins = λ s j. [];
  directory_length = 1024;
  directory_current = 1;
  minimum = 256;
  doublings = 0;
  p = 0;
  count = 0;
  maxp = 256;
  bincount = 256;
}

abbrev pub a_bucket : Bucket
a_bucket = record {
  slot = record { pool = 0; index = 0 };
  chunk = 1234;
  fields = record {
    prev_size = 0;
    size = 48;
    fd = 0;
    bk = 0;
    fd_nextsize = 0;
    bk_nextsize = 0;
    md_next = 0;
    md_prev = 0;
  };
}

pub first_run : init_metadata first_mmap blank no_pools ≡ some (true, first_table)
unfolding init_metadata with_directory fill_segments mul_size is_power_of_two memcxt_allocate alloc
    alloc_in new_pool init_pool sri_mmap replicate
first_run = refl

-- The table that `init_metadata` makes satisfies the invariant.
pub first_table-IsTable : IsTable first_table
first_table-IsTable =
    let (r, run, e) =
      init_metadata-EmptyOr first_mmap blank no_pools no_pools-IsMemcxt tt (λ s j h u. refl) in
    let same : r ≡ (true, first_table) = eq_of_some r (true, first_table) (sym run ∙ first_run) in
    (subst (EmptyOr no_pools) same e).table

abbrev pub bucket_at : ℕ → Bucket
bucket_at k = record a_bucket { chunk = k }

-- Three buckets in bin 233
abbrev pub three : List Bucket
three = bucket_at 1234 ∷ bucket_at 1286 ∷ bucket_at 1564 ∷ []

abbrev pub three_table : Metadata
three_table = counted_as (write_bin first_table (first_slot, 233) three) 3

pub three_table-IsTable : IsTable three_table
unfolding home hash fingerprint write_bin
three_table-IsTable = counted_as-IsTable (write_bin first_table (first_slot, 233) three) 3 (
    written-IsTable first_table first_table-IsTable 233 (omega arith) first_slot refl three
      (refl, (refl, (refl, tt))))

pub three_table-CanExpand : CanExpand later_mmap three_table
unfolding write_bin sri_mmap
three_table-CanExpand = record { fresh = (refl, tt); apart = λ sz. ground arith; few = omega arith }
