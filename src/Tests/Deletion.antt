-- ===== src/Tests/Deletion.antt =====
-- Runs of the insertion and the deletion of metadata.c, on the table that holds one bucket.
use sri_glibc_malloc.Base.{
  ◌≡◌, ◌∙◌, ap, ◌==◌, refl, sym, true, some, Returns, arith, eq_of_some, replicate, [], ◌∷◌,
  if◌then◌else◌,
}
use mathlib.Core.Path.{subst}
use sri_glibc_malloc.Utils.{Mmap, sri_mmap, is_power_of_two}
use sri_glibc_malloc.Memcxt.{Pool, alloc, alloc_in, init_pool, new_pool}
use sri_glibc_malloc.Memcxt.Context.{memcxt_allocate}
use sri_glibc_malloc.Metadata.{
  Metadata, Bucket, write_bin, read_bin, metadata_fetch_bucket, metadata_bindex, bindex2bin,
  mod_power_of_two, metadata_load,
}
use sri_glibc_malloc.Metadata.Access.{metadata_add}
use sri_glibc_malloc.Metadata.Expand.{metadata_expand_check}
use sri_glibc_malloc.Metadata.Client.{metadata_insert_chunk, allocate_chunkinfoptr}
use sri_glibc_malloc.Metadata.Store.{bin_at}
use sri_glibc_malloc.Metadata.Content.{sum, sum_bins}
use sri_glibc_malloc.Metadata.Store.Table.{IsCounted, total}
use sri_glibc_malloc.Metadata.Expand.Correct.{CanExpand, Kept}
use sri_glibc_malloc.Metadata.Contract.Table.{CanContract}
use sri_glibc_malloc.Metadata.Access.{metadata_delete, metadata_delete_all}
use sri_glibc_malloc.Metadata.Access.Delete.{DeletedFirst, metadata_delete-DeletedFirst}
use sri_glibc_malloc.Metadata.Access.DeleteAll.{DeletedAll, metadata_delete_all-DeletedAll}
use sri_glibc_malloc.Metadata.Teardown.{delete_metadata}
use sri_glibc_malloc.Metadata.Teardown.Released.{Freed, delete_metadata-Freed}
use sri_glibc_malloc.Metadata.Client.Inserted.{
  Inserted, InsertedOr, metadata_insert_chunk-InsertedOr,
}
use sri_glibc_malloc.Metadata.Client.RoundTrip.{
  IsAmple, Inserted-of, metadata_delete-metadata_insert_chunk,
}
use sri_glibc_malloc.Metadata.Client.History.{
  Reachable, made, then_called, insert_chunk, delete, operate, after, Room, Right, Reachable-Right,
  Reachable-Returns,
}
use sri_glibc_malloc.Metadata.Chunk.{chunk_table, hash, fingerprint}
use sri_glibc_malloc.Tests.{
  first_mmap, blank, no_pools, no_pools-IsMemcxt, first_run, first_table, first_slot,
  first_table-IsTable,
}

-- What is mapped is never at the hint.
abbrev other_mmap : Mmap
other_mmap hint size = if hint == 1048576 then 2097152 else 1048576

other_mmap-IsAmple : IsAmple other_mmap
unfolding sri_mmap
other_mmap-IsAmple = record { mapped = λ hint sz. ground arith; apart = λ hint sz. ground arith }

first_table-IsCounted : IsCounted first_table
unfolding total sum_bins sum bin_at
first_table-IsCounted = record { counted = refl; bound = omega arith; live = λ s. omega arith }

first_table-CanExpand : CanExpand other_mmap first_table
unfolding sri_mmap
first_table-CanExpand = record { fresh = (refl, tt); apart = λ sz. ground arith; few = omega arith }

abbrev second_pool : Pool
second_pool = record { base = 1048576; bitmasks = 1 ∷ replicate 1023 0; free_count = 65535 }

abbrev held_bucket : Bucket
held_bucket = record {
  slot = record { pool = 1048576; index = 0 };
  chunk = 1234;
  fields = record {
    prev_size = 0;
    size = 0;
    fd = 0;
    bk = 0;
    fd_nextsize = 0;
    bk_nextsize = 0;
    md_next = 0;
    md_prev = 0;
  };
}

abbrev held_table : Metadata
held_table =
    let t = write_bin first_table (first_slot, 233) (held_bucket ∷ []) in
    record t {
      memcxt = record { segments = first_table.memcxt.segments; buckets = second_pool ∷ [] };
      count = 1;
    }

held_run : metadata_insert_chunk other_mmap first_table 1234 ≡ some (true, held_table)
unfolding metadata_insert_chunk allocate_chunkinfoptr memcxt_allocate alloc alloc_in new_pool
    init_pool sri_mmap replicate metadata_add metadata_fetch_bucket metadata_bindex bindex2bin hash
    fingerprint mod_power_of_two write_bin metadata_expand_check is_power_of_two metadata_load
    read_bin
held_run = refl

metadata_insert_chunk-InsertedOr_example :
    Returns
      (metadata_insert_chunk other_mmap first_table 1234)
      (InsertedOr other_mmap first_table 1234)
metadata_insert_chunk-InsertedOr_example =
    metadata_insert_chunk-InsertedOr other_mmap first_table first_table-IsTable
      first_table-IsCounted first_table-CanExpand tt (omega arith) 1234

held_table-Inserted : Inserted first_table 1234 held_table
held_table-Inserted =
    let (r, run, post) =
      metadata_insert_chunk-InsertedOr other_mmap first_table first_table-IsTable
        first_table-IsCounted first_table-CanExpand tt (omega arith) 1234 in
    let same : r ≡ (true, held_table) = eq_of_some r (true, held_table) (sym run ∙ held_run) in
    Inserted-of other_mmap first_table 1234 held_table
      (subst (InsertedOr other_mmap first_table 1234) same post)

held_table-CanContract : CanContract other_mmap held_table
held_table-CanContract = record {
  apart = λ sz. other_mmap-IsAmple.apart held_table.directory sz;
  mapped = λ sz. other_mmap-IsAmple.mapped held_table.directory sz;
}

metadata_delete-DeletedFirst_example :
    Returns (metadata_delete other_mmap held_table 1234) (DeletedFirst held_table 1234)
metadata_delete-DeletedFirst_example =
    metadata_delete-DeletedFirst held_table other_mmap 1234 held_table-Inserted.table
      held_table-Inserted.books held_table-CanContract

metadata_delete_all-DeletedAll_example :
    Returns
      (metadata_delete_all other_mmap held_table 1234)
      (λ r. DeletedAll held_table 1234 r.0 r.1)
metadata_delete_all-DeletedAll_example =
    metadata_delete_all-DeletedAll held_table other_mmap 1234 held_table-Inserted.table
      held_table-Inserted.books held_table-CanContract

metadata_delete-metadata_insert_chunk_example :
    Returns (metadata_delete other_mmap held_table 1234) (λ r. (r.0 ≡ true) × Kept first_table r.1)
metadata_delete-metadata_insert_chunk_example =
    metadata_delete-metadata_insert_chunk other_mmap first_table 1234 held_table first_table-IsTable
      first_table-IsCounted first_table-CanExpand tt (omega arith) other_mmap-IsAmple held_run

delete_metadata-Freed_example : Returns (delete_metadata held_table) (Freed held_table)
delete_metadata-Freed_example =
    delete_metadata-Freed held_table held_table-Inserted.table held_table-Inserted.books

first_table-Reachable : Reachable first_table
first_table-Reachable =
    made first_mmap blank no_pools first_table no_pools-IsMemcxt tt (λ s j h u. refl) first_run

first_table-Room : Room other_mmap first_table
first_table-Room = record { expands = first_table-CanExpand; fresh = tt; countable = omega arith }

held_table-Reachable : Reachable held_table
unfolding operate
held_table-Reachable =
    then_called (insert_chunk other_mmap 1234) first_table held_table first_table-Reachable
      first_table-Room (ap after held_run)

Reachable-Right_example : Right held_table
Reachable-Right_example = Reachable-Right held_table-Reachable

Reachable-Returns_example : Returns (operate (delete other_mmap 1234) held_table) Reachable
Reachable-Returns_example =
    Reachable-Returns (delete other_mmap 1234) held_table held_table-Reachable
      held_table-CanContract
