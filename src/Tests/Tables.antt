-- ===== src/Tests/Tables.antt =====
-- Runs of the table of metadata.c.
use sri_glibc_malloc.Base.{ℕ, ◌≡◌, ◌/◌, ◌%◌, ◌==◌, Bool, refl, some, Returns, arith}
use sri_glibc_malloc.Memcxt.{Slot}
use sri_glibc_malloc.Metadata.{Metadata, metadata_bindex, metadata_fetch_bucket, write_bin}
use sri_glibc_malloc.Metadata.Hash.{home, metadata_bindex-home}
use sri_glibc_malloc.Metadata.Store.Table.{buckets_of, fetch_lem}
use sri_glibc_malloc.Metadata.Expand.{metadata_expand_table, metadata_expand_check}
use sri_glibc_malloc.Metadata.Expand.Correct.{
  ExpandedTable, metadata_expand_table-Expanded, Kept, Stepped, metadata_expand_check-Kept,
}
use sri_glibc_malloc.Metadata.Access.{metadata_lookup}
use sri_glibc_malloc.Metadata.Access.Lookup.{first_of, metadata_lookup-first}
use sri_glibc_malloc.Metadata.Init.{init_metadata}
use sri_glibc_malloc.Metadata.Init.Ready.{EmptyOr, init_metadata-EmptyOr}
use sri_glibc_malloc.Metadata.Chunk.{chunk_table}
use sri_glibc_malloc.Tests.{
  first_mmap, later_mmap, no_pools, no_pools-IsMemcxt, blank, first_table, first_table-IsTable,
  three_table, three_table-IsTable, three_table-CanExpand,
}

metadata_lookup-first_example :
    (t' : Metadata) × (metadata_lookup three_table 1564
      ≡ some (first_of (buckets_of three_table 1564), t'))
    × Kept three_table t'
metadata_lookup-first_example = metadata_lookup-first three_table three_table-IsTable 1564

metadata_expand_table-Expanded_example :
    ExpandedTable three_table three_table-IsTable later_mmap three_table-CanExpand
      (metadata_expand_table later_mmap three_table)
metadata_expand_table-Expanded_example =
    metadata_expand_table-Expanded three_table three_table-IsTable later_mmap three_table-CanExpand

metadata_expand_check-Kept_example :
    (ok : Bool) × (t' : Metadata) × (metadata_expand_check later_mmap three_table ≡ some (ok, t'))
    × Kept three_table t'
    × Stepped later_mmap three_table ok t'
metadata_expand_check-Kept_example =
    metadata_expand_check-Kept three_table three_table-IsTable later_mmap three_table-CanExpand

init_metadata-EmptyOr_example : Returns (init_metadata first_mmap blank no_pools) (EmptyOr no_pools)
init_metadata-EmptyOr_example =
    init_metadata-EmptyOr first_mmap blank no_pools no_pools-IsMemcxt tt (λ s j h u. refl)

abbrev in_last : ℕ → Bool
in_last k = home 256 0 k == 233

metadata_bindex-home_example : metadata_bindex three_table 1234 ≡ some (home 256 0 1234)
unfolding write_bin
metadata_bindex-home_example = metadata_bindex-home three_table 8 1234 (omega arith) refl

fetch_lem_example :
    (s : Slot) × (first_table.entries (home 256 0 1234 / 256) ≡ some s)
    × (metadata_fetch_bucket first_table 1234 ≡ some (s, home 256 0 1234 % 256))
fetch_lem_example = fetch_lem first_table first_table-IsTable 1234
