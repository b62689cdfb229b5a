-- ===== src/Metadata/Contract/Table.antt =====
-- `metadata_contract_table` and `metadata_contract_check`.
use sri_glibc_malloc.Base.{
  ℕ, ◌*◌, ◌/◌, ◌<◌, ◌≤◌, ◌≡◌, ◌≢◌, inl, inr, refl, true, false, ◌&&◌, some, ltb, ◌==◌, ◌^◌, arith,
  Bool-cases, Returns, ap,
}
use sri_glibc_malloc.Memcxt.Context.{memcxt_allocate}
use sri_glibc_malloc.Utils.{Mmap, null, sri_mmap}
use sri_glibc_malloc.Utils.Sizes.{mul_size-fits}
use sri_glibc_malloc.Metadata.{Metadata, initial_directory_length, min_load, metadata_load}
use sri_glibc_malloc.Metadata.Store.{bin_at}
use sri_glibc_malloc.Metadata.Store.Table.{IsTable, SameContent}
use sri_glibc_malloc.Metadata.Expand.Directory.{IsApart, moved, moved-IsStore, move_directory-moved}
use sri_glibc_malloc.Metadata.Expand.Bins.{IsTable-same}
use sri_glibc_malloc.Metadata.Expand.Correct.{same_trans, Kept, Kept-refl}
use sri_glibc_malloc.Metadata.Contract.{
  metadata_contract_directory, shrink_directory, metadata_contract_table, metadata_contract_check,
}
use sri_glibc_malloc.Metadata.Contract.Numbers.{retreat-numbers}
use sri_glibc_malloc.Metadata.Contract.Correct.{Contracted, contract_bins-Contracted}
use sri_glibc_malloc.Variant.{Variant}

module _ ⦃code : Variant⦄ where
  -- The conditions under which a contraction is certain to pass: the system maps a new directory, and
  -- not at the address of the old one.
  pub record CanContract (mmap : Mmap) (t : Metadata) : Type 0 where
    pub apart : IsApart mmap t
    pub mapped : (sz : ℕ) → sri_mmap mmap t.directory sz ≢ null

  module _ (t : Metadata) (is : IsTable t) (mmap : Mmap) (can : CanContract mmap t) where
    contract_directory-moved :
        t.directory_current < t.directory_length / 2
        → (d : ℕ) × (metadata_contract_directory mmap t ≡ some (moved t d (t.directory_length / 2)))
    unfolding metadata_contract_directory memcxt_allocate
    contract_directory-moved few =
        let n = t.directory_length / 2 in
        let bound = is.store.length_bound in
        let size = mul_size-fits n 8 (omega arith) (omega arith) (omega arith) in
        let size' = mul_size-fits t.directory_length 8 (omega arith) (omega arith) (omega arith) in
        let room : ltb t.directory_current n ≡ true = ground arith in
        let got : (sri_mmap mmap t.directory (n * 8) == null) ≡ false =
          ground (arith, can.mapped (n * 8)) in
        (
          sri_mmap mmap t.directory (n * 8),
          rw (size, size', room, got)
              (ap some (
                move_directory-moved t is.store (sri_mmap mmap t.directory (n * 8)) n n
                  (can.apart (n * 8)) (omega arith))),
        )

    shrink_directory-moved :
        (d n : ℕ) × (shrink_directory mmap t ≡ some (moved t d n))
        × (t.directory_current ≤ n)
        × (n ≤ 2 ^ 24)
    unfolding shrink_directory
    shrink_directory-moved =
        elim (Bool-cases (
          ltb initial_directory_length t.directory_length
          && ltb t.directory_current (t.directory_length / 2))) [
            | inl due ↦
                let (d, run) = contract_directory-moved (ground arith) in
                (
                  d,
                  t.directory_length / 2,
                  rw due run,
                  ground arith,
                  omega (arith, is.store.length_bound),
                )
            | inr idle ↦
                (t.directory, t.directory_length, rw idle, is.store.capacity, is.store.length_bound)
          ]

    moved_table :
        (d n : ℕ)
        → t.directory_current ≤ n
        → n ≤ 2 ^ 24
        → IsTable (moved t d n) × SameContent t (moved t d n)
    unfolding bin_at
    moved_table d n fits small =
        IsTable-same t (moved t d n) is (moved-IsStore t is.store d n fits small)
          (record {
            small = is.sized.small;
            limit = is.sized.limit;
            below = is.sized.below;
            bins = is.sized.bins;
          })
          refl refl refl refl (λ i. refl)

    -- If the table is right, can contract and has doubled, `metadata_contract_table` passes its
    -- assertions. It keeps the invariant, the content and the books, and takes one bin away.
    pub metadata_contract_table-Contracted :
        0 < t.doublings → Returns (metadata_contract_table mmap t) (Contracted t)
    unfolding metadata_contract_table
    metadata_contract_table-Contracted doubled =
        let (d, n, run, fits, small) = shrink_directory-moved in
        let (table, same) = moved_table d n fits small in
        let (t', bins, c) = contract_bins-Contracted (moved t d n) table doubled in
        let (lt, source, limit, split, count) = retreat-numbers (moved t d n) table.sized doubled in
        (
          t',
          rw (run, source) bins,
          record {
            table = c.table;
            same = same_trans t (moved t d n) t' same c.same;
            count = c.count;
            used = c.used;
            bincount = c.bincount;
          },
        )

    -- In a right table that can contract, `metadata_contract_check` keeps the invariant, the content
    -- and the books, whether or not a contraction is due, and makes no bin.
    pub metadata_contract_check-Kept :
        Returns (metadata_contract_check mmap t) (λ t'. Kept t t' × (t'.bincount ≤ t.bincount))
    unfolding metadata_contract_check
    metadata_contract_check-Kept =
        elim (Bool-cases (ltb 0 t.doublings && ltb (metadata_load t) min_load)) [
          | inl due ↦
              let (t', run, c) = metadata_contract_table-Contracted (ground arith) in
              (
                t',
                rw due run,
                (
                  record { table = c.table; same = c.same; count = c.count; used = c.used },
                  omega (arith, c.bincount),
                ),
              )
          | inr idle ↦ (t, rw idle, (Kept-refl t is, omega arith))
        ]
