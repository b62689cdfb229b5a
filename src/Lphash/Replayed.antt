-- ===== src/Lphash/Replayed.antt =====
-- The replay with the table of src/lphash/lphash.c. The system that it supposes always has a new
-- address: addresses are natural numbers here, not of 64 bits.
use sri_glibc_malloc.Base.{
  ℕ, suc, ◌+◌, ◌^◌, ◌≤◌, ◌≡◌, ◌≢◌, true, false, some, List, [], Option, ltb, length, Returns, arith,
}
use mathlib.Core.Path.{fun_ext}
use sri_glibc_malloc.Utils.{Mmap, null, sri_mmap}
use sri_glibc_malloc.Memcxt.{Memcxt, Slot, segment_pool_size}
use sri_glibc_malloc.Memcxt.Laws.{SegmentsFresh}
use sri_glibc_malloc.Mhook.{Libc, Hooks, returned, wrote}
use sri_glibc_malloc.Mhook.Transparent.{Request}
use sri_glibc_malloc.Metadata.Store.Table.{IsTable, IsCounted, buckets_of}
use sri_glibc_malloc.Metadata.Init.Ready.{Empty}
use sri_glibc_malloc.Metadata.Client.History.{Empty-Right}
use sri_glibc_malloc.Lphash.{Lphash, init_lphash}
use sri_glibc_malloc.Lphash.Table.{pointer_table}
use sri_glibc_malloc.Lphash.Pools.{lpinit_pool_memcxt}
use sri_glibc_malloc.Lphash.Values.{values_of}
use sri_glibc_malloc.Lphash.Client.{Handle, Grants, lphash_table}
use sri_glibc_malloc.Lphash.Init.{init_lphash-Empty}
use sri_glibc_malloc.Replay.{buffersz}
use sri_glibc_malloc.Replay.Handlers.{Replay, process_file}
use sri_glibc_malloc.Replay.Faithful.{IsTidy, same_allocator}
use sri_glibc_malloc.Replay.Traced.{traced, trace_of, process_file-traced}
use sri_glibc_malloc.Base.{keep}

-- An empty table, as a client holds it
abbrev pub handle_of : (m : Memcxt) (t : Lphash) → Empty m t → Handle
handle_of m t e = record { table = t; is = (Empty-Right m t e).0; books = (Empty-Right m t e).1 }

values_of-empty : (m : Memcxt) (t : Lphash) → Empty m t → values_of t ≡ (λ k. [])
unfolding values_of buckets_of keep
values_of-empty m t e = fun_ext (λ k. rw (e.bins _))

module _ (pools mmap : Mmap) (old t : Lphash)
    (mapped : sri_mmap pools null segment_pool_size ≢ null)
    (fresh : SegmentsFresh mmap (lpinit_pool_memcxt pools).1)
    (clear : (s : Slot) (j : ℕ) → old.bins s j ≡ [])
    (run : init_lphash pools mmap old ≡ some (true, t)) where
  made : Empty (lpinit_pool_memcxt pools).1 t
  made = init_lphash-Empty pools mmap old t mapped fresh clear run

  -- The table that `init_lphash` has made
  unfoldable pub first_handle : Handle
  unfolding made
  first_handle = handle_of (lpinit_pool_memcxt pools).1 t made

  -- Let a program run under mhook.c from the start, with MHOOK naming a file that can be opened and
  -- to which every write is whole, and let its calls be tidy (`IsTidy`). Let `init_lphash` have made its table on
  -- memory that is clear, with a pool of segments, on a system that after that refuses no mapping and
  -- maps nothing over what is mapped, and let the log have at most 2 ^ 30 - 256 lines. Then the run
  -- comes to its end, and `process_file` on its log with the operations of lphash.c on that table, and
  -- with the allocator in the state that the program started from, returns 0 and leaves the allocator
  -- in the state that the program left.
  pub process_file-init_lphash :
      {S : Type 0} (libc : Libc S) (system : Lphash → Mmap)
      (grants : (t : Lphash) → IsTable t → IsCounted t → Grants (system t) t) (rs : List Request)
      (s : S) (fd n : ℕ) (name : List ℕ) (open_file : List ℕ → Option ℕ) (buffer : List ℕ)
      → ((log line : List ℕ) → libc.write log line ≡ wrote (length line))
      → open_file name ≡ some fd
      → ltb 0 fd ≡ true
      → 256 + length (trace_of libc rs s) ≤ 2 ^ 30
      → IsTidy libc rs (λ k. false) s
      → length buffer ≡ buffersz + 1
      → (results : List ℕ) × (last : S) × (hooks : Hooks) × (traced libc
            (suc (suc n))
            (some name)
            open_file
            rs
            s
          ≡ returned (results, last, hooks))
        × Returns
            (process_file
              (lphash_table system grants)
              (same_allocator libc)
              buffer
              s
              (some first_handle)
              (some hooks.log))
            (λ r. (r.0 ≡ 0) × (st : Replay Handle S) × (r.2 ≡ some st) × (st.heap ≡ last))
  unfolding first_handle
  process_file-init_lphash libc system grants rs s fd n name open_file buffer whole opens positive
        few tidy h =
      process_file-traced libc (lphash_table system grants) rs s fd n name open_file first_handle
        buffer whole opens positive (omega (arith, made.bincount), omega (arith, made.count))
        (values_of-empty (lpinit_pool_memcxt pools).1 t made) tidy h
