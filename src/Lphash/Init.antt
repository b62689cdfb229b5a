-- ===== src/Lphash/Init.antt =====
-- `init_lphash`: the two pools, and the empty table.
use sri_glibc_malloc.Base.{
  ℕ, ◌≡◌, ◌≢◌, sym, ◌∙◌, true, false, some, [], ◌==◌, arith, Bool-cases, inl, inr, Returns,
  eq_of_some,
}
use mathlib.Core.Path.{subst}
use sri_glibc_malloc.Utils.{Mmap, null, sri_mmap, is_power_of_two}
use sri_glibc_malloc.Memcxt.{Slot, sp_scale, segment_pool_size, new_pool, chain_of}
use sri_glibc_malloc.Memcxt.Slots.{init_pool-IsPool}
use sri_glibc_malloc.Memcxt.Chain.{IsChain}
use sri_glibc_malloc.Memcxt.Laws.{IsMemcxt, SegmentsFresh}
use sri_glibc_malloc.Metadata.Init.Ready.{Empty, EmptyOr, init_metadata-EmptyOr}
use sri_glibc_malloc.Lphash.{Lphash, lphash_cfg_init, init_lphash}
use sri_glibc_malloc.Lphash.Table.{pointer_table, lp_bp_scale, lpbucket_pool_size}
use sri_glibc_malloc.Lphash.Pools.{lpinit_pool_memcxt}

chain_of-IsChain :
    (scale size : ℕ) (mmap : Mmap) → IsChain scale (chain_of (new_pool scale size mmap))
unfolding new_pool
chain_of-IsChain scale size mmap = elim (Bool-cases (sri_mmap mmap null size == null)) [
  | inl failed ↦ rw failed tt
  | inr got ↦ rw got (init_pool-IsPool scale (sri_mmap mmap null size), tt, tt)
]

lpinit-IsMemcxt :
    (pools : Mmap)
    → sri_mmap pools null segment_pool_size ≢ null
    → IsMemcxt (lpinit_pool_memcxt pools).1
unfolding lpinit_pool_memcxt new_pool
lpinit-IsMemcxt pools mapped =
    let got : (sri_mmap pools null segment_pool_size == null) ≡ false = ground arith in
    record {
      segments = chain_of-IsChain sp_scale segment_pool_size pools;
      ready = rw got;
      buckets = chain_of-IsChain lp_bp_scale lpbucket_pool_size pools;
    }

-- Let the system map the pool of segments, and then map no pool over it. Then `init_lphash` on
-- memory that is clear passes its assertions, and if it succeeds the table satisfies the invariant
-- and is empty.
pub init_lphash-EmptyOr :
    (pools mmap : Mmap) (t : Lphash)
    → sri_mmap pools null segment_pool_size ≢ null
    → SegmentsFresh mmap (lpinit_pool_memcxt pools).1
    → ((s : Slot) (j : ℕ) → t.bins s j ≡ [])
    → Returns (init_lphash pools mmap t) (EmptyOr (lpinit_pool_memcxt pools).1)
unfolding init_lphash lphash_cfg_init is_power_of_two
init_lphash-EmptyOr pools mmap t mapped fresh clear =
    init_metadata-EmptyOr mmap t (lpinit_pool_memcxt pools).1 (lpinit-IsMemcxt pools mapped) fresh
      (λ s j below unused. clear s j)

-- The table that a successful `init_lphash` has made
pub init_lphash-Empty :
    (pools mmap : Mmap) (old t : Lphash)
    → sri_mmap pools null segment_pool_size ≢ null
    → SegmentsFresh mmap (lpinit_pool_memcxt pools).1
    → ((s : Slot) (j : ℕ) → old.bins s j ≡ [])
    → init_lphash pools mmap old ≡ some (true, t)
    → Empty (lpinit_pool_memcxt pools).1 t
init_lphash-Empty pools mmap old t mapped fresh clear run =
    let (r, run', e) = init_lphash-EmptyOr pools mmap old mapped fresh clear in
    let same : r ≡ (true, t) = eq_of_some r (true, t) (sym run' ∙ run) in
    subst (EmptyOr (lpinit_pool_memcxt pools).1) same e
