-- ===== src/Metadata/Store/Live.antt =====
-- The buckets that are held somewhere, as a number for each slot: each is an element in use of the
-- context's pools, and is held once.
use sri_glibc_malloc.Base.{
  ℕ, ◌+◌, ◌*◌, ◌≤◌, ◌<◌, ◌≡◌, true, ◌&&◌, not, arith, ltb, if◌then◌else◌, Returns,
}
use sri_glibc_malloc.Memcxt.{Memcxt, Slot, same_slot, element, MemType}
use sri_glibc_malloc.Memcxt.Context.{memcxt_release}
use sri_glibc_malloc.Memcxt.Laws.{IsMemcxt, bucket_used, segment_used, release_bucket_lem}
use sri_glibc_malloc.Metadata.{Bucket}
use sri_glibc_malloc.Variant.{Variant}

module _ ⦃code : Variant⦄ where
  abbrev pub one : Bucket → ℕ
  one b = 1

  abbrev pub at_slot : Slot → Bucket → ℕ
  at_slot s b = if same_slot b.slot s then 1 else 0

  abbrev pub Live : Memcxt → (Slot → ℕ) → Type 0
  Live m n =
      (s : Slot) → n s ≤ (if bucket_used m s && ltb s.index (64 * code.bp_scale) then 1 else 0)

  -- `m'` is `m` with the bucket free.
  pub record Gone (m : Memcxt) (b : Bucket) (m' : Memcxt) : Type 0 where
    pub memcxt : IsMemcxt m'
    pub buckets : (s : Slot) → bucket_used m' s ≡ (bucket_used m s && not (same_slot s b.slot))
    pub segments : (s : Slot) → segment_used m' s ≡ segment_used m s

  -- A bucket that is held can be released. What is held besides stays live.
  pub release-Live :
      (m : Memcxt) (b : Bucket) (n : Slot → ℕ)
      → IsMemcxt m
      → Live m (λ s. at_slot s b + n s)
      → Returns (memcxt_release m MemType.bucket (element b.slot)) (λ m'. Gone m b m' × Live m' n)
  release-Live m b n is live =
      let here = live b.slot in
      let used : bucket_used m b.slot ≡ true = ground (arith, here) in
      let index : b.slot.index < 64 * code.bp_scale = ground (arith, here) in
      let (m', run, (is', buckets, segments)) = release_bucket_lem m b.slot is index used in
      (
        m',
        run,
        (
          record { memcxt = is'; buckets = buckets; segments = segments },
          λ s. ground (arith, live s, buckets s),
        ),
      )
