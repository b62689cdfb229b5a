-- ===== src/Lookup/Heap.antt =====
-- The heap of a pointer: heaps are aligned to `heap_max`, a power of two.
use native.Mathlib.Nat.{mod-lt, mod-le, mod-eq_of_lt, mod-add-mod}
use sri_glibc_malloc.Base.{
  ℕ, true, false, ◌&&◌, ◌==◌, leb, ltb, if◌then◌else◌, Returns, Bool-cases, inl, inr, ◌+◌, ◌-◌, ◌%◌,
  ◌^◌, ◌<◌, ◌≡◌, ap, ◌∙◌, arith, bit_and-high, two_pow-pos, two_pow-lt,
}
use sri_glibc_malloc.Lookup.{Lookup, WordMap, heap_for, lookup_arena_index, lookup_add_heap}
use sri_glibc_malloc.Lookup.Owner.{
  owner, in_region, mmap_val, heap_val, add_heap, apply, change-owners,
}

-- `ptr & ~(heap_max - 1)` rounds down to a multiple of `heap_max`.
heap_for-rounded : (k ptr : ℕ) → k < 64 → ptr < 2 ^ 64 → heap_for (2 ^ k) ptr ≡ ptr - ptr % 2 ^ k
unfolding heap_for
heap_for-rounded k ptr h small =
    let below = two_pow-lt k 64 h in
    let pos = two_pow-pos k in
    let mask : 2 ^ 64 - 1 - (2 ^ k + 2 ^ 64 - 1) % 2 ^ 64 ≡ 2 ^ 64 - 2 ^ k =
      omega (arith, below, pos) in
    rw mask (bit_and-high 64 k ptr small h)

-- The pointers into an aligned block of `m` are those that are rounded down to it.
rounded-block :
    (m base ptr : ℕ)
    → 0 < m
    → base % m ≡ 0
    → (base == ptr - ptr % m) ≡ (leb base ptr && ltb ptr (base + m))
rounded-block m base ptr pos aligned = elim (Bool-cases (leb base ptr && ltb ptr (base + m))) [
  | inl inside ↦
      let d = ptr - base in
      let near : d < m = ground (arith, inside) in
      let split : base + d ≡ ptr = ground (arith, inside) in
      let rest : (base % m + d) % m ≡ ptr % m = mod-add-mod base m d ∙ ap (λ x. x % m) split in
      let plain : (base % m + d) % m ≡ d =
        ap (λ x. (x + d) % m) aligned ∙ (ap (λ x. x % m) (omega arith) ∙ mod-eq_of_lt near) in
      let same : base ≡ ptr - ptr % m = omega (arith, rest, plain, split) in
      rw inside (ground (arith, same))
  | inr outside ↦
      let near = mod-lt ptr pos in
      let less = mod-le ptr m in
      let apart : (base == ptr - ptr % m) ≡ false = ground (arith, outside, near, less) in
      rw outside apart
]

module _ {M : Type 0} (map : WordMap M) (l : Lookup M) where
  -- Let `heap_max` be a power of two, and let the table of heaps accept a heap that is aligned to
  -- it. Then `lookup_add_heap` returns true, and `lookup_arena_index` finds the arena `index` for
  -- the pointers from `heap` to below `heap + heap_max` that lie in no region and are not mmapped;
  -- for every other 64-bit pointer it finds what it found before.
  pub lookup_arena_index-lookup_add_heap :
      (k heap index ptr : ℕ)
      → l.heap_max ≡ 2 ^ k
      → k < 64
      → heap % 2 ^ k ≡ 0
      → ptr < 2 ^ 64
      → (map.add l.heap_tbl heap index).0 ≡ true
      → Returns (lookup_add_heap map l heap index) (λ r.
        (r.0 ≡ true)
        × (lookup_arena_index map r.1 ptr
            ≡ owner
                (in_region map l ptr)
                (mmap_val map l ptr)
                (if leb heap ptr && ltb ptr (heap + 2 ^ k) then index else heap_val map l ptr)))
  unfolding apply
  lookup_arena_index-lookup_add_heap k heap index ptr size h aligned small ok =
      let (r, run, (good, owners)) = rw ok at (change-owners map l (add_heap heap index)) in
      let found : (heap == heap_for l.heap_max ptr) ≡ (leb heap ptr && ltb ptr (heap + 2 ^ k)) =
        ap (λ m. heap == heap_for m ptr) size
        ∙ (ap (λ x. heap == x) (heap_for-rounded k ptr h small)
            ∙ rounded-block (2 ^ k) heap ptr (two_pow-pos k) aligned) in
      (
        r,
        run,
        (
          good,
          owners ptr
              ∙ ap
                  (λ b.
                    owner (in_region map l ptr) (mmap_val map l ptr)
                      (if b then index else heap_val map l ptr))
                  found,
        ),
      )
