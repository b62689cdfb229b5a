-- ===== src/Lookup/Regions.antt =====
-- The array of regions: its invariant, and what an addition changes.
use sri_glibc_malloc.Base.{
  ℕ, zero, suc, ◌+◌, ◌-◌, ◌*◌, ◌^◌, ◌≤◌, ◌<◌, ◌≡◌, ◌≢◌, refl, ap, ◌∙◌, true, false, ◌&&◌, ◌||◌,
  List, ◌++◌, arith, two_pow-add_one, ltb, leb, ◌==◌, if◌then◌else◌, get_or, set, take, replicate,
  length, length-append, length-set, length-replicate, get_or-set, get_or-append, ==_refl,
  take-length, Bool-cases, inl, inr, Returns, ◌⊎◌, none, ==_true, two_pow-lt,
}
use sri_glibc_malloc.Utils.{Mmap, null, sri_mmap}
use sri_glibc_malloc.Lookup.{
  Region, blank_region, Lookup, WordMap, holds, scan_regions, grow_regions, store_region,
  lookup_add_sbrk_region, max_sbrk_table_size, int_bound,
}

-- The array has `sbrk_region_current_max` elements, and the regions up to `sbrk_region_count` are
-- among them.
pub record IsLookup {M : Type 0} (l : Lookup M) : Type 0 where
  pub inside : l.sbrk_region_count < l.sbrk_region_current_max
  pub room : length l.sbrk_regions ≡ l.sbrk_region_current_max
  pub doublings : ℕ
  pub size : l.sbrk_region_current_max ≡ 2 ^ (10 + doublings)
  pub bound : doublings ≤ 20

-- A scan reads only what it scans.
scan_regions-same :
    (n : ℕ) (rs rs' : List Region) (ptr i : ℕ)
    → ((j : ℕ) → j < i + n → get_or rs' j blank_region ≡ get_or rs j blank_region)
    → scan_regions n rs' ptr i ≡ scan_regions n rs ptr i
unfolding scan_regions
scan_regions-same zero rs rs' ptr i same = refl
scan_regions-same (suc n) rs rs' ptr i same = rw (
  same i (omega arith),
  scan_regions-same n rs rs' ptr (i + 1) (λ j h. same j (omega (arith, h))),
)

scan_regions-snoc :
    (n : ℕ) (rs : List Region) (ptr i : ℕ)
    → scan_regions (suc n) rs ptr i
      ≡ (scan_regions n rs ptr i || holds ptr (get_or rs (i + n) blank_region))
unfolding scan_regions
scan_regions-snoc zero rs ptr i = let here : i + 0 ≡ i = omega arith in rw here (ground arith)
scan_regions-snoc (suc n) rs ptr i =
    let next : i + 1 + n ≡ i + suc n = omega arith in
    let later = scan_regions-snoc n rs ptr (i + 1) in
    elim (Bool-cases (holds ptr (get_or rs i blank_region))) [
      | inl e ↦ rw e
      | inr e ↦ rw e (rw next at later)
    ]

-- A region stored behind the first `n`
scan_stored :
    (rs rs1 : List Region) (n : ℕ) (r : Region) (ptr : ℕ)
    → n < length rs1
    → ((j : ℕ) → j < n → get_or rs1 j blank_region ≡ get_or rs j blank_region)
    → scan_regions (n + 1) (set rs1 n r) ptr 0 ≡ (scan_regions n rs ptr 0 || holds ptr r)
scan_stored rs rs1 n r ptr inside same =
    let reads : (j : ℕ)
        → get_or (set rs1 n r) j blank_region ≡ (if n == j then r else get_or rs1 j blank_region) =
      λ j. get_or-set rs1 n j r blank_region inside in
    let before : (j : ℕ)
        → j < 0 + n
        → get_or (set rs1 n r) j blank_region ≡ get_or rs j blank_region =
      λ j h.
        let other : (n == j) ≡ false = ground (arith, h) in
        reads j ∙ rw other (same j (omega (arith, h))) in
    let plus : n + 1 ≡ suc n = omega arith in
    let from_zero : 0 + n ≡ n = omega arith in
    rw plus (
      scan_regions-snoc n (set rs1 n r) ptr 0
      ∙ rw (from_zero, scan_regions-same n rs (set rs1 n r) ptr 0 before, reads n, ==_refl n))

abbrev region_of : ℕ → ℕ → Region
region_of lo hi = record { mmapped = true; lo = lo; hi = hi; max = hi }

-- The lookup `l'` has one more region, and is `l` in all else that a search reads.
pub record RegionAdded {M : Type 0} (l : Lookup M) (lo hi : ℕ) (l' : Lookup M) : Type 0 where
  pub is : IsLookup l'
  pub count : l'.sbrk_region_count ≡ l.sbrk_region_count + 1
  pub heaps : l'.heap_tbl ≡ l.heap_tbl
  pub mmaps : l'.mmap_tbl ≡ l.mmap_tbl
  pub heap_max : l'.heap_max ≡ l.heap_max
  pub scanned :
      (ptr : ℕ)
      → scan_regions (l'.sbrk_region_count + 1) l'.sbrk_regions ptr 0 ≡ (
          scan_regions (l.sbrk_region_count + 1) l.sbrk_regions ptr 0 || (leb lo ptr && ltb ptr hi))

module _ {M : Type 0} (map : WordMap M) (l : Lookup M) (is : IsLookup l) where
  -- A store behind the regions of `l`, into an array that begins as that of `l`
  stored :
      (l1 : Lookup M) (lo hi : ℕ)
      → length l1.sbrk_regions ≡ l1.sbrk_region_current_max
      → l.sbrk_region_count + 1 < l1.sbrk_region_current_max
      → (k : ℕ) → l1.sbrk_region_current_max ≡ 2 ^ (10 + k)
      → k ≤ 20
      → l1.heap_tbl ≡ l.heap_tbl
      → l1.mmap_tbl ≡ l.mmap_tbl
      → l1.heap_max ≡ l.heap_max
      → ((j : ℕ)
          → j < l.sbrk_region_count + 1
          → get_or l1.sbrk_regions j blank_region ≡ get_or l.sbrk_regions j blank_region)
      → RegionAdded l lo hi (store_region map l1 (l.sbrk_region_count + 1) lo hi).1
  stored l1 lo hi room inside k size bound heaps mmaps heap_max same =
      let n = l.sbrk_region_count + 1 in
      record {
        is = record {
          inside = inside;
          room = length-set l1.sbrk_regions n (region_of lo hi) ∙ room;
          doublings = k;
          size = size;
          bound = bound;
        };
        count = refl;
        heaps = heaps;
        mmaps = mmaps;
        heap_max = heap_max;
        scanned = λ ptr.
            scan_stored l.sbrk_regions l1.sbrk_regions n (region_of lo hi) ptr
              (omega (arith, room, inside)) same;
      }

  -- The lookup with an array of twice the length
  abbrev grown : ℕ → Lookup M
  grown address = record l {
    address = address;
    sbrk_regions =
        take l.sbrk_region_current_max l.sbrk_regions
        ++ replicate (2 * l.sbrk_region_current_max - l.sbrk_region_current_max) blank_region;
    sbrk_region_current_max = 2 * l.sbrk_region_current_max;
  }

  copied : take l.sbrk_region_current_max l.sbrk_regions ≡ l.sbrk_regions
  copied = rw (← is.room) (take-length l.sbrk_regions)

  below_int : l.sbrk_region_current_max < int_bound
  below_int = rw is.size (two_pow-lt (10 + is.doublings) 31 (omega (arith, is.bound)))

  -- The array has 2 ^ 30 elements, or fewer.
  largest_or_less : (l.sbrk_region_current_max ≡ 2 ^ 30) ⊎ (is.doublings < 20)
  largest_or_less = elim (Bool-cases (is.doublings == 20)) [
    | inl e ↦ let d : is.doublings ≡ 20 = ground arith in inl (is.size ∙ ap (λ k. 2 ^ (10 + k)) d)
    | inr e ↦ inr (ground (arith, is.bound))
  ]

  can_double :
      l.sbrk_region_count + 1 ≡ l.sbrk_region_current_max
      → (l.sbrk_region_count + 1 == 2 ^ 30) ≡ false
      → is.doublings < 20
  can_double full left = elim largest_or_less [
    | inl largest ↦ absurd (ground (arith, full, left, largest))
    | inr less ↦ less
  ]

  double_below : is.doublings < 20 → 2 * l.sbrk_region_current_max < int_bound
  double_below less =
      let below = two_pow-lt (10 + is.doublings + 1) 31 (omega arith) in
      omega (arith, below, two_pow-add_one (10 + is.doublings), is.size)

  grown_stored :
      (address lo hi : ℕ)
      → is.doublings < 20
      → RegionAdded l lo hi (store_region map (grown address) (l.sbrk_region_count + 1) lo hi).1
  grown_stored address lo hi less =
      let n = l.sbrk_region_current_max in
      let behind = replicate (2 * n - n) blank_region in
      let next : 10 + (is.doublings + 1) ≡ 10 + is.doublings + 1 = omega arith in
      stored (grown address) lo hi
        (rw copied (
          omega (
            arith,
            length-append l.sbrk_regions behind,
            length-replicate (2 * n - n) blank_region,
            is.room,
          )))
        (omega (arith, is.inside)) (is.doublings + 1)
        (rw next (omega (arith, two_pow-add_one (10 + is.doublings), is.size)))
        (omega (arith, less)) refl refl refl
        (λ j h. rw copied (
          get_or-append l.sbrk_regions behind j blank_region
            (omega (arith, h, is.inside, is.room))))

  -- The addition passes, and adds the region, unless the count comes to 2 ^ 30: then the array, full and
  -- of the greatest length, cannot be doubled in an `int`.
  pub lookup_add_sbrk_region-RegionAdded :
      (mmap : Mmap) (lo hi : ℕ)
      → ((sz : ℕ) → sri_mmap mmap l.address sz ≢ null)
      → ((sz : ℕ) → sri_mmap mmap l.address sz ≢ l.address)
      → (l.sbrk_region_count + 1 == 2 ^ 30) ≡ false
      → Returns
          (lookup_add_sbrk_region map mmap l lo hi)
          (λ r. (r.0 ≡ true) × RegionAdded l lo hi r.1)
  unfolding lookup_add_sbrk_region grow_regions
  lookup_add_sbrk_region-RegionAdded mmap lo hi mapped apart left =
      let counted : ltb (l.sbrk_region_count + 1) int_bound ≡ true =
        ground (arith, below_int, is.inside) in
      elim (Bool-cases (l.sbrk_region_count + 1 == l.sbrk_region_current_max)) [
        | inl full ↦
            let size = 2 * l.sbrk_region_current_max in
            let less = can_double (==_true _ _ full) left in
            let guard : leb max_sbrk_table_size l.sbrk_region_current_max ≡ false =
              ground (arith, below_int) in
            let small : ltb (2 * l.sbrk_region_current_max) int_bound ≡ true =
              ground (arith, double_below less) in
            let got : (sri_mmap mmap l.address (size * 32) == null) ≡ false =
              ground (arith, mapped (size * 32)) in
            let elsewhere : (sri_mmap mmap l.address (size * 32) == l.address) ≡ false =
              ground (arith, apart (size * 32)) in
            (
              store_region map (grown (sri_mmap mmap l.address (size * 32)))
                  (l.sbrk_region_count + 1) lo hi,
              rw (counted, full, guard, small, got, elsewhere),
              (refl, grown_stored (sri_mmap mmap l.address (size * 32)) lo hi less),
            )
        | inr room ↦ (
          store_region map l (l.sbrk_region_count + 1) lo hi,
          rw (counted, room),
          (
            refl,
            stored l lo hi is.room (ground (arith, room, is.inside)) is.doublings is.size is.bound
                refl refl refl (λ j h. refl),
          ),
        )
      ]

  -- With 2 ^ 30 regions the length of the array overflows.
  pub lookup_add_sbrk_region-overflow :
      (mmap : Mmap) (lo hi : ℕ)
      → (l.sbrk_region_count + 1 == 2 ^ 30) ≡ true
      → lookup_add_sbrk_region map mmap l lo hi ≡ none
  unfolding lookup_add_sbrk_region grow_regions
  lookup_add_sbrk_region-overflow mmap lo hi last =
      let count = ==_true _ _ last in
      let largest : l.sbrk_region_current_max ≡ 2 ^ 30 = elim largest_or_less [
        | inl e ↦ e
        | inr less ↦
            let below = two_pow-lt (10 + is.doublings) 30 (omega (arith, less)) in
            absurd (omega (arith, below, is.size, is.inside, count))
      ] in
      rw (count, largest) refl
