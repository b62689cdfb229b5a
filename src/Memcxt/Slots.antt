-- ===== src/Memcxt/Slots.antt =====
-- The masks of one pool: which elements are in use, and the count of free elements.
use sri_glibc_malloc.Base.{
  ℕ, zero, suc, ◌+◌, ◌-◌, ◌*◌, ◌/◌, ◌%◌, ◌≤◌, ◌<◌, ◌≡◌, ◌∙◌, refl, Bool, true, false, ◌&&◌, ◌||◌,
  not, ltb, ◌==◌, if◌then◌else◌, Option, none, some, Returns, List, [], ◌∷◌, arith, digit, length,
  get_or, set, replicate, Bool-cases, inl, inr, digit-zero, length-replicate, sym, leb,
}
use sri_glibc_malloc.Utils.{u64_mod}
use sri_glibc_malloc.Memcxt.{
  behind, Pool, uint64_max, scan_masks, free_index, init_pool, set_bit, clear_bit,
}
use sri_glibc_malloc.Memcxt.Masks.{
  zeros, all_of_zeros, zeros_flip, zeros_full, zeros_empty, get_free_bit_lem, digit-set_bit,
  set_bit-lt, digit-clear_bit, clear_bit-lt, get_bit_lem, zeros-le,
}

-- Element `o` is in use.
unfoldable pub in_masks : List ℕ → ℕ → Bool
in_masks [] o = false
in_masks (m ∷ ms) o = if ltb o 64 then digit o m else in_masks ms (o - 64)

-- The number of elements that are free
unfoldable pub free_bits : List ℕ → ℕ
free_bits [] = 0
free_bits (m ∷ ms) = zeros 64 m + free_bits ms

abbrev pub AreWords : List ℕ → Type 0
AreWords [] = Unit {0}
AreWords (m ∷ ms) = (m < u64_mod) × AreWords ms

-- `ms'` is `ms` with element `o`, which was free, in use.
pub record Taken (ms : List ℕ) (o : ℕ) (ms' : List ℕ) : Type 0 where
  pub in_range : o < 64 * length ms
  pub was_free : in_masks ms o ≡ false
  pub words : AreWords ms'
  pub width : length ms' ≡ length ms
  pub counted : free_bits ms ≡ free_bits ms' + 1
  pub reads : (q : ℕ) → in_masks ms' q ≡ (q == o || in_masks ms q)

Taken-here :
    (m i : ℕ) (ms : List ℕ)
    → AreWords (m ∷ ms)
    → i < 64
    → digit i m ≡ false
    → Taken (m ∷ ms) i (set_bit m i ∷ ms)
unfolding in_masks free_bits
Taken-here m i ms w h free =
    let flip =
      zeros_flip 64 i m (set_bit m i) (omega arith) free (ground (arith, digit-set_bit m i h i))
        (λ j p ne. ground (arith, digit-set_bit m i h j)) in
    record {
      in_range = omega arith;
      was_free = ground arith;
      words = (set_bit-lt m i h w.0, w.1);
      width = refl;
      counted = ground (arith, flip);
      reads = λ q. ground (arith, digit-set_bit m i h q);
    }

Taken-later :
    (m o : ℕ) (ms ms' : List ℕ) → m < u64_mod → Taken ms o ms' → Taken (m ∷ ms) (64 + o) (m ∷ ms')
unfolding in_masks free_bits
Taken-later m o ms ms' w t = record {
  in_range = omega arith;
  was_free = let e : 64 + o - 64 ≡ o = omega arith in rw e (ground arith);
  words = (w, t.words);
  width = omega arith;
  counted = omega arith;
  reads = λ q. ground (arith, t.reads (q - 64));
}

zero_masks : (n : ℕ) → AreWords (replicate n 0) × (free_bits (replicate n 0) ≡ n * 64)
unfolding replicate free_bits
zero_masks zero = (tt, refl)
zero_masks (suc n) = ((omega arith, (zero_masks n).0), omega (arith, zeros_empty, (zero_masks n).1))

first-Taken : (k : ℕ) → AreWords (replicate k 0) → Taken (0 ∷ replicate k 0) 0 (1 ∷ replicate k 0)
unfolding set_bit
first-Taken k w = Taken-here 0 0 (replicate k 0) (omega arith, w) (omega arith) refl

-- What the scan finds: nothing, and every element is in use, or a free element, which it takes.
abbrev pub Scanned : ℕ → List ℕ → Option (ℕ × List ℕ) → Type 0
Scanned scale ms none = free_bits ms ≡ 0
Scanned scale ms (some (index, ms')) = (o : ℕ) × (index ≡ scale * 64 + o) × Taken ms o ms'

Scanned-behind :
    (scale m : ℕ) (ms : List ℕ) (r : Option (ℕ × List ℕ))
    → m ≡ uint64_max
    → Scanned (scale + 1) ms r
    → Scanned scale (m ∷ ms) (behind m r)
unfolding free_bits
Scanned-behind scale m ms none e h = rw e (omega (arith, zeros_full))
Scanned-behind scale m ms (some (index, ms')) e (o, at, t) =
    (64 + o, omega arith, Taken-later m o ms ms' (omega arith) t)

-- On 64-bit masks the scan passes its assertions. It takes an element that was free, and finds none
-- only if none is counted free.
pub scan_masks-Scanned :
    (scale : ℕ) (ms : List ℕ) → AreWords ms → Returns (scan_masks scale ms) (Scanned scale ms)
unfolding scan_masks free_bits
scan_masks-Scanned scale [] w = (none, refl, refl)
scan_masks-Scanned scale (m ∷ ms) w = elim (Bool-cases (ltb m uint64_max)) [
  | inl room ↦
      let (i, run, (lt, free)) = get_free_bit_lem m (ground arith) in
      let inside : ltb i 64 ≡ true = ground arith in
      (
        some (scale * 64 + i, set_bit m i ∷ ms),
        rw (room, run, inside),
        (i, refl, Taken-here m i ms w lt free),
      )
  | inr full ↦
      let (r, run, found) = scan_masks-Scanned (scale + 1) ms w.1 in
      (behind m r, rw (full, run), Scanned-behind scale m ms r (ground arith) found)
]

-- Where no element is counted free, every element is in use.
pub full_of_free_bits :
    (ms : List ℕ) (o : ℕ) → free_bits ms ≡ 0 → o < 64 * length ms → in_masks ms o ≡ true
unfolding in_masks free_bits
full_of_free_bits [] o e h = absurd (omega arith)
full_of_free_bits (m ∷ ms) o e h =
    ground (arith, all_of_zeros 64 o m, full_of_free_bits ms (o - 64))

-- The word and the digit of an element
get_or-in_masks :
    (ms : List ℕ) (o : ℕ)
    → o < 64 * length ms
    → digit (o % 64) (get_or ms (o / 64) 0) ≡ in_masks ms o
unfolding in_masks
get_or-in_masks [] o h = absurd (omega arith)
get_or-in_masks (m ∷ ms) o h = elim (Bool-cases (ltb o 64)) [
  | inl low ↦
      let d : o / 64 ≡ 0 = ground arith in let r : o % 64 ≡ o = ground arith in rw (low, d, r)
  | inr high ↦
      let d : o / 64 ≡ suc ((o - 64) / 64) = ground arith in
      let r : o % 64 ≡ (o - 64) % 64 = ground arith in
      rw (high, d, r) (get_or-in_masks ms (o - 64) (ground arith))
]

-- `ms'` is `ms` with element `o`, which was in use, free.
pub record Released (ms : List ℕ) (o : ℕ) (ms' : List ℕ) : Type 0 where
  pub words : AreWords ms'
  pub width : length ms' ≡ length ms
  pub counted : free_bits ms' ≡ free_bits ms + 1
  pub reads : (q : ℕ) → in_masks ms' q ≡ (in_masks ms q && not (q == o))

abbrev cleared : List ℕ → ℕ → List ℕ
cleared ms o = set ms (o / 64) (clear_bit (get_or ms (o / 64) 0) (o % 64))

Released-cleared :
    (ms : List ℕ) (o : ℕ)
    → AreWords ms
    → o < 64 * length ms
    → in_masks ms o ≡ true
    → Released ms o (cleared ms o)
unfolding in_masks free_bits
Released-cleared [] o w h used = absurd (omega arith)
Released-cleared (m ∷ ms) o w h used = elim (Bool-cases (ltb o 64)) [
  | inl low ↦
      let d : o / 64 ≡ 0 = ground arith in
      let r : o % 64 ≡ o = ground arith in
      let lt : o < 64 = ground arith in
      let flip =
        zeros_flip 64 o (clear_bit m o) m (omega arith)
          (ground (arith, digit-clear_bit m o lt o lt)) (ground arith)
          (λ j p ne. ground (arith, digit-clear_bit m o lt j p)) in
      rw (d, r)
        record {
          words = (clear_bit-lt m o lt w.0, w.1);
          width = refl;
          counted = ground (arith, flip);
          reads = λ q. ground (arith, digit-clear_bit m o lt q);
        }
  | inr high ↦
      let d : o / 64 ≡ suc ((o - 64) / 64) = ground arith in
      let r : o % 64 ≡ (o - 64) % 64 = ground arith in
      let t = Released-cleared ms (o - 64) w.1 (ground arith) (ground arith) in
      rw (d, r)
        record {
          words = (w.0, t.words);
          width = omega arith;
          counted = omega arith;
          reads = λ q. ground (arith, t.reads (q - 64));
        }
]

-- A pool of `scale` masks whose count of free elements is right
pub record IsPool (scale : ℕ) (p : Pool) : Type 0 where
  pub words : AreWords p.bitmasks
  pub width : length p.bitmasks ≡ scale
  pub counted : p.free_count ≡ free_bits p.bitmasks

pub Taken-first :
    (scale : ℕ) → 0 < scale → Taken (replicate scale 0) 0 (set (replicate scale 0) 0 1)
unfolding replicate
Taken-first zero h = elim h [ ]
Taken-first (suc k) h = first-Taken k (zero_masks k).0

pub in_masks-replicate : (n o : ℕ) → in_masks (replicate n 0) o ≡ false
unfolding replicate in_masks
in_masks-replicate zero o = refl
in_masks-replicate (suc n) o = ground (arith, digit-zero o, in_masks-replicate n (o - 64))

pub init_pool-IsPool : (scale base : ℕ) → IsPool scale (init_pool scale base)
unfolding init_pool
init_pool-IsPool scale base = record {
  words = (zero_masks scale).0;
  width = length-replicate scale 0;
  counted = sym (zero_masks scale).1;
}

pub free_bits-le : (ms : List ℕ) → free_bits ms ≤ 64 * length ms
unfolding free_bits
free_bits-le [] = omega arith
free_bits-le (m ∷ ms) = omega (arith, zeros-le 64 m, free_bits-le ms)

-- In a pool that is right, freeing an element in use passes every assertion, frees that element
-- alone, counts it, and keeps the pool right.
pub free_index_lem :
    (scale : ℕ) (p : Pool) (o : ℕ)
    → IsPool scale p
    → o < 64 * scale
    → in_masks p.bitmasks o ≡ true
    → Returns (free_index scale p o) (λ p'.
      IsPool scale p'
      × (p'.base ≡ p.base)
      × (p'.free_count ≡ p.free_count + 1)
      × ((q : ℕ) → in_masks p'.bitmasks q ≡ (in_masks p.bitmasks q && not (q == o))))
unfolding free_index
free_index_lem scale p o is h used =
    let t = Released-cleared p.bitmasks o is.words (omega (arith, is.width)) used in
    let bit =
      get_bit_lem (get_or p.bitmasks (o / 64) 0) (o % 64) (omega arith)
      ∙ get_or-in_masks p.bitmasks o (omega (arith, is.width))
      ∙ used in
    let inside : ltb o (scale * 64) ≡ true = ground arith in
    let count : (ltb 0 (p.free_count + 1) && leb (p.free_count + 1) (scale * 64)) ≡ true =
      ground
        (arith, is.counted, is.width, t.counted, t.width, free_bits-le (cleared p.bitmasks o)) in
    (
      record p { bitmasks = cleared p.bitmasks o; free_count = p.free_count + 1 },
      rw (inside, bit, count),
      (
        record {
          words = t.words;
          width = t.width ∙ is.width;
          counted = omega (arith, is.counted, t.counted);
        },
        refl,
        refl,
        t.reads,
      ),
    )
