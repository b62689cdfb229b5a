-- ===== src/Lphash/Segments.antt =====
-- `alloc_lpsegment` of src/lphash/lphash.c. Its loop goes on to the next pool only if this one
-- counts no free segment: if it counts one and has none, it stays there for ever, which is `none`.
use sri_glibc_malloc.Base.{
  ℕ, ◌≡◌, refl, true, false, ◌&&◌, not, Option, none, some, List, [], ◌∷◌, ltb, if◌then◌else◌,
  ◌>>=◌, ◌>>◌, assert, arith, Bool-cases, inl, inr,
}
use sri_glibc_malloc.Utils.{Mmap}
use sri_glibc_malloc.Memcxt.{
  Pool, Slot, sp_scale, segment_pool_size, scan_masks, take_from, past, alloc_in, alloc, or_new,
  new_pool,
}
use sri_glibc_malloc.Memcxt.Slots.{Scanned, scan_masks-Scanned}
use sri_glibc_malloc.Memcxt.Chain.{IsChain}
use sri_glibc_malloc.Variant.{is_nil}

abbrev pub or_stuck : Pool → List Pool → Option (ℕ × List ℕ) → Option (Option (Slot × List Pool))
or_stuck p ps none = none
or_stuck p ps (some found) = some (some (take_from p ps found))

-- The loop over the pools
unfoldable pub search_segments : List Pool → Option (Option (Slot × List Pool))
search_segments [] = some none
search_segments (p ∷ ps) =
    let later = (do r ← search_segments ps; some (past p r)) in
    let here = (do r ← scan_masks 0 p.bitmasks; or_stuck p ps r) in
    if ltb 0 p.free_count then here else later

unfoldable pub alloc_lpsegment : Mmap → List Pool → Option (Option Slot × List Pool)
alloc_lpsegment mmap pools = do
  assert (not (is_nil pools))
  r ← search_segments pools
  some (or_new pools (new_pool sp_scale segment_pool_size mmap) r)

-- In pools that count their free segments the loop finds what the loop of `alloc_segment` finds.
search_segments-alloc_in :
    (scale : ℕ) (ps : List Pool) → IsChain scale ps → search_segments ps ≡ alloc_in ps
unfolding search_segments alloc_in
search_segments-alloc_in scale [] chain = refl
search_segments-alloc_in scale (p ∷ ps) (is, fresh, rest) = elim (Bool-cases (ltb 0 p.free_count)) [
  | inr full ↦ rw (full, search_segments-alloc_in scale ps rest)
  | inl room ↦
      let (f, run, scanned) = scan_masks-Scanned 0 p.bitmasks is.words in found f run scanned room
]
  where
    found :
        (f : Option (ℕ × List ℕ))
        → scan_masks 0 p.bitmasks ≡ some f
        → Scanned 0 p.bitmasks f
        → ltb 0 p.free_count ≡ true
        → search_segments (p ∷ ps) ≡ alloc_in (p ∷ ps)
    found none run none_free room = absurd (ground (arith, is.counted))
    found (some f) run scanned room = rw (room, run)

-- In a chain of right pools that is not empty, `alloc_lpsegment` passes its assertion, its loop ends,
-- and it does what `alloc_segment` of memcxt.c does.
pub alloc_lpsegment-alloc :
    (mmap : Mmap) (ps : List Pool)
    → IsChain sp_scale ps
    → (true && is_nil ps) ≡ false
    → alloc_lpsegment mmap ps ≡ alloc sp_scale segment_pool_size mmap ps
unfolding alloc_lpsegment alloc
alloc_lpsegment-alloc mmap ps chain some_pool =
    let there : is_nil ps ≡ false = some_pool in
    rw (there, search_segments-alloc_in sp_scale ps chain)
