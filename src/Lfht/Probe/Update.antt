-- ===== src/Lfht/Probe/Update.antt =====
-- A walk after a write to the entry where a walk ended.
use sri_glibc_malloc.Base.{
  ℕ, zero, suc, ◌+◌, ◌-◌, ◌≡◌, ◌≢◌, inl, inr, refl, ap, bit_and, false, some, ◌⊎◌, ◌∷◌, List,
  Option-cases, ◌==◌, if◌then◌else◌, arith, Bool-cases, ==_true, ==_refl,
}
use sri_glibc_malloc.Lfht.{Entry, Hdr}
use sri_glibc_malloc.Lfht.Probe.{Stop, vacant, present, around, walk, probe, put, value_at, find_in}

abbrev pub written : (ℕ → Entry) → ℕ → Entry → ℕ → Entry
written table s e i = if s == i then e else table i

-- A walk reads the keys alone.
walk-keys :
    (fuel : ℕ) (table table' : ℕ → Entry) (mask j i key : ℕ)
    → ((n : ℕ) → (table' n).key ≡ (table n).key)
    → walk fuel table' mask j i key ≡ walk fuel table mask j i key
unfolding walk
walk-keys zero table table' mask j i key same = refl
walk-keys (suc fuel) table table' mask j i key same =
    rw (same i, walk-keys fuel table table' mask j (bit_and (i + 1) mask) key same)

-- The entry where a walk ends has no key.
pub walk-vacant :
    (fuel : ℕ) (table : ℕ → Entry) (mask j i key s : ℕ)
    → walk fuel table mask j i key ≡ some (vacant s)
    → (table s).key ≡ 0
unfolding walk
walk-vacant zero table mask j i key s h = cc
walk-vacant (suc fuel) table mask j i key s h =
    ground (arith, walk-vacant fuel table mask j (bit_and (i + 1) mask) key s)

-- Where the key has been written at the end of its walk, the walk finds it.
walk-written :
    (fuel : ℕ) (table : ℕ → Entry) (mask j i key s val : ℕ)
    → key ≢ 0
    → walk fuel table mask j i key ≡ some (vacant s)
    → walk fuel (written table s (record { key = key; val = val })) mask j i key ≡ some (present s)
unfolding walk
walk-written zero table mask j i key s val nonzero h = cc
walk-written (suc fuel) table mask j i key s val nonzero h = ground (
  arith,
  walk-vacant (suc fuel) table mask j i key s h,
  walk-written fuel table mask j (bit_and (i + 1) mask) key s val nonzero,
)

walk-present :
    (fuel : ℕ) (table : ℕ → Entry) (mask j i key s : ℕ)
    → walk fuel table mask j i key ≡ some (present s)
    → (table s).key ≡ key
unfolding walk
walk-present zero table mask j i key s h = cc
walk-present (suc fuel) table mask j i key s h =
    ground (arith, walk-present fuel table mask j (bit_and (i + 1) mask) key s)

module _ (h : Hdr) (hs : List Hdr) (key val : ℕ) where
  abbrev pub new_entry : Entry
  new_entry = record { key = key; val = val }

  pub probe-present : (i : ℕ) → probe h key ≡ some (present i) → (h.table i).key ≡ key
  unfolding probe
  probe-present i e = walk-present h.max h.table (h.max - 1) _ _ key i e

  pub probe-vacant :
      (i : ℕ)
      → key ≢ 0
      → probe h key ≡ some (vacant i)
      → probe (put h i new_entry) key ≡ some (present i)
  unfolding probe put
  probe-vacant i nonzero e = walk-written h.max h.table (h.max - 1) _ _ key i val nonzero e

  -- A write that keeps the key changes no walk.
  pub probe-put_same : (i k : ℕ) → (h.table i).key ≡ key → probe (put h i new_entry) k ≡ probe h k
  unfolding probe put
  probe-put_same i k e =
      walk-keys h.max h.table (written h.table i new_entry) (h.max - 1) _ _ k (λ n. ground arith)

  value-here : (i : ℕ) → value_at (put h i new_entry) (present i) ≡ some val
  unfolding put
  value-here i = rw (==_refl i)

  -- Written where the walk for its key, not 0, ended, the value is what `lfht_find` reads in the
  -- table.
  pub find_in-put :
      (i : ℕ)
      → key ≢ 0
      → (probe h key ≡ some (vacant i)) ⊎ (probe h key ≡ some (present i))
      → find_in (put h i new_entry ∷ hs) key ≡ some (some val)
  find_in-put i nonzero (inl e) = rw (probe-vacant i nonzero e, value-here i)
  find_in-put i nonzero (inr e) = rw (probe-put_same i key (probe-present i e), e, value-here i)

  value-other :
      (i k : ℕ) (stop : Stop)
      → (h.table i).key ≡ key
      → k ≢ key
      → probe h k ≡ some stop
      → value_at (put h i new_entry) stop ≡ value_at h stop
  unfolding put probe
  value-other i k (vacant n) e ne run = refl
  value-other i k around e ne run = refl
  value-other i k (present n) e ne run =
      let there = walk-present h.max h.table (h.max - 1) _ _ k n run in
      let apart : (i == n) ≡ false = elim (Bool-cases (i == n)) [
        | inl same ↦ absurd (ground (arith, ap (λ x. (h.table x).key) (==_true i n same)))
        | inr ne ↦ ne
      ] in
      rw apart

  -- An update or a removal, a write where the key was found, changes the value of no other key.
  pub find_in-put_other :
      (i k : ℕ)
      → probe h key ≡ some (present i)
      → k ≢ key
      → find_in (put h i new_entry ∷ hs) k ≡ find_in (h ∷ hs) k
  find_in-put_other i k e ne =
      let same = probe-put_same i k (probe-present i e) in
      elim (Option-cases (probe h k)) [
        | inl stuck ↦ rw (same, stuck)
        | inr (stop, run) ↦ rw (same, run, value-other i k stop (probe-present i e) ne run)
      ]
