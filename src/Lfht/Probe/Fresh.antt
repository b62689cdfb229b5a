-- ===== src/Lfht/Probe/Fresh.antt =====
-- `init_lfht`: a table without keys.
use sri_glibc_malloc.Base.{
  ℕ, ◌+◌, ◌*◌, ◌%◌, ◌^◌, ◌≡◌, ◌≢◌, inl, inr, refl, sym, ◌∙◌, false, true, Bool, [], some, none, ◌∷◌,
  ◌==◌, arith, Bool-cases, ==_true, two_pow-pos,
}
use sri_glibc_malloc.Utils.{Mmap, map_failed, jenkins_hash_ptr}
use sri_glibc_malloc.Lfht.{Hdr, Lfht, threshold_of, alloc_lfht_hdr, init_lfht, initial}
use sri_glibc_malloc.Lfht.Probe.{Stop, vacant, present, around, value_at}
use sri_glibc_malloc.Lfht.Probe.Laws.{Ends, probe-Ends}
use sri_glibc_malloc.Lfht.Probe.Steady.{IsSteady, found_of, found_of_lem}

-- What `init_lfht` makes of `ht`: a table that is not expanding and has no key, or, if the system
-- refuses the mapping, `ht`.
abbrev pub SteadyOr : Mmap → ℕ → Lfht → Bool → Lfht → Type 0
SteadyOr mmap e ht true ht' =
    (h : Hdr) × IsSteady e h [] ht'
    × ((mmap' : Mmap) (k : ℕ) → k ≢ 0 → found_of mmap' ht' k ≡ some none)
    × (h.threshold ≡ threshold_of (2 ^ e))
    × (h.count ≡ 0)
SteadyOr mmap e ht false ht' = (ht' ≡ ht) × (mmap 0 (2 ^ e * 16 + 48) ≡ map_failed)

module _ (mmap : Mmap) (e : ℕ) (ht : Lfht) where
  abbrev fresh : Hdr
  fresh = record {
    address = mmap 0 (2 ^ e * 16 + 48);
    assimilated = false;
    sz = 2 ^ e * 16 + 48;
    max = 2 ^ e;
    threshold = threshold_of (2 ^ e);
    count = 0;
    table = λ i. record { key = 0; val = 0 };
  }

  abbrev fresh_table : Lfht
  fresh_table = record { state = initial; hdrs = fresh ∷ [] }

  fresh-IsSteady : IsSteady e fresh [] fresh_table
  fresh-IsSteady = record {
    hdrs = refl;
    settled = refl;
    current = refl;
    size = refl;
    placed = record { found = λ i full live. absurd (full refl) };
  }

  no_value :
      (k : ℕ) (stop : Stop)
      → k ≢ 0
      → Ends e fresh.table (jenkins_hash_ptr k % 2 ^ e) k stop
      → value_at fresh stop ≡ none
  no_value k (vacant i) full end = refl
  no_value k (present i) full end = absurd (full (sym end))
  no_value k around full end = refl

  finds_nothing : (mmap' : Mmap) (k : ℕ) → k ≢ 0 → found_of mmap' fresh_table k ≡ some none
  finds_nothing mmap' k full =
      let (stop, run, end) = probe-Ends fresh e k refl in
      found_of_lem mmap' e fresh [] fresh_table fresh-IsSteady k full
      ∙ rw (run, no_value k stop full end) refl

  pub init_lfht-SteadyOr :
      SteadyOr mmap e ht ((init_lfht mmap ht (2 ^ e)).0) ((init_lfht mmap ht (2 ^ e)).1)
  unfolding init_lfht alloc_lfht_hdr
  init_lfht-SteadyOr =
      let pos = two_pow-pos e in
      let some_size : (2 ^ e == 0) ≡ false = ground arith in
      elim (Bool-cases (mmap 0 (2 ^ e * 16 + 48) == map_failed)) [
        | inl refused ↦ rw (some_size, refused) (refl, ==_true _ _ refused)
        | inr mapped ↦ rw (some_size, mapped) (fresh, fresh-IsSteady, finds_nothing, refl, refl)
      ]
