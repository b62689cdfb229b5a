-- ===== src/Metadata/Expand/Splitting.antt =====
-- The split of a bin, as `split_bin` does it.
use sri_glibc_malloc.Base.{
  ℕ, suc, ◌+◌, ◌/◌, ◌%◌, ◌^◌, ◌≤◌, ◌≡◌, inl, inr, refl, ◌∙◌, ap, Bool, true, not, some, List, [],
  ◌∷◌, ◌++◌, arith, ◌==◌, if◌then◌else◌, Bool-cases, Returns, keep, two_pow-suc, two_pow-pos,
  two_pow-lt,
}
use native.Mathlib.Decide.{dec_lt}
use mathlib.Core.List.{append-nil, append_assoc}
use sri_glibc_malloc.Memcxt.{Slot}
use sri_glibc_malloc.Metadata.{Bucket, Metadata, metadata_bindex, read_bin, write_bin}
use sri_glibc_malloc.Metadata.Hash.{home, next_limit, next_split, metadata_bindex-home}
use sri_glibc_malloc.Metadata.Content.Split.{goes, split}
use sri_glibc_malloc.Metadata.Store.{
  IsStore, bin_at, read_bin-bin_at, bin_at-write_bin, write_bin-IsStore,
}
use sri_glibc_malloc.Metadata.Store.Table.{IsSized}
use sri_glibc_malloc.Metadata.Expand.{advance, split_loop, split_bin}
use sri_glibc_malloc.Variant.{Variant}

module _ ⦃code : Variant⦄ where
  -- Where every chunk has an address, the loop ends, and parts the bin by the new address of each
  -- bucket, in order.
  pub split_loop_lem :
      (t : Metadata) (new : ℕ) (g : ℕ → Bool)
      → ((k : ℕ) → (i : ℕ) × (metadata_bindex t k ≡ some i) × ((i == new) ≡ g k))
      → (bs old fresh : List Bucket)
      → split_loop t new bs old fresh
        ≡ some (old ++ keep (λ b. not (g b.chunk)) bs, fresh ++ keep (λ b. g b.chunk) bs)
  unfolding split_loop keep
  split_loop_lem t new g at [] old fresh = rw (append-nil, append-nil)
  split_loop_lem t new g at (b ∷ bs) old fresh =
      let (i, run, test) = at b.chunk in
      elim (Bool-cases (g b.chunk)) [
        | inl go ↦
            rw (run, test, go)
              (split_loop_lem t new g at bs old (fresh ++ b ∷ []) ∙ rw append_assoc)
        | inr stay ↦
            rw (run, test, stay)
              (split_loop_lem t new g at bs (old ++ b ∷ []) fresh ∙ rw append_assoc)
      ]

  module _ (t : Metadata) (sized : IsSized t) (few : t.bincount + 256 ≤ 2 ^ 31) where
    -- The step of the state variables is Larson's.
    pub advance-numbers :
        ((advance t).maxp ≡ next_limit t.maxp t.p) × ((advance t).p ≡ next_split t.maxp t.p)
    unfolding advance next_limit next_split
    advance-numbers = ground (arith, sized.bins)

    doublings_room : (t.p + 1 == t.maxp) ≡ true → t.doublings + 1 ≤ 22
    doublings_room full = elim (dec_lt t.doublings 22) [
      | yes h ↦ omega arith
      | no h ↦
          let most : t.doublings ≡ 22 = omega (arith, sized.small) in
          let limit : t.maxp ≡ 2 ^ 30 = sized.limit ∙ ap (λ d. 2 ^ (8 + d)) most in
          absurd (ground (arith, sized.bins))
    ]

    pub advance-IsSized : IsSized (advance t)
    unfolding advance
    advance-IsSized = elim (Bool-cases (t.p + 1 == t.maxp)) [
      | inl full ↦ rw full (record {
        small = doublings_room full;
        limit =
            let e : 8 + (t.doublings + 1) ≡ suc (8 + t.doublings) = omega arith in
            rw (e, two_pow-suc)
              (omega
                (arith, sized.limit, two_pow-lt (8 + t.doublings) 62 (omega (arith, sized.small))));
        below = omega (
          arith,
          sized.limit,
          two_pow-pos (8 + t.doublings),
          two_pow-lt (8 + t.doublings) 62 (omega (arith, sized.small)),
        );
        bins = ground (
          arith,
          sized.bins,
          sized.limit,
          two_pow-lt (8 + t.doublings) 62 (omega (arith, sized.small)),
        );
      })
      | inr part ↦ rw part (record {
        small = sized.small;
        limit = sized.limit;
        below = ground (arith, sized.below);
        bins = omega (arith, sized.bins);
      })
    ]

    bindex_next :
        (k : ℕ)
        → (i : ℕ) × (metadata_bindex (advance t) k ≡ some i)
          × ((i == t.maxp + t.p) ≡ goes t.maxp t.p k)
    bindex_next k = (
      home (advance t).maxp (advance t).p k,
      metadata_bindex-home (advance t) (8 + (advance t).doublings) k
          (omega (arith, advance-IsSized.small)) advance-IsSized.limit,
      rw (advance-numbers.0, advance-numbers.1),
    )

  -- The outcome of the split: the bins of Larson's split, and the numbers advanced.
  pub record IsSplit (t t' : Metadata) : Type 0 where
    pub store : IsStore t'
    pub bins : (i : ℕ) → bin_at t' i ≡ split t.maxp t.p (bin_at t) i
    pub sized : IsSized t'
    pub maxp : t'.maxp ≡ next_limit t.maxp t.p
    pub p : t'.p ≡ next_split t.maxp t.p
    pub bincount : t'.bincount ≡ t.bincount + 1
    pub kept :
        (t'.memcxt ≡ t.memcxt) × (t'.count ≡ t.count) × (t'.directory_current ≡ t.directory_current)

  module _ (t : Metadata) (is : IsStore t) (sized : IsSized t) (few : t.bincount + 256 ≤ 2 ^ 31)
      (s r : Slot) (at : t.entries (t.p / 256) ≡ some s)
      (at' : t.entries ((t.maxp + t.p) / 256) ≡ some r) (empty : bin_at t (t.maxp + t.p) ≡ []) where
    abbrev new : ℕ
    new = t.maxp + t.p

    advance-IsStore : IsStore (advance t)
    unfolding advance
    advance-IsStore = record {
      memcxt = is.memcxt;
      filled = is.filled;
      beyond = is.beyond;
      distinct = is.distinct;
      clean = is.clean;
      capacity = is.capacity;
      length_bound = is.length_bound;
    }

    abbrev old_part : List Bucket
    old_part = keep (λ b. not (goes t.maxp t.p b.chunk)) (bin_at t t.p)

    abbrev new_part : List Bucket
    new_part = keep (λ b. goes t.maxp t.p b.chunk) (bin_at t t.p)

    abbrev half_written : Metadata
    half_written = write_bin (advance t) (r, new % 256) new_part

    abbrev written : Metadata
    written = write_bin half_written (s, t.p % 256) old_part

    read-old : read_bin (advance t) (s, t.p % 256) ≡ bin_at t t.p
    unfolding advance read_bin
    read-old = read_bin-bin_at t is t.p s at

    read-new : read_bin (advance t) (r, new % 256) ≡ []
    unfolding advance read_bin
    read-new = read_bin-bin_at t is new r at' ∙ empty

    split_bin-run : split_bin t (s, t.p % 256) (r, new % 256) new ≡ some written
    unfolding split_bin
    split_bin-run =
        let loop =
          split_loop_lem (advance t) new (goes t.maxp t.p) (bindex_next t sized few) (bin_at t t.p)
            [] [] in
        rw (read-new, read-old, loop)

    half_written-IsStore : IsStore half_written
    unfolding advance
    half_written-IsStore = write_bin-IsStore (advance t) advance-IsStore new r at' new_part

    written-IsStore : IsStore written
    unfolding advance write_bin
    written-IsStore = write_bin-IsStore half_written half_written-IsStore t.p s at old_part

    bin_at-half_written :
        (i : ℕ) → bin_at half_written i ≡ (if new == i then new_part else bin_at t i)
    unfolding advance bin_at
    bin_at-half_written = bin_at-write_bin (advance t) advance-IsStore new r at' new_part

    bin_at-written :
        (i : ℕ) → bin_at written i ≡ (if t.p == i then old_part else bin_at half_written i)
    unfolding advance write_bin
    bin_at-written = bin_at-write_bin half_written half_written-IsStore t.p s at old_part

    -- The split passes its assertion, and leaves Larson's split of the bins.
    pub split_bin-IsSplit : Returns (split_bin t (s, t.p % 256) (r, new % 256) new) (IsSplit t)
    unfolding write_bin
    split_bin-IsSplit =
        let sized' = advance-IsSized t sized few in
        (
          written,
          split_bin-run,
          record {
            store = written-IsStore;
            bins = λ i. ground (arith, bin_at-written i, bin_at-half_written i);
            sized = record {
              small = sized'.small;
              limit = sized'.limit;
              below = sized'.below;
              bins = sized'.bins;
            };
            maxp = (advance-numbers t sized few).0;
            p = (advance-numbers t sized few).1;
            bincount = unfold advance in refl;
            kept = unfold advance in (refl, refl, refl);
          },
        )
