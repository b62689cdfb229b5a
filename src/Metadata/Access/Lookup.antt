-- ===== src/Metadata/Access/Lookup.antt =====
-- `metadata_lookup`: the walk down a bin, and the move to the front.
use sri_glibc_malloc.Base.{
  ℕ, ◌%◌, ◌/◌, ◌<◌, ◌≡◌, inl, inr, refl, sym, ap, ◌∙◌, Bool, false, Option, none, some, List, [],
  ◌∷◌, ◌++◌, arith, ◌==◌, keep, keep-append, Bool-cases, ==_true, ==_refl, All,
}
use mathlib.Core.List.{append-nil, append_assoc}
use sri_glibc_malloc.Memcxt.{Slot}
use sri_glibc_malloc.Metadata.{Bucket, Metadata, write_bin}
use sri_glibc_malloc.Metadata.Hash.{home}
use sri_glibc_malloc.Metadata.Content.{of_chunk, sum, sum-append}
use sri_glibc_malloc.Metadata.Store.{bin_at, read_bin-bin_at}
use sri_glibc_malloc.Metadata.Store.Table.{IsTable, buckets_of, total, fetch_lem, home-lt_bincount}
use sri_glibc_malloc.Metadata.Expand.Correct.{Kept, Kept-refl}
use sri_glibc_malloc.Metadata.Access.{find_bucket, beyond_second, metadata_lookup}
use sri_glibc_malloc.Metadata.Access.Write.{written-IsTable, buckets_of-written, total-written}
use sri_glibc_malloc.Variant.{Variant}

module _ ⦃code : Variant⦄ where
  -- What the walk finds: nothing, or the first bucket of the chunk, with what stands before and
  -- behind it.
  pub data Search (k : ℕ) (passed bs : List Bucket)
      (r : Option (List Bucket × Bucket × List Bucket)) : Type 0 where
    nowhere : r ≡ none → of_chunk k bs ≡ [] → Search k passed bs r
    first :
        (pre : List Bucket) (b : Bucket) (rest : List Bucket)
        → r ≡ some (passed ++ pre, b, rest)
        → bs ≡ pre ++ b ∷ rest
        → of_chunk k pre ≡ []
        → b.chunk ≡ k
        → Search k passed bs r

  -- `find_bucket` finds the first bucket of the chunk, and misses none.
  pub find_bucket-Search :
      (k : ℕ) (passed bs : List Bucket) → Search k passed bs (find_bucket k passed bs)
  unfolding find_bucket keep
  find_bucket-Search k passed [] = nowhere refl refl
  find_bucket-Search k passed (b ∷ bs) = elim (Bool-cases (k == b.chunk)) [
    | inl e ↦ first [] b bs (rw (e, append-nil)) refl refl (sym (==_true k b.chunk e))
    | inr e ↦
        let other : (b.chunk == k) ≡ false = ground arith in
        elim (find_bucket-Search k (passed ++ b ∷ []) bs) [
          | nowhere r absent ↦ nowhere (rw (e, r)) (rw (other, absent))
          | first pre c rest r at before here ↦
              first (b ∷ pre) c rest (rw (e, r, append_assoc)) (ap (λ cs. b ∷ cs) at)
                (rw (other, before)) here
        ]
  ]

  -- Moving a bucket to the front changes the order of no chunk's buckets if those before it are of
  -- others.
  pub of_chunk-front :
      (k j : ℕ) (pre : List Bucket) (b : Bucket) (rest : List Bucket)
      → of_chunk k pre ≡ []
      → b.chunk ≡ k
      → of_chunk j (b ∷ pre ++ rest) ≡ of_chunk j (pre ++ b ∷ rest)
  unfolding keep
  of_chunk-front k j pre b rest before here = elim (Bool-cases (b.chunk == j)) [
    | inl e ↦
        let none_before : of_chunk j pre ≡ [] =
          ap (λ x. of_chunk x pre) (sym (==_true b.chunk j e) ∙ here) ∙ before in
        rw (
          e,
          keep-append (λ c. c.chunk == j) pre rest,
          keep-append (λ c. c.chunk == j) pre (b ∷ rest),
          e,
          none_before,
        )
    | inr e ↦ rw (
      e,
      keep-append (λ c. c.chunk == j) pre rest,
      keep-append (λ c. c.chunk == j) pre (b ∷ rest),
      e,
    )
  ]

  All-front :
      (p : Bucket → Bool) (pre : List Bucket) (b : Bucket) (rest : List Bucket)
      → All p (pre ++ b ∷ rest)
      → All p (b ∷ pre ++ rest)
  All-front p [] b rest a = a
  All-front p (c ∷ pre) b rest a =
      let (hb, later) = All-front p pre b rest a.1 in (hb, (a.0, later))

  abbrev pub first_of : List Bucket → Option Bucket
  first_of [] = none
  first_of (b ∷ bs) = some b

  module _ (t : Metadata) (is : IsTable t) (k : ℕ) where
    abbrev i : ℕ
    i = home t.maxp t.p k

    below : i < t.bincount
    below = home-lt_bincount t is k

    module _ (s : Slot) (at : t.entries (i / 256) ≡ some s) (pre : List Bucket) (b : Bucket)
        (rest : List Bucket) (bin : bin_at t i ≡ pre ++ b ∷ rest) (before : of_chunk k pre ≡ [])
        (here : b.chunk ≡ k) where
      abbrev u : Metadata
      u = write_bin t (s, i % 256) (b ∷ pre ++ rest)

      front_chunks : (j : ℕ) → buckets_of u j ≡ buckets_of t j
      unfolding buckets_of
      front_chunks j =
          let now = buckets_of-written t is i below s at (b ∷ pre ++ rest) j in
          elim (Bool-cases (i == home t.maxp t.p j)) [
            | inl e ↦
                now
                ∙ rw (e, ← ==_true i (home t.maxp t.p j) e, bin)
                    (of_chunk-front k j pre b rest before here)
            | inr e ↦ now ∙ rw e
          ]

      front_totals : (w : Bucket → ℕ) → total w u ≡ total w t
      unfolding sum
      front_totals w =
          let now = total-written t is i below s at (b ∷ pre ++ rest) w in
          let old : sum w (bin_at t i) ≡ sum w (pre ++ b ∷ rest) = ap (sum w) bin in
          omega (arith, now, old, sum-append w pre rest, sum-append w pre (b ∷ rest))

      front-Kept : Kept t u
      unfolding write_bin
      front-Kept = record {
        table =
            written-IsTable t is i below s at (b ∷ pre ++ rest)
              (All-front (λ c. home t.maxp t.p c.chunk == i) pre b rest (rw (← bin) (is.placed i)));
        same = record { views = front_chunks; totals = front_totals };
        count = refl;
        used = λ s. refl;
      }

      pub first_bucket : buckets_of t k ≡ b ∷ of_chunk k rest
      unfolding buckets_of keep
      first_bucket =
          rw (bin, keep-append (λ c. c.chunk == k) pre (b ∷ rest), before, here, ==_refl k)

    -- In a right table `metadata_lookup` passes its assertions. It returns the first bucket of the
    -- chunk, if there is one, and keeps the invariant, the order of each chunk's buckets, every sum
    -- and the count.
    pub metadata_lookup-first :
        (t' : Metadata) × (metadata_lookup t k ≡ some (first_of (buckets_of t k), t')) × Kept t t'
    unfolding metadata_lookup buckets_of
    metadata_lookup-first =
        let (s, at, fetch) = fetch_lem t is k in
        let read = read_bin-bin_at t is.store i s at in
        elim (find_bucket-Search k [] (bin_at t i)) [
          | nowhere r absent ↦
              let empty : buckets_of t k ≡ [] = absent in
              (t, rw (fetch, read, r, empty), Kept-refl t is)
          | first pre b rest r bin before here ↦
              let found = first_bucket s at pre b rest bin before here in
              elim (Bool-cases (beyond_second pre)) [
                | inl e ↦ (
                  u s at pre b rest bin before here,
                  rw (fetch, read, r, e, found),
                  front-Kept s at pre b rest bin before here,
                )
                | inr e ↦ (t, rw (fetch, read, r, e, found), Kept-refl t is)
              ]
        ]
