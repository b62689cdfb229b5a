-- ===== src/Metadata/Store/Table.antt =====
-- The invariant of the table, its abstract view, and the sums over its buckets.
use mathlib.Core.Path.{fun_ext, subst₃, sym}
use sri_glibc_malloc.Base.{
  [], ◌∷◌, List, All, refl, ◌==◌, ℕ, ◌+◌, ◌/◌, ◌%◌, ◌^◌, ◌≤◌, ◌<◌, ◌≡◌, some, List, arith,
}
use sri_glibc_malloc.Memcxt.{Slot}
use sri_glibc_malloc.Metadata.{Bucket, Metadata, metadata_bindex, metadata_fetch_bucket, bindex2bin}
use sri_glibc_malloc.Metadata.Hash.{home, home-lt, metadata_bindex-home}
use sri_glibc_malloc.Metadata.Store.Live.{Live, at_slot, one}
use sri_glibc_malloc.Metadata.Content.{Bins, Placed, view, sum_bins}
use sri_glibc_malloc.Metadata.Store.{IsStore, bin_at, bindex2bin_lem}
use sri_glibc_malloc.Variant.{Variant}

module _ ⦃code : Variant⦄ where
  -- Larson's numbers: the limit is a power of two, `p` lies below it, and the bins are those below
  -- the limit and one for each split.
  pub record IsSized (t : Metadata) : Type 0 where
    pub small : t.doublings ≤ 22
    pub limit : t.maxp ≡ 2 ^ (8 + t.doublings)
    pub below : t.p < t.maxp
    pub bins : t.bincount ≡ t.maxp + t.p

  -- The invariant: the segments are just those that the bins need, and every bucket stands in the bin
  -- of its chunk.
  pub record IsTable (t : Metadata) : Type 0 where
    pub sized : IsSized t
    pub store : IsStore t
    pub current : t.directory_current ≡ (t.bincount + 255) / 256
    pub placed : Placed t.maxp t.p (bin_at t)

  -- The abstract map: the buckets of a chunk, in the order in which they are found
  unfoldable pub buckets_of : Metadata → ℕ → List Bucket
  buckets_of t k = view t.maxp t.p (bin_at t) k

  -- The sum of a weight over all the buckets. Two tables in which every such sum is the same hold the
  -- same buckets, each as often.
  unfoldable pub total : (Bucket → ℕ) → Metadata → ℕ
  total w t = sum_bins w t.bincount (bin_at t)

  -- The books of the table: `count` counts its buckets, and each of them is an element in use of the
  -- context's pools, and stands in the table once.
  pub record IsCounted (t : Metadata) : Type 0 where
    pub counted : t.count ≡ total one t
    pub bound : t.count < 2 ^ 64
    pub live : Live t.memcxt (λ s. total (at_slot s) t)

  -- The two tables hold the same buckets, in the same order for each chunk.
  pub record SameContent (t t' : Metadata) : Type 0 where
    pub views : (k : ℕ) → buckets_of t' k ≡ buckets_of t k
    pub totals : (w : Bucket → ℕ) → total w t' ≡ total w t

  -- The content of a table whose numbers and bins are known
  module _ (t : Metadata) (m p : ℕ) (f : Bins) (limit : t.maxp ≡ m) (split : t.p ≡ p)
      (bins : (i : ℕ) → bin_at t i ≡ f i) where
    pub Placed-known : Placed m p f → Placed t.maxp t.p (bin_at t)
    Placed-known h = subst₃ (λ a b g. Placed a b g) (sym limit) (sym split) (sym (fun_ext bins)) h

    pub buckets_of-known : (k : ℕ) → buckets_of t k ≡ view m p f k
    unfolding buckets_of
    buckets_of-known k = λ i. view (limit i) (split i) (fun_ext bins i) k

    pub total-known : (w : Bucket → ℕ) (n : ℕ) → t.bincount ≡ n → total w t ≡ sum_bins w n f
    unfolding total
    total-known w n e = λ i. sum_bins w (e i) (fun_ext bins i)

  module _ (t : Metadata) (is : IsTable t) where
    pub bindex_lem : (k : ℕ) → metadata_bindex t k ≡ some (home t.maxp t.p k)
    bindex_lem k =
        metadata_bindex-home t (8 + t.doublings) k (omega (arith, is.sized.small)) is.sized.limit

    pub home-lt_bincount : (k : ℕ) → home t.maxp t.p k < t.bincount
    home-lt_bincount k = omega (arith, is.sized.bins, home-lt t.maxp t.p k is.sized.below)

    -- There is nothing in the bins beyond the last.
    pub bin_at-beyond : (i : ℕ) → t.bincount ≤ i → bin_at t i ≡ []
    bin_at-beyond i h = go (bin_at t i) (is.placed i)
      where
        go : (bs : List Bucket) → All (λ b. home t.maxp t.p b.chunk == i) bs → bs ≡ []
        go [] a = refl
        go (b ∷ bs) a = absurd (ground (arith, a.0, home-lt_bincount b.chunk))

    -- A bin that exists is found in a segment of the directory.
    pub bin_lem :
        (i : ℕ)
        → i < t.bincount
        → (s : Slot) × (t.entries (i / 256) ≡ some s) × (bindex2bin t i ≡ some (s, i % 256))
    bin_lem i h = bindex2bin_lem t i is.store h (omega (arith, is.current))

    -- In a right table `metadata_fetch_bucket` passes its assertions and finds the bin of any chunk.
    pub fetch_lem :
        (k : ℕ)
        → (s : Slot) × (t.entries (home t.maxp t.p k / 256) ≡ some s)
          × (metadata_fetch_bucket t k ≡ some (s, home t.maxp t.p k % 256))
    unfolding metadata_fetch_bucket
    fetch_lem k =
        let (s, at, run) = bin_lem (home t.maxp t.p k) (home-lt_bincount k) in
        (s, at, rw (bindex_lem k, run))
