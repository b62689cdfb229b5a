-- ===== src/Metadata/Contract/Bins.antt =====
-- The move of the last bin onto its partner, and the release of a segment.
use sri_glibc_malloc.Base.{
  ℕ, ◌+◌, ◌/◌, ◌%◌, ◌<◌, ◌≡◌, inl, inr, refl, ap, ◌∙◌, some, List, [], ◌∷◌, ◌++◌, ◌==◌, arith,
  Bool-cases, ==_true,
}
use mathlib.Core.List.{append-nil}
use mathlib.Core.Path.{subst}
use sri_glibc_malloc.Memcxt.{Slot}
use sri_glibc_malloc.Metadata.{Bucket, Metadata, write_bin}
use sri_glibc_malloc.Metadata.Content.Join.{join}
use sri_glibc_malloc.Metadata.Store.{
  IsStore, bin_at, read_bin-bin_at, bin_at-write_bin, write_bin-IsStore,
}
use sri_glibc_malloc.Metadata.Contract.{move_buckets, splice}
use sri_glibc_malloc.Variant.{Variant}

module _ ⦃code : Variant⦄ where
  module _ (t : Metadata) (is : IsStore t) (m p : ℕ) (lt : p < m) (src tgt : Slot)
      (at : t.entries ((m + p) / 256) ≡ some src) (at' : t.entries (p / 256) ≡ some tgt) where
    abbrev pub both : Metadata
    both =
        write_bin (write_bin t (tgt, p % 256) (bin_at t p ++ bin_at t (m + p))) (src, (m + p) % 256)
          []

    abbrev first : Metadata
    first = write_bin t (tgt, p % 256) (bin_at t p ++ bin_at t (m + p))

    first-IsStore : IsStore first
    first-IsStore = write_bin-IsStore t is p tgt at' (bin_at t p ++ bin_at t (m + p))

    both-IsStore : IsStore both
    unfolding write_bin
    both-IsStore = write_bin-IsStore first first-IsStore (m + p) src at []

    both-join : (i : ℕ) → bin_at both i ≡ join m p (bin_at t) i
    unfolding write_bin
    both-join i = ground (
      arith,
      bin_at-write_bin first first-IsStore (m + p) src at [] i,
      bin_at-write_bin t is p tgt at' (bin_at t p ++ bin_at t (m + p)) i,
    )

    -- What the move leaves: the store, and the joined bins; only the bins are written.
    pub record Moved (t' : Metadata) : Type 0 where
      pub store : IsStore t'
      pub joined : (i : ℕ) → bin_at t' i ≡ join m p (bin_at t) i
      pub rest : t' ≡ record t { bins = t'.bins }

    empty-join : bin_at t (m + p) ≡ [] → (i : ℕ) → bin_at t i ≡ join m p (bin_at t) i
    empty-join none_there i = elim (Bool-cases (i == p)) [
      | inl e ↦ rw (e, none_there, append-nil (bin_at t p), ==_true i p e)
      | inr e ↦ elim (Bool-cases (i == m + p)) [
        | inl e' ↦ rw (e, e') (ap (bin_at t) (==_true i (m + p) e') ∙ none_there)
        | inr e' ↦ rw (e, e')
      ]
    ]

    spliced :
        (bs : List Bucket)
        → bin_at t (m + p) ≡ bs
        → Moved (splice t (src, (m + p) % 256) (tgt, p % 256) bs)
    spliced [] e = record { store = is; joined = empty-join e; rest = refl }
    spliced (b ∷ bs) e =
        let whole : both ≡ splice t (src, (m + p) % 256) (tgt, p % 256) (b ∷ bs) =
          rw (e, read_bin-bin_at t is p tgt at') in
        subst Moved whole
          (record { store = both-IsStore; joined = both-join; rest = unfold write_bin in refl })

    pub move_buckets-Moved : Moved (move_buckets t (src, (m + p) % 256) (tgt, p % 256))
    unfolding move_buckets
    move_buckets-Moved = rw (read_bin-bin_at t is (m + p) src at) (spliced (bin_at t (m + p)) refl)
