-- ===== src/Metadata/Contract/Numbers.antt =====
-- The numbers of a contraction: the step back undoes Larson's step.
use sri_glibc_malloc.Base.{
  ℕ, suc, ◌+◌, ◌-◌, ◌*◌, ◌/◌, ◌%◌, ◌^◌, ◌<◌, ◌≡◌, inl, inr, ◌∙◌, some, arith, ◌==◌, if◌then◌else◌,
  Bool-cases, two_pow-suc, two_pow-pos, two_pow-lt,
}
use sri_glibc_malloc.Utils.{u64_mod}
use sri_glibc_malloc.Utils.Sizes.{add_size_lem}
use sri_glibc_malloc.Metadata.{Metadata}
use sri_glibc_malloc.Metadata.Hash.{next_limit, next_split}
use sri_glibc_malloc.Metadata.Store.Table.{IsSized}
use sri_glibc_malloc.Metadata.Contract.{retreat, contract_target, contract_source}
use sri_glibc_malloc.Variant.{Variant}

module _ ⦃code : Variant⦄ where
  -- The limit before the last step
  abbrev pub last_limit : Metadata → ℕ
  last_limit t = if t.p == 0 then t.maxp / 2 else t.maxp

  module _ (t : Metadata) (sized : IsSized t) (doubled : 0 < t.doublings) where
    limit-half : (t.maxp ≡ 2 * 2 ^ (8 + (t.doublings - 1))) × (t.maxp < 2 ^ 31) × (1 < t.maxp)
    limit-half =
        let e : 8 + t.doublings ≡ suc (8 + (t.doublings - 1)) = omega arith in
        let limit : t.maxp ≡ 2 * 2 ^ (8 + (t.doublings - 1)) =
          sized.limit ∙ (rw (e, two_pow-suc) (omega arith)) in
        (
          limit,
          omega (arith, sized.limit, two_pow-lt (8 + t.doublings) 31 (omega (arith, sized.small))),
          omega (arith, limit, two_pow-pos (8 + (t.doublings - 1))),
        )

    -- The two bins, and the limits that lead to those of the table
    pub retreat-numbers :
        (contract_target t < last_limit t)
        × (contract_source t ≡ some (last_limit t + contract_target t))
        × (next_limit (last_limit t) (contract_target t) ≡ t.maxp)
        × (next_split (last_limit t) (contract_target t) ≡ t.p)
        × (t.bincount ≡ suc (last_limit t + contract_target t))
    unfolding contract_target contract_source next_limit next_split
    retreat-numbers =
        let (half, small, big) = limit-half in
        let bins = sized.bins in
        let below = sized.below in
        elim (Bool-cases (t.p == 0)) [
          | inl start ↦
              rw start (ground arith, ground arith, ground arith, ground arith, ground arith)
          | inr mid ↦
              let sum = add_size_lem t.maxp (t.p - 1) (omega arith) (omega arith) in
              rw mid (ground arith, ground (arith, sum), ground arith, ground arith, ground arith)
        ]

    pub retreat-IsSized : IsSized (retreat t)
    unfolding retreat
    retreat-IsSized =
        let (half, small, big) = limit-half in
        let below = sized.below in
        elim (Bool-cases ((t.p + u64_mod - 1) % u64_mod == u64_mod - 1)) [
          | inl back ↦ rw back (record {
            small = omega (arith, sized.small);
            limit = omega (arith, half);
            below = omega (arith, big);
            bins = ground (arith, sized.bins, half);
          })
          | inr stay ↦ rw stay (record {
            small = sized.small;
            limit = sized.limit;
            below = ground arith;
            bins = ground (arith, sized.bins);
          })
        ]

    pub retreat-last : ((retreat t).maxp ≡ last_limit t) × ((retreat t).p ≡ contract_target t)
    unfolding retreat contract_target
    retreat-last = let (half, small, big) = limit-half in let below = sized.below in ground arith
