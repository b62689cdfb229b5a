-- ===== src/Lfht/Probe/Laws.antt =====
-- The walk of the table: it ends, and where.
use sri_glibc_malloc.Base.{
  ℕ, zero, suc, ◌+◌, ◌-◌, ◌%◌, ◌^◌, ◌<◌, ◌≤◌, ◌≡◌, ◌≢◌, inl, inr, sym, ap, ◌∙◌, bit_and, false,
  ◌==◌, arith, Bool-cases, ==_true, Returns, bit_and-ones, two_pow-pos,
}
use native.Mathlib.Nat.{mod-lt, mod-eq_of_lt, mod-add-mod, mod-eq-sub-mod}
use mathlib.Core.Path.{subst}
use native.Mathlib.Decide.{dec_lt}
use sri_glibc_malloc.Utils.{jenkins_hash_ptr}
use sri_glibc_malloc.Lfht.{Entry, Hdr}
use sri_glibc_malloc.Lfht.Probe.{Stop, vacant, present, around, walk, probe}

-- The entries that a walk from `j` meets, in order
abbrev pub met : ℕ → ℕ → ℕ → ℕ
met k j m = (j + m) % 2 ^ k

-- What the end of a walk says of the table of 2 ^ k entries
abbrev pub Ends : ℕ → (ℕ → Entry) → ℕ → ℕ → Stop → Type 0
Ends k table j key (vacant i) = (table i).key ≡ 0
Ends k table j key (present i) = (table i).key ≡ key
Ends k table j key around =
    (m : ℕ) → m < 2 ^ k → ((table (met k j m)).key ≢ 0) × ((table (met k j m)).key ≢ key)

module _ (k : ℕ) (table : ℕ → Entry) (j key : ℕ) (below : j < 2 ^ k) where
  met-suc : (n : ℕ) → bit_and (met k j n + 1) (2 ^ k - 1) ≡ met k j (n + 1)
  met-suc n =
      bit_and-ones k (met k j n + 1)
      ∙ mod-add-mod (j + n) (2 ^ k) 1
      ∙ ap (λ (x : ℕ). x % 2 ^ k) (omega arith)

  met-full : (n : ℕ) → n ≤ 2 ^ k → 0 < n → met k j n ≡ j → n ≡ 2 ^ k
  met-full n h pos e = elim (dec_lt (j + n) (2 ^ k)) [
    | yes low ↦ absurd (omega (arith, sym (mod-eq_of_lt low) ∙ e))
    | no high ↦
        let wrapped : met k j n ≡ j + n - 2 ^ k =
          mod-eq-sub-mod (omega arith) ∙ mod-eq_of_lt (omega arith) in
        omega (arith, sym wrapped ∙ e)
  ]

  met-all : met k j (2 ^ k) ≡ j
  met-all =
      mod-eq-sub-mod (omega arith) ∙ ap (λ (x : ℕ). x % 2 ^ k) (omega arith) ∙ mod-eq_of_lt below

  abbrev Seen : ℕ → Type 0
  Seen n = (m : ℕ) → m < n → ((table (met k j m)).key ≢ 0) × ((table (met k j m)).key ≢ key)

  Seen-suc :
      (n : ℕ)
      → Seen n
      → ((table (met k j n)).key == 0) ≡ false
      → ((table (met k j n)).key == key) ≡ false
      → Seen (n + 1)
  Seen-suc n seen full other m h = elim (dec_lt m n) [
    | yes early ↦ seen m early
    | no late ↦ let last : n ≡ m = omega arith in ap_to m last
  ]
    where
      ap_to : (m : ℕ) → n ≡ m → ((table (met k j m)).key ≢ 0) × ((table (met k j m)).key ≢ key)
      ap_to m last = rw (← last) ((λ e. ground arith), (λ e. ground arith))

  -- With `n` entries met, and none of them an end, the fuel that is left is enough.
  walk-Ends :
      (fuel n : ℕ)
      → n + fuel ≡ 2 ^ k
      → 0 < fuel
      → Seen n
      → Returns (walk fuel table (2 ^ k - 1) j (met k j n) key) (Ends k table j key)
  unfolding walk
  walk-Ends zero n e pos seen = absurd (omega arith)
  walk-Ends (suc fuel) n e pos seen = elim (Bool-cases ((table (met k j n)).key == 0)) [
    | inl empty ↦ (vacant (met k j n), rw empty, ==_true _ _ empty)
    | inr full ↦ elim (Bool-cases ((table (met k j n)).key == key)) [
      | inl here ↦ (present (met k j n), rw (full, here), ==_true _ _ here)
      | inr other ↦
          let all = Seen-suc n seen full other in
          elim (Bool-cases (met k j (n + 1) == j)) [
            | inl wrap ↦
                let whole : n + 1 ≡ 2 ^ k =
                  met-full (n + 1) (omega arith) (omega arith) (==_true _ _ wrap) in
                (around, rw (full, other, met-suc n, wrap), λ m h. all m (omega arith))
            | inr on ↦
                let left : 0 < fuel = elim (dec_lt 0 fuel) [
                  | yes h ↦ h
                  | no h ↦
                      let last : n + 1 ≡ 2 ^ k = omega arith in
                      absurd (ground (arith, ap (met k j) last ∙ met-all))
                ] in
                let (stop, run, end) = walk-Ends fuel (n + 1) (omega arith) left all in
                (stop, rw (full, other, met-suc n, on) run, end)
          ]
    ]
  ]

  walk-start : Returns (walk (2 ^ k) table (2 ^ k - 1) j j key) (Ends k table j key)
  walk-start =
      let start : met k j 0 ≡ j = ap (λ (x : ℕ). x % 2 ^ k) (omega arith) ∙ mod-eq_of_lt below in
      subst (λ i. Returns (walk (2 ^ k) table (2 ^ k - 1) j i key) (Ends k table j key)) start
        (walk-Ends (2 ^ k) 0 (omega arith) (two_pow-pos k) (λ m h. elim h [ ]))

-- In a table of 2 ^ k entries the walk for a key ends within as many steps: at an entry without a
-- key, at the key, or, when it has come around, with every entry that it met taken by another key.
pub probe-Ends :
    (h : Hdr) (k key : ℕ)
    → h.max ≡ 2 ^ k
    → Returns (probe h key) (Ends k h.table (jenkins_hash_ptr key % 2 ^ k) key)
unfolding probe
probe-Ends h k key e =
    let below = mod-lt (jenkins_hash_ptr key) (two_pow-pos k) in
    rw (e, bit_and-ones k (jenkins_hash_ptr key))
      (walk-start k h.table (jenkins_hash_ptr key % 2 ^ k) key below)
