-- ===== src/Lfht/Probe/Placed.antt =====
-- Tables in which every key stands where its walk ends: a new key moves no other.
use sri_glibc_malloc.Base.{
  ℕ, zero, suc, ◌+◌, ◌-◌, ◌^◌, ◌%◌, ◌≡◌, ◌≢◌, inl, inr, refl, sym, ◌∙◌, ap, bit_and, false, true,
  [], some, none, ◌∷◌, List, ◌==◌, arith, Bool-cases, ==_true, eq_of_some, Returns,
}
use sri_glibc_malloc.Utils.{jenkins_hash_ptr}
use sri_glibc_malloc.Lfht.{Entry, Hdr, is_assimilated}
use sri_glibc_malloc.Lfht.Probe.{Stop, vacant, present, around, walk, probe, put, value_at, find_in}
use sri_glibc_malloc.Lfht.Probe.Laws.{Ends, probe-Ends}
use sri_glibc_malloc.Lfht.Probe.Update.{
  new_entry, probe-present, probe-vacant, probe-put_same, written, walk-vacant,
}

-- Every key that is not marked as moved stands where its walk ends.
pub record IsPlaced (h : Hdr) : Type 0 where
  pub found :
      (i : ℕ)
      → (h.table i).key ≢ 0
      → is_assimilated (h.table i).key ≡ false
      → probe h (h.table i).key ≡ some (present i)

-- A walk that ends elsewhere does not meet the entry without a key that is written.
walk-elsewhere :
    (fuel : ℕ) (table : ℕ → Entry) (mask j i key s : ℕ) (e : Entry) (stop : Stop)
    → (table s).key ≡ 0
    → stop ≢ vacant s
    → walk fuel table mask j i key ≡ some stop
    → walk fuel (written table s e) mask j i key ≡ some stop
unfolding walk
walk-elsewhere zero table mask j i key s e stop empty other run = cc
walk-elsewhere (suc fuel) table mask j i key s e stop empty other run = elim (Bool-cases (s == i)) [
  | inl here ↦
      let free : ((table i).key == 0) ≡ true = rw (← ==_true s i here, empty) refl in
      let ended : some (vacant i) ≡ some stop = rw free at run in
      absurd (other (eq_of_some stop (vacant i) (sym ended) ∙ ap vacant (sym (==_true s i here))))
  | inr there ↦
      ground
        (arith, walk-elsewhere fuel table mask j (bit_and (i + 1) mask) key s e stop empty other)
]

apart : (n m : ℕ) → some (vacant n) ≢ some (present m)
apart n m e = cc

module _ (h : Hdr) (key val i : ℕ) (ends : probe h key ≡ some (vacant i)) where
  abbrev after : Hdr
  after = put h i (new_entry h [] key val)

  empty_there : (h.table i).key ≡ 0
  unfolding probe
  empty_there = walk-vacant h.max h.table (h.max - 1) _ _ key i ends

  probe-elsewhere :
      (k : ℕ) (stop : Stop) → stop ≢ vacant i → probe h k ≡ some stop → probe after k ≡ some stop
  unfolding probe put
  probe-elsewhere k stop other run =
      walk-elsewhere h.max h.table (h.max - 1) _ _ k i (new_entry h [] key val) stop empty_there
        other run

  key-here : (n : ℕ) → (i == n) ≡ true → (after.table n).key ≡ key
  unfolding put
  key-here n here = rw here refl

  entry-there : (n : ℕ) → (i == n) ≡ false → after.table n ≡ h.table n
  unfolding put
  entry-there n there = rw there refl

  size-after : after.max ≡ h.max
  unfolding put
  size-after = refl

  -- A new key leaves the others where their walks end.
  pub put_new-IsPlaced : key ≢ 0 → IsPlaced h → IsPlaced after
  put_new-IsPlaced nonzero is = record {
    found = λ n full live. elim (Bool-cases (i == n)) [
      | inl here ↦
          let placed = probe-vacant h [] key val i nonzero ends in
          let same = ==_true i n here in rw (key-here n here, placed, same)
      | inr there ↦
          let same = entry-there n there in
          let full' : (h.table n).key ≢ 0 = λ z. full (ap (λ x. x.key) same ∙ z) in
          let live' : is_assimilated (h.table n).key ≡ false =
            ap (λ x. is_assimilated x.key) (sym same) ∙ live in
          let run =
            probe-elsewhere (h.table n).key (present n) (λ x. cc) (is.found n full' live') in
          rw same run
    ];
  }

  module _ (e k : ℕ) (size : h.max ≡ 2 ^ e) (nonzero : k ≢ 0) (live : is_assimilated k ≡ false)
      (other : k ≢ key) (is : IsPlaced h) where
    value_after :
        (stop : Stop)
        → probe h k ≡ some stop
        → Returns (probe after k) (λ stop'. value_at after stop' ≡ value_at h stop)
    value_after (present n) run =
        let there : (i == n) ≡ false = elim (Bool-cases (i == n)) [
          | inl here ↦ absurd (
              nonzero (
                sym (probe-present h [] k val n run)
                ∙ ap (λ x. (h.table x).key) (sym (==_true i n here))
                ∙ empty_there))
          | inr there ↦ there
        ] in
        (present n, probe-elsewhere k (present n) (λ x. cc) run, rw (entry-there n there) refl)
    value_after around run = (around, probe-elsewhere k around (λ x. cc) run, refl)
    value_after (vacant n) run =
        let size' = size-after ∙ size in
        let (stop', run', end) = probe-Ends after e k size' in (stop', run', absent stop' end)
      where
        absent :
            (stop' : Stop)
            → Ends e after.table (jenkins_hash_ptr k % 2 ^ e) k stop'
            → value_at after stop' ≡ none
        absent (vacant m) end = refl
        absent around end = refl
        absent (present m) end = elim (Bool-cases (i == m)) [
          | inl here ↦ absurd (other (sym end ∙ key-here m here))
          | inr there ↦
              let same = ap (λ x. x.key) (sym (entry-there m there)) ∙ end in
              let stands : probe h (h.table m).key ≡ some (present m) =
                is.found m (λ z. nonzero (sym same ∙ z)) (ap is_assimilated same ∙ live) in
              absurd (apart n m (sym run ∙ rw same at stands))
        ]

    -- A new key, added where its walk ended, changes what `lfht_find` reads for no other key.
    pub find_in-put_new : (hs : List Hdr) → find_in (after ∷ hs) k ≡ find_in (h ∷ hs) k
    find_in-put_new hs =
        let (stop, run, end) = probe-Ends h e k size in
        let (stop', run', same) = value_after stop run in rw (run, run', same)

-- The count of a header is not read.
pub count-IsPlaced : (h : Hdr) (c : ℕ) → IsPlaced h → IsPlaced (record h { count = c })
unfolding probe
count-IsPlaced h c is = record { found = is.found }

keys-same :
    (h : Hdr) (e : Entry) (i n : ℕ)
    → (h.table i).key ≡ e.key
    → ((put h i e).table n).key ≡ (h.table n).key
unfolding put
keys-same h e i n same = ground arith

-- A write where the key was found keeps every key in its place.
pub put_same-IsPlaced :
    (h : Hdr) (key val i : ℕ)
    → probe h key ≡ some (present i)
    → IsPlaced h
    → IsPlaced (put h i (new_entry h [] key val))
put_same-IsPlaced h key val i here is =
    let there = probe-present h [] key val i here in
    record {
      found = λ n full live.
          let same = keys-same h (new_entry h [] key val) i n there in
          let stands = is.found n (λ z. full (same ∙ z)) (ap is_assimilated (sym same) ∙ live) in
          let walks = probe-put_same h [] key val i (h.table n).key there in
          rw same (walks ∙ stands);
    }
