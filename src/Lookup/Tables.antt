-- ===== src/Lookup/Tables.antt =====
-- Calls of lfht.c, with the table that they leave, while there is room.
use sri_glibc_malloc.Base.{
  ℕ, ◌+◌, ◌%◌, ◌≡◌, ◌≢◌, inl, inr, refl, sym, ◌∙◌, ap, false, true, Bool, Option, some, none, List,
  ◌==◌, ◌&&◌, not, ltb, if◌then◌else◌, arith, Bool-cases, ==_true, Returns, ◌⊎◌,
}
use sri_glibc_malloc.Utils.{Mmap, u32_mod}
use sri_glibc_malloc.Lfht.{Hdr, Lfht, is_assimilated}
use sri_glibc_malloc.Lfht.Probe.{lfht_add, lfht_remove}
use sri_glibc_malloc.Lfht.Probe.Steady.{
  IsSteady, found_of, StoredOr, lfht_add-StoredOr, lfht_remove-StoredOr,
}

-- A table of lfht.c that is not expanding
pub record Steady : Type 0 where
  pub exponent : ℕ
  pub table : Lfht
  pub header : Hdr
  pub behind : List Hdr
  pub is : IsSteady exponent header behind table

abbrev pub value_or_tombstone : Option (Option ℕ) → ℕ
value_or_tombstone none = 0
value_or_tombstone (some none) = 0
value_or_tombstone (some (some val)) = val

-- `lfht_find` takes a key that is not 0, and a key with a mark is in no table.
abbrev pub takes : ℕ → Bool
takes key = not (key == 0) && not (is_assimilated key)

takes_lem : (key : ℕ) → takes key ≡ true → (key ≢ 0) × (is_assimilated key ≡ false)
takes_lem key e = (λ z. ground (arith), ground (arith))

-- There is room for one key more.
abbrev pub fits : Hdr → Bool
fits h = not (ltb h.threshold ((h.count + 1) % u32_mod))

module _ (mmap : Mmap) where
  abbrev pub find : Steady → ℕ → ℕ
  find m key = if takes key then value_or_tombstone (found_of mmap m.table key) else 0

  -- The table after a call: what it has made, if it has returned true
  abbrev pub after_call :
      (m : Steady) (key val : ℕ) (Without : Type 0) (done : Bool) (ht' : Lfht)
      → StoredOr mmap m.exponent m.header m.behind m.table key val Without done ht'
      → Steady
  after_call m key val Without false ht' said = m
  after_call m key val Without true ht' (h', steady, stored, kept, grown) = record {
    exponent = m.exponent;
    table = ht';
    header = h';
    behind = m.behind;
    is = steady;
  }

  find-after_call :
      (m : Steady) (key val : ℕ) (Without : Type 0) (done : Bool) (ht' : Lfht)
      → (said : StoredOr mmap m.exponent m.header m.behind m.table key val Without done ht')
      → takes key ≡ true
      → done ≡ true
      → (j : ℕ)
      → find (after_call m key val Without done ht' said) j ≡ (if key == j then val else find m j)
  find-after_call m key val Without false ht' said good did j = cc
  find-after_call m key val Without true ht' (h', steady, (here, others), kept, grown) good did j =
      let made = after_call m key val Without true ht' (h', steady, (here, others), kept, grown) in
      elim (Bool-cases (key == j)) [
        | inl same ↦ rw same (ap (find made) (sym (==_true key j same)) ∙ rw (good, here) refl)
        | inr apart ↦ elim (Bool-cases (takes j)) [
          | inl taken ↦
              let (full, live) = takes_lem j taken in
              let same = others j full live (λ z. ground arith) in
              rw (apart, taken) (ap value_or_tombstone same)
          | inr missed ↦ rw (apart, missed) refl
        ]
      ]

  pub table-after_call :
      (m : Steady) (key val : ℕ) (Without : Type 0) (done : Bool) (ht' : Lfht)
      → (said : StoredOr mmap m.exponent m.header m.behind m.table key val Without done ht')
      → (after_call m key val Without done ht' said).table ≡ ht'
  table-after_call m key val Without false ht' (same, gone) = sym same
  table-after_call m key val Without true ht' said = refl

  -- `lfht_add`, where it takes the key and the value and has room, and else a refusal
  abbrev pub can_add : Steady → ℕ → ℕ → Bool
  can_add m key val = takes key && not (val == 0) && fits m.header

  pub can_add_lem :
      (m : Steady) (key val : ℕ)
      → can_add m key val ≡ true
      → (takes key ≡ true)
        × (val ≢ 0)
        × (ltb m.header.threshold ((m.header.count + 1) % u32_mod) ≡ false)
  can_add_lem m key val e = (ground arith, (λ z. ground arith), ground arith)

  pub added :
      (m : Steady) (key val : ℕ)
      → can_add m key val ≡ true
      → Returns (lfht_add mmap m.table key val) (λ r.
        (Without : Type 0) × StoredOr mmap m.exponent m.header m.behind m.table key val Without
          (r.0)
          (r.1))
  added m key val e =
      let (taken, kept, room) = can_add_lem m key val e in
      let (full, live) = takes_lem key taken in
      let (r, run, said) =
        lfht_add-StoredOr mmap m.exponent m.header m.behind m.table m.is key full live val kept
          room in
      (r, run, (_, said))

  pub removed :
      (m : Steady) (key : ℕ)
      → takes key ≡ true
      → Returns (lfht_remove mmap m.table key) (λ r.
        (Without : Type 0) × StoredOr mmap m.exponent m.header m.behind m.table key 0 Without
          (r.0)
          (r.1))
  removed m key e =
      let (full, live) = takes_lem key e in
      let (r, run, said) =
        lfht_remove-StoredOr mmap m.exponent m.header m.behind m.table m.is key full live in
      (r, run, (_, said))

  abbrev pub add_if :
      (m : Steady) (key val : ℕ)
      → (can_add m key val ≡ true) ⊎ (can_add m key val ≡ false)
      → Bool × Steady
  add_if m key val (inl can) =
      let (r, run, (Without, said)) = added m key val can in
      (r.0, after_call m key val Without (r.0) (r.1) said)
  add_if m key val (inr cannot) = (false, m)

  abbrev pub remove_if :
      (m : Steady) (key : ℕ) → (takes key ≡ true) ⊎ (takes key ≡ false) → Bool × Steady
  remove_if m key (inl can) =
      let (r, run, (Without, said)) = removed m key can in
      (r.0, after_call m key 0 Without (r.0) (r.1) said)
  remove_if m key (inr cannot) = (false, m)

  pub find-add_if :
      (m : Steady) (key val : ℕ) (d : (can_add m key val ≡ true) ⊎ (can_add m key val ≡ false))
      → (j : ℕ) → (add_if m key val d).0 ≡ true
      → find (add_if m key val d).1 j ≡ (if key == j then val else find m j)
  find-add_if m key val (inl can) j did =
      let (r, run, (Without, said)) = added m key val can in
      let (taken, kept, room) = can_add_lem m key val can in
      find-after_call m key val Without (r.0) (r.1) said taken did j
  find-add_if m key val (inr cannot) j did = cc

  pub find-remove_if :
      (m : Steady) (key : ℕ) (d : (takes key ≡ true) ⊎ (takes key ≡ false))
      → (j : ℕ) → (remove_if m key d).0 ≡ true
      → find (remove_if m key d).1 j ≡ (if key == j then 0 else find m j)
  find-remove_if m key (inl can) j did =
      let (r, run, (Without, said)) = removed m key can in
      find-after_call m key 0 Without (r.0) (r.1) said can did j
  find-remove_if m key (inr cannot) j did = cc
