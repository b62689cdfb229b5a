-- ===== src/Lfht/Probe/Commands.antt =====
-- A client's calls of lfht.c while the table has room.
use sri_glibc_malloc.Base.{
  ℕ, suc, ◌+◌, ◌%◌, ◌^◌, ◌≤◌, ◌<◌, ◌≡◌, ◌≢◌, inl, inr, refl, ◌∙◌, false, true, Bool, [], Option,
  some, none, ◌∷◌, List, ◌==◌, ◌&&◌, ltb, if◌then◌else◌, arith, Bool-cases, ==_true, ◌>>=◌, Returns,
  length,
}
use native.Mathlib.Nat.{mod-eq_of_lt}
use sri_glibc_malloc.Utils.{Mmap, u32_mod}
use sri_glibc_malloc.Lfht.{Hdr, Lfht, is_assimilated, tombstone, threshold_of, init_lfht}
use sri_glibc_malloc.Lfht.Probe.{lfht_add, lfht_remove}
use sri_glibc_malloc.Lfht.Probe.Steady.{
  IsSteady, found_of, StoredOr, lfht_add-StoredOr, lfht_remove-StoredOr,
}
use sri_glibc_malloc.Lfht.Probe.Fresh.{SteadyOr, init_lfht-SteadyOr}

pub data Command : Type 0 where
  add : ℕ → ℕ → Command
  remove : ℕ → Command

abbrev key_of : Command → ℕ
key_of (add key val) = key
key_of (remove key) = key

-- The value that the command stores
abbrev value_of : Command → ℕ
value_of (add key val) = val
value_of (remove key) = tombstone

abbrev run_command : Mmap → Lfht → Command → Option (Bool × Lfht)
run_command mmap ht (add key val) = lfht_add mmap ht key val
run_command mmap ht (remove key) = lfht_remove mmap ht key

-- The results of the calls, and the table after them
abbrev pub run_commands : Mmap → Lfht → List Command → Option (List Bool × Lfht)
run_commands mmap ht [] = some ([], ht)
run_commands mmap ht (c ∷ cs) = do
  r ← run_command mmap ht c
  s ← run_commands mmap r.1 cs
  some (r.0 ∷ s.0, s.1)

-- A key is not 0 and not marked, and a value that is added is not `TOMBSTONE`.
abbrev IsGood : Command → Type 0
IsGood (add key val) = (key ≢ 0) × (is_assimilated key ≡ false) × (val ≢ tombstone)
IsGood (remove key) = (key ≢ 0) × (is_assimilated key ≡ false)

abbrev pub AreGood : List Command → Type 0
AreGood [] = Unit {0}
AreGood (c ∷ cs) = IsGood c × AreGood cs

abbrev told : ℕ → Command → Bool → Option ℕ → Option ℕ
told k c done v = if done && k == key_of c then some (value_of c) else v

-- The value of the key after commands with these results, when it was `v` before them: that of the
-- last command on the key that returned true.
abbrev pub last_value : ℕ → List Command → List Bool → Option ℕ → Option ℕ
last_value k [] results v = v
last_value k (c ∷ cs) [] v = v
last_value k (c ∷ cs) (done ∷ results) v = last_value k cs results (told k c done v)

module _ (mmap : Mmap) (e : ℕ) (hs : List Hdr) where
  told-Stored :
      (h : Hdr) (ht : Lfht) (c : Command) (done : Bool) (ht' : Lfht) (Without : Type 0)
      → StoredOr mmap e h hs ht (key_of c) (value_of c) Without done ht'
      → (k : ℕ) → k ≢ 0
      → is_assimilated k ≡ false
      → (v : Option ℕ) → found_of mmap ht k ≡ some v
      → found_of mmap ht' k ≡ some (told k c done v)
  told-Stored h ht c false ht' Without said k full good v found = rw (said.0) found
  told-Stored h ht c true ht' Without (h', steady, (here, others), kept, grown) k full good v
        found =
      elim (Bool-cases (k == key_of c)) [
        | inl same ↦ rw (same, ==_true _ _ same) here
        | inr other ↦ rw other (others k full good (λ z. ground arith) ∙ found)
      ]

  run_command-StoredOr :
      (h : Hdr) (ht : Lfht) (c : Command)
      → IsSteady e h hs ht
      → IsGood c
      → h.count + 1 ≤ h.threshold
      → h.threshold < u32_mod
      → Returns (run_command mmap ht c) (λ r.
        (Without : Type 0) × StoredOr mmap e h hs ht (key_of c) (value_of c) Without (r.0) (r.1))
  run_command-StoredOr h ht (add key val) is (full, good, kept) room small =
      let count : (h.count + 1) % u32_mod ≡ h.count + 1 = mod-eq_of_lt (omega arith) in
      let below : ltb h.threshold ((h.count + 1) % u32_mod) ≡ false = rw count (ground arith) in
      let (r, run, said) = lfht_add-StoredOr mmap e h hs ht is key full good val kept below in
      (r, run, (_, said))
  run_command-StoredOr h ht (remove key) is (full, good) room small =
      let (r, run, said) = lfht_remove-StoredOr mmap e h hs ht is key full good in
      (r, run, (_, said))

  abbrev Told : Lfht → List Command → List Bool → Lfht → Type 0
  Told ht cs results ht' =
      (k : ℕ)
      → k ≢ 0
      → is_assimilated k ≡ false
      → (v : Option ℕ) → found_of mmap ht k ≡ some v
      → found_of mmap ht' k ≡ some (last_value k cs results v)

  -- With the result of one command the header and the room for the others are found.
  IsSteady-after :
      (h : Hdr) (ht : Lfht) (n : ℕ) (key val : ℕ) (Without : Type 0) (done : Bool) (ht' : Lfht)
      → IsSteady e h hs ht
      → h.count + suc n ≤ h.threshold
      → h.threshold < u32_mod
      → StoredOr mmap e h hs ht key val Without done ht'
      → (h' : Hdr) × IsSteady e h' hs ht' × (h'.count + n ≤ h'.threshold) × (h'.threshold < u32_mod)
  IsSteady-after h ht n key val Without false ht' is room small (same, gone) =
      (h, rw same is, omega arith, small)
  IsSteady-after h ht n key val Without true ht' is room small (h', steady, stored, kept, grown) =
      (h', steady, omega (arith, kept, grown), rw kept small)

  run_commands-Told :
      (cs : List Command) (h : Hdr) (ht : Lfht)
      → IsSteady e h hs ht
      → AreGood cs
      → h.count + length cs ≤ h.threshold
      → h.threshold < u32_mod
      → Returns (run_commands mmap ht cs) (λ r. Told ht cs (r.0) (r.1))
  run_commands-Told [] h ht is good room small = (([], ht), refl, λ k full live v found. found)
  run_commands-Told (c ∷ cs) h ht is (one, good) room small =
      let (r, run, (Without, said)) = run_command-StoredOr h ht c is one (omega arith) small in
      let (h', steady, room', small') =
        IsSteady-after h ht (length cs) (key_of c) (value_of c) Without (r.0) (r.1) is room small
          said in
      let (s, runs, rest) = run_commands-Told cs h' (r.1) steady good room' small' in
      (
        (r.0 ∷ s.0, s.1),
        rw (run, runs) refl,
        λ k full live v found.
            rest k full live _ (told-Stored h ht c (r.0) (r.1) Without said k full live v found),
      )

threshold-below : (max : ℕ) → max < u32_mod → threshold_of max < u32_mod
unfolding threshold_of
threshold-below max small = omega arith

-- `length cs` commands and no more find room in a table without keys.
steady-Told :
    (mmap mmap' : Mmap) (e : ℕ) (ht : Lfht) (cs : List Command) (done : Bool) (ht' : Lfht)
    → done ≡ true
    → AreGood cs
    → length cs ≤ threshold_of (2 ^ e)
    → 2 ^ e < u32_mod
    → SteadyOr mmap e ht done ht'
    → Returns (run_commands mmap' ht' cs) (λ r.
      (k : ℕ)
      → k ≢ 0
      → is_assimilated k ≡ false
      → found_of mmap' (r.1) k ≡ some (last_value k cs (r.0) none))
steady-Told mmap mmap' e ht cs false ht' made good room small is = cc
steady-Told mmap mmap' e ht cs true ht' made good room small (h, steady, nothing, limit, none_yet) =
    let below = threshold-below (2 ^ e) small in
    let (r, run, rest) =
      run_commands-Told mmap' e [] cs h ht' steady good (omega (arith, limit, none_yet, room))
        (rw limit below) in
    (r, run, λ k full live. rest k full live none (nothing mmap' k full))

-- Where `init_lfht` has returned true for 2 ^ e entries, e < 32, any calls of `lfht_add` and
-- `lfht_remove` return, if they are at most the threshold of such a table, their keys are not 0 and
-- not marked, and the values that they add are not `TOMBSTONE`. After them `lfht_find` returns, for
-- every key that is not 0 and not marked, the value of the last call on the key that returned true,
-- `TOMBSTONE` if that was a removal, and finds nothing if there was none.
pub run_commands-init_lfht :
    (mmap mmap' : Mmap) (e : ℕ) (ht : Lfht) (cs : List Command)
    → (init_lfht mmap ht (2 ^ e)).0 ≡ true
    → AreGood cs
    → length cs ≤ threshold_of (2 ^ e)
    → 2 ^ e < u32_mod
    → Returns (run_commands mmap' ((init_lfht mmap ht (2 ^ e)).1) cs) (λ r.
      (k : ℕ)
      → k ≢ 0
      → is_assimilated k ≡ false
      → found_of mmap' (r.1) k ≡ some (last_value k cs (r.0) none))
run_commands-init_lfht mmap mmap' e ht cs made good room small =
    steady-Told mmap mmap' e ht cs _ _ made good room small (init_lfht-SteadyOr mmap e ht)
