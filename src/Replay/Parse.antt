-- ===== src/Replay/Parse.antt =====
-- The numbers that are read are those that were logged.
use sri_glibc_malloc.Base.{
  ℕ, zero, suc, ◌+◌, ◌*◌, ◌/◌, ◌%◌, ◌^◌, ◌<◌, ◌≡◌, refl, ◌∙◌, Bool, true, false, ◌&&◌, ◌||◌, some,
  inl, inr, List, [], ◌∷◌, ◌++◌, arith, ltb, ◌==◌, min, get_or, drop, length, Bool-cases, All,
}
use native.Mathlib.Nat.{pow-suc}
use mathlib.Core.List.{append_assoc}
use sri_glibc_malloc.Mhook.{hex}
use sri_glibc_malloc.Mhook.Char
use sri_glibc_malloc.Mhook.Print.{print_hex, fields}
use sri_glibc_malloc.Replay.{
  is_alnum, is_hex, hex_value, scan_hex, scan_number, llong_max, strtoll, dirtywork_loop,
}

-- A test of the sixteen digits
abbrev all_below : ℕ → (ℕ → Bool) → Bool
all_below zero p = true
all_below (suc n) p = p n && all_below n p

all_below-true : (n : ℕ) (p : ℕ → Bool) → all_below n p ≡ true → (d : ℕ) → d < n → p d ≡ true
all_below-true zero p all d h = absurd (omega arith)
all_below-true (suc n) p all d h = elim (Bool-cases (d == n)) [
  | inl e ↦ let same : d ≡ n = ground arith in rw same (ground arith)
  | inr e ↦ all_below-true n p (ground arith) d (ground arith)
]

abbrev good_digit : ℕ → Bool
good_digit d = is_hex (hex d) && (hex_value (hex d) == d && is_alnum (hex d))

pub hex-good : (v : ℕ) → good_digit (v % 16) ≡ true
hex-good v = all_below-true 16 good_digit refl (v % 16) (omega arith)

hex-is_hex : (v : ℕ) → is_hex (hex (v % 16)) ≡ true
hex-is_hex v = ground (arith, hex-good v)

hex_value-hex : (v : ℕ) → hex_value (hex (v % 16)) ≡ v % 16
hex_value-hex v = ground (arith, hex-good v)

scan_hex-print_hex :
    (n k v : ℕ) (cs : List ℕ)
    → v < 16 ^ k
    → scan_hex 0 n (print_hex k v ++ cs) ≡ scan_hex v (n + k) cs
unfolding print_hex
scan_hex-print_hex n zero v cs h =
    let z : v ≡ 0 = omega arith in let e : n + 0 ≡ n = omega arith in rw (z, e)
scan_hex-print_hex n (suc k) v cs h =
    let later = scan_hex-print_hex n k (v / 16) (hex (v % 16) ∷ cs) (omega (arith, pow-suc 16 k)) in
    let number : v / 16 * 16 + v % 16 ≡ v = omega arith in
    let place : n + k + 1 ≡ n + suc k = omega arith in
    rw append_assoc (later ∙ unfold scan_hex in rw (hex-is_hex v, hex_value-hex v, number, place))

first_digit : (k v : ℕ) (cs : List ℕ) → is_hex (get_or (print_hex (suc k) v ++ cs) 0 0) ≡ true
unfolding print_hex
first_digit zero v cs = hex-is_hex v
first_digit (suc k) v cs = rw append_assoc (first_digit k (v / 16) (hex (v % 16) ∷ cs))

-- A number behind which no digit stands: its digits are read, all of them, and its value is
-- clipped.
strtoll-print_hex :
    (v c : ℕ) (rest : List ℕ)
    → v < 2 ^ 64
    → is_hex c ≡ false
    → strtoll (Char.digit0 ∷ Char.x ∷ (print_hex 16 v ++ c ∷ rest)) ≡ (min v llong_max, 18)
unfolding strtoll scan_number
strtoll-print_hex v c rest h e =
    let digits = scan_hex-print_hex 2 16 v (c ∷ rest) h in
    let end : scan_hex v 18 (c ∷ rest) ≡ (v, 18) = unfold scan_hex in rw e in
    rw (first_digit 15 v (c ∷ rest), digits, end)

beyond :
    (v c : ℕ) (rest : List ℕ)
    → (get_or (Char.digit0 ∷ Char.x ∷ (print_hex 16 v ++ c ∷ rest)) 18 0 ≡ c)
      × (drop 19 (Char.digit0 ∷ Char.x ∷ (print_hex 16 v ++ c ∷ rest)) ≡ rest)
unfolding print_hex
beyond v c rest = (refl, refl)

-- What the replay takes a logged number for
abbrev pub clip : ℕ → ℕ
clip v = min v llong_max

abbrev pub clipped : List ℕ → List ℕ
clipped [] = []
clipped (v ∷ vs) = clip v ∷ clipped vs

abbrev pub fits : ℕ → Bool
fits v = ltb v (2 ^ 64)

one_read :
    (n v c : ℕ) (rest addresses : List ℕ)
    → v < 2 ^ 64
    → is_hex c ≡ false
    → (c == Char.space || c == 0) ≡ true
    → dirtywork_loop n rest ≡ some (some addresses)
    → dirtywork_loop (suc n) (Char.digit0 ∷ Char.x ∷ (print_hex 16 v ++ c ∷ rest))
      ≡ some (some (clip v ∷ addresses))
unfolding dirtywork_loop
one_read n v c rest addresses h e ends later =
    let (at, behind_it) = beyond v c rest in
    rw (strtoll-print_hex v c rest h e, at, behind_it, ends, later)

pub dirtywork_loop-fields :
    (vs pad : List ℕ)
    → All fits vs
    → dirtywork_loop (length vs) (drop 1 (fields vs ++ 0 ∷ pad)) ≡ some (some (clipped vs))
dirtywork_loop-fields [] pad a = unfold dirtywork_loop in refl
dirtywork_loop-fields (v ∷ []) pad (h, a) =
    rw append_assoc
      (one_read 0 v 0 pad [] (ground arith) refl refl (dirtywork_loop-fields [] pad a))
dirtywork_loop-fields (v ∷ w ∷ vs) pad (h, a) = rw append_assoc (
    one_read (suc (length vs)) v Char.space (drop 1 (fields (w ∷ vs) ++ 0 ∷ pad)) (clipped (w ∷ vs))
      (ground arith) refl refl (dirtywork_loop-fields (w ∷ vs) pad a))
