-- ===== src/Mhook/Print.antt =====
-- The lines of the log as a print-out of their numbers.
use sri_glibc_malloc.Base.{
  ℕ, zero, suc, ◌+◌, ◌/◌, ◌%◌, ◌≡◌, refl, ap, ◌∙◌, inl, inr, List, [], ◌∷◌, ◌++◌, arith,
  bit_and-ones, ltb, bit_and, set, length, replicate, Bool-cases,
}
use mathlib.Core.List.{append-nil, append_assoc}
use sri_glibc_malloc.Mhook.{
  hex, zeros, store_loop, storehexstring, last_field, blank_line, log_line, ended,
}
use sri_glibc_malloc.Mhook.Char
use sri_glibc_malloc.Mhook.Event.{
  Event, malloc_event, free_event, calloc_event, realloc_event, init_event, exit_event, line_of,
  letter, operands,
}

-- A number in `n` hexadecimal digits, the highest first
unfoldable pub print_hex : ℕ → ℕ → List ℕ
print_hex zero val = []
print_hex (suc n) val = print_hex n (val / 16) ++ hex (val % 16) ∷ []

-- Each number stands behind " 0x".
abbrev pub field : ℕ → List ℕ
field val = Char.space ∷ Char.digit0 ∷ Char.x ∷ print_hex 16 val

abbrev pub fields : List ℕ → List ℕ
fields [] = []
fields (val ∷ vals) = field val ++ fields vals

-- The line without its end
unfoldable pub print_line : Event → List ℕ
print_line init_event = Char.i ∷ Char.space ∷ Char.digit0 ∷ Char.x ∷ Char.digit0 ∷ []
print_line exit_event = Char.e ∷ Char.space ∷ Char.digit0 ∷ Char.x ∷ Char.digit0 ∷ []
print_line e = letter e ∷ fields (operands e)

pub replicate-snoc : (n a : ℕ) (xs : List ℕ) → replicate n a ++ a ∷ xs ≡ a ∷ (replicate n a ++ xs)
unfolding replicate
replicate-snoc zero a xs = refl
replicate-snoc (suc n) a xs = ap (λ ys. a ∷ ys) (replicate-snoc n a xs)

-- The last digit of the zone is set.
set-zone :
    (post : List ℕ) (n v : ℕ)
    → set (replicate (suc n) Char.digit0 ++ post) n v ≡ replicate n Char.digit0 ++ v ∷ post
unfolding replicate
set-zone post zero v = refl
set-zone post (suc n) v = ap (λ ys. Char.digit0 ∷ ys) (set-zone post n v)

set-last :
    (pre post : List ℕ) (n v : ℕ)
    → set (pre ++ (replicate (suc n) Char.digit0 ++ post)) (length pre + n) v
      ≡ pre ++ (replicate n Char.digit0 ++ v ∷ post)
set-last [] post n v = let here : 0 + n ≡ n = omega arith in rw here (set-zone post n v)
set-last (x ∷ pre) post n v =
    let later : suc (length pre) + n ≡ suc (length pre + n) = omega arith in
    rw later (ap (λ ys. x ∷ ys) (set-last pre post n v))

print_hex-zero : (n : ℕ) → print_hex n 0 ≡ replicate n Char.digit0
unfolding print_hex replicate
print_hex-zero zero = refl
print_hex-zero (suc n) = rw (print_hex-zero n) (
    replicate-snoc n Char.digit0 []
    ∙ ap (λ ys. Char.digit0 ∷ ys) (append-nil (replicate n Char.digit0)))

mask : (val : ℕ) → bit_and val 15 ≡ val % 16
mask val = bit_and-ones 4 val

store_loop-print_hex :
    (n : ℕ) (pre post : List ℕ) (val : ℕ)
    → store_loop n (pre ++ (replicate n Char.digit0 ++ post)) (length pre) val
      ≡ pre ++ (print_hex n val ++ post)
unfolding store_loop print_hex
store_loop-print_hex zero pre post val = unfold replicate in refl
store_loop-print_hex (suc n) pre post val = elim (Bool-cases (ltb 0 val)) [
  | inl e ↦ rw (
    e,
    set-last pre post n (hex (bit_and val 15)),
    store_loop-print_hex n pre (hex (bit_and val 15) ∷ post) (val / 16),
    append_assoc,
    mask val,
  )
  | inr e ↦ let none : val ≡ 0 = ground arith in rw e (rw (none, print_hex-zero (suc n)))
]

storehexstring-print_hex :
    (pre post : List ℕ) (val : ℕ)
    → storehexstring (pre ++ (zeros ++ post)) (length pre) val ≡ pre ++ (print_hex 16 val ++ post)
unfolding storehexstring
storehexstring-print_hex pre post val = store_loop-print_hex 16 pre post val

-- One field after the other
module _ (a b c d : ℕ) where
  -- The buffer with the function's letter and the fields printed so far
  abbrev with0 : ℕ → List ℕ
  with0 func = set blank_line 0 func

  abbrev behind1 : List ℕ
  behind1 =
      Char.space
      ∷ Char.digit0
      ∷ Char.x
      ∷ (zeros
          ++ Char.space
            ∷ Char.digit0
            ∷ Char.x
            ∷ (zeros ++ Char.space ∷ Char.digit0 ∷ Char.x ∷ (zeros ++ last_field)))

  abbrev behind2 : List ℕ
  behind2 =
      Char.space
      ∷ Char.digit0
      ∷ Char.x
      ∷ (zeros ++ Char.space ∷ Char.digit0 ∷ Char.x ∷ (zeros ++ last_field))

  abbrev behind3 : List ℕ
  behind3 = Char.space ∷ Char.digit0 ∷ Char.x ∷ (zeros ++ last_field)

  stored1 : (func : ℕ) → storehexstring (with0 func) 4 a ≡ func ∷ (field a ++ behind1)
  unfolding print_hex replicate
  stored1 func = storehexstring-print_hex (func ∷ Char.space ∷ Char.digit0 ∷ Char.x ∷ []) behind1 a

  stored2 :
      (func : ℕ)
      → storehexstring (storehexstring (with0 func) 4 a) 23 b
        ≡ func ∷ (field a ++ (field b ++ behind2))
  unfolding print_hex replicate
  stored2 func =
      ap (λ buffer. storehexstring buffer 23 b) (stored1 func)
      ∙ storehexstring-print_hex (func ∷ (field a ++ Char.space ∷ Char.digit0 ∷ Char.x ∷ []))
          behind2 b

  stored3 :
      (func : ℕ)
      → storehexstring (storehexstring (storehexstring (with0 func) 4 a) 23 b) 42 c
        ≡ func ∷ (field a ++ (field b ++ (field c ++ behind3)))
  unfolding print_hex replicate
  stored3 func =
      ap (λ buffer. storehexstring buffer 42 c) (stored2 func)
      ∙ storehexstring-print_hex
          (func ∷ (field a ++ (field b ++ Char.space ∷ Char.digit0 ∷ Char.x ∷ []))) behind3 c

  stored4 :
      (func : ℕ)
      → storehexstring
          (storehexstring (storehexstring (storehexstring (with0 func) 4 a) 23 b) 42 c)
          61
          d
        ≡ func ∷ (field a ++ (field b ++ (field c ++ (field d ++ last_field))))
  unfolding print_hex replicate
  stored4 func =
      ap (λ buffer. storehexstring buffer 61 d) (stored3 func)
      ∙ storehexstring-print_hex
          (func ∷ (field a ++ (field b ++ (field c ++ Char.space ∷ Char.digit0 ∷ Char.x ∷ []))))
          last_field d

-- The bytes that `_writelogentry` stores into its buffer and writes are the letter of the function,
-- its numbers in the order of the trace format, each as " 0x" and sixteen hexadecimal digits, and
-- the end of the line. At the start and the end of a run they are the letter and " 0x0".
pub line_of-print_line : (e : Event) → line_of e ≡ print_line e ++ Char.newline ∷ []
unfolding log_line print_line print_hex replicate
line_of-print_line (malloc_event size result caller) =
    ap (λ buffer. ended (buffer, 58)) (stored3 size result caller 0 Char.m)
line_of-print_line (free_event p caller) =
    ap (λ buffer. ended (buffer, 39)) (stored2 p caller 0 0 Char.f)
line_of-print_line (calloc_event nemb size result caller) =
    ap (λ buffer. ended (buffer, 77)) (stored4 nemb size result caller Char.c)
line_of-print_line (realloc_event p size result caller) =
    ap (λ buffer. ended (buffer, 77)) (stored4 p size result caller Char.r)
line_of-print_line init_event = refl
line_of-print_line exit_event = refl
