-- ===== src/Replay/RoundTrip.antt =====
-- What mhook.c logs, replaylib.c reads.
use sri_glibc_malloc.Base.{
  ℕ, ◌-◌, ◌≡◌, refl, ap, ◌∙◌, Bool, true, false, ◌&&◌, ◌||◌, some, List, [], ◌∷◌, ◌++◌, arith, ltb,
  leb, ◌==◌, get_or, drop, length, replicate, All,
}
use mathlib.Core.List.{append_assoc}
use sri_glibc_malloc.Mhook.Char
use sri_glibc_malloc.Mhook.Event.{
  Event, malloc_event, free_event, calloc_event, realloc_event, init_event, exit_event, operands,
  line_of,
}
use sri_glibc_malloc.Mhook.Print.{print_hex, fields, print_line, line_of-print_line, replicate-snoc}
use sri_glibc_malloc.Replay.{
  is_alnum, buffersz, terminated, no_space, dirtywork, dirtywork_loop, readline,
}
use sri_glibc_malloc.Replay.Parse.{hex-good, fits, clipped, dirtywork_loop-fields}
use sri_glibc_malloc.Replay.Lines.{
  IsBuffer, terminated-IsBuffer, page, page-IsBuffer, readline-line, print_line-All, short, linelen,
}
use sri_glibc_malloc.Replay.Handlers.{operands_of}

abbrev pub is_call : Event → Bool
is_call init_event = false
is_call exit_event = false
is_call e = true

pub page_of-IsBuffer : (e : Event) → IsBuffer (page (print_line e))
page_of-IsBuffer e = page-IsBuffer (print_line e) (omega (arith, short e))

-- The line of a call ends with a digit, at the length that the handler expects, and has zeros
-- behind.
ends_there :
    (e : Event)
    → is_call e ≡ true
    → (get_or (page (print_line e)) (linelen e) 1 == 0
        && is_alnum (get_or (page (print_line e)) (linelen e - 1) 0))
      ≡ true
unfolding print_line print_hex replicate
ends_there (malloc_event size result caller) h = ground (arith, hex-good caller)
ends_there (free_event p caller) h = ground (arith, hex-good caller)
ends_there (calloc_event nemb size result caller) h = ground (arith, hex-good caller)
ends_there (realloc_event p size result caller) h = ground (arith, hex-good caller)
ends_there init_event h = absurd (ground (arith, h))
ends_there exit_event h = absurd (ground (arith, h))

module _ (buffer : List ℕ) (is : terminated buffer ≡ true) (spaced : no_space buffer ≡ false) where
  dirtywork-loop :
      (len : ℕ)
      → (leb buffersz len || ltb len 1) ≡ false
      → dirtywork len buffer ≡ dirtywork_loop len (drop 2 buffer)
  unfolding dirtywork
  dirtywork-loop len fine = rw (spaced, fine, is)

  operands_of-loop :
      (n len : ℕ)
      → (leb buffersz len || ltb len 1) ≡ false
      → (get_or buffer n 1 == 0 && is_alnum (get_or buffer (n - 1) 0)) ≡ true
      → operands_of n len buffer ≡ dirtywork_loop len (drop 2 buffer)
  unfolding operands_of
  operands_of-loop n len fine ends = rw (spaced, is, ends) (dirtywork-loop len fine)

-- The page of a line of fields: there are zeros behind it.
page-fields :
    (f : ℕ) (vs : List ℕ) → (pad : List ℕ) × (page (f ∷ fields vs) ≡ f ∷ (fields vs ++ 0 ∷ pad))
page-fields f vs =
    let n = buffersz - length (f ∷ fields vs) in
    (replicate n 0 ++ [], ap (λ x. f ∷ (fields vs ++ x)) (replicate-snoc n 0 []))

spaced_page : (f v : ℕ) (vs : List ℕ) → no_space (page (f ∷ fields (v ∷ vs))) ≡ false
spaced_page f v vs = refl

numbers_of :
    (e : Event) (f v : ℕ) (vs : List ℕ)
    → print_line e ≡ f ∷ fields (v ∷ vs)
    → is_call e ≡ true
    → (leb buffersz (length (v ∷ vs)) || ltb (length (v ∷ vs)) 1) ≡ false
    → All fits (v ∷ vs)
    → operands_of (linelen e) (length (v ∷ vs)) (page (print_line e))
      ≡ some (some (clipped (v ∷ vs)))
numbers_of e f v vs line call few a =
    let (pad, whole) = page-fields f (v ∷ vs) in
    let at : page (print_line e) ≡ f ∷ (fields (v ∷ vs) ++ 0 ∷ pad) = ap page line ∙ whole in
    let spaced : no_space (page (print_line e)) ≡ false = ap (λ l. no_space (page l)) line in
    operands_of-loop (page (print_line e))
      (terminated-IsBuffer (page (print_line e)) (page_of-IsBuffer e)) spaced (linelen e)
      (length (v ∷ vs)) few (ends_there e call)
    ∙ (ap (λ buffer. dirtywork_loop (length (v ∷ vs)) (drop 2 buffer)) at
        ∙ dirtywork_loop-fields (v ∷ vs) pad a)

pub numbers :
    (e : Event)
    → is_call e ≡ true
    → All fits (operands e)
    → operands_of (linelen e) (length (operands e)) (page (print_line e))
      ≡ some (some (clipped (operands e)))
unfolding print_line
numbers (malloc_event size result caller) h a =
    numbers_of (malloc_event size result caller) Char.m size (result ∷ caller ∷ []) refl h refl a
numbers (free_event p caller) h a =
    numbers_of (free_event p caller) Char.f p (caller ∷ []) refl h refl a
numbers (calloc_event nemb size result caller) h a =
    numbers_of (calloc_event nemb size result caller) Char.c nemb (size ∷ result ∷ caller ∷ []) refl
      h refl a
numbers (realloc_event p size result caller) h a =
    numbers_of (realloc_event p size result caller) Char.r p (size ∷ result ∷ caller ∷ []) refl h
      refl a
numbers init_event h a = absurd (ground (arith, h))
numbers exit_event h a = absurd (ground (arith, h))

-- The replay reads a line that the hook has written whole, into a buffer that ends in 0. If the
-- line is that of a call with numbers below 2 ^ 64, its handler passes its assertions and reads the
-- numbers of the call, in their order, each clipped to 2 ^ 63 - 1.
pub operands_of-line_of :
    (e : Event) (fp buffer : List ℕ)
    → is_call e ≡ true
    → All fits (operands e)
    → IsBuffer buffer
    → (readline (line_of e ++ fp) buffer ≡ some (true, page (print_line e), fp))
      × (operands_of (linelen e) (length (operands e)) (page (print_line e))
          ≡ some (some (clipped (operands e))))
operands_of-line_of e fp buffer call a is = (
  ap (λ x. readline (x ++ fp) buffer) (line_of-print_line e)
      ∙ (ap (λ x. readline x buffer) (append_assoc (print_line e) (Char.newline ∷ []) fp)
          ∙ readline-line (print_line e) fp buffer (print_line-All e) (short e) is),
  numbers e call a,
)
