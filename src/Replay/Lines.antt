-- ===== src/Replay/Lines.antt =====
-- A line of the log that is read fills the buffer, and its numbers are read from there.
use sri_glibc_malloc.Base.{
  ℕ, zero, suc, ◌+◌, ◌-◌, ◌/◌, ◌%◌, ◌≤◌, ◌<◌, ◌≡◌, refl, ap, ◌∙◌, Bool, true, false, not, ◌&&◌,
  ◌||◌, some, List, [], ◌∷◌, ◌++◌, arith, ◌==◌, get_or, set, drop, length, replicate, All,
  All-append,
}
use mathlib.Core.List.{append_assoc}
use sri_glibc_malloc.Mhook.{hex, malloc_len, free_len, calloc_len, realloc_len}
use sri_glibc_malloc.Mhook.Char
use sri_glibc_malloc.Mhook.Event.{
  Event, malloc_event, free_event, calloc_event, realloc_event, init_event, exit_event,
}
use sri_glibc_malloc.Mhook.Print.{print_hex, field, fields, print_line}
use sri_glibc_malloc.Replay.{is_alnum, buffersz, terminated, read_loop, readline}
use sri_glibc_malloc.Replay.Parse.{hex-good}

abbrev pub is_line_char : ℕ → Bool
is_line_char c = is_alnum c || c == Char.space

print_hex-All : (k v : ℕ) → All is_line_char (print_hex k v)
unfolding print_hex
print_hex-All zero v = tt
print_hex-All (suc k) v =
    All-append is_line_char (print_hex k (v / 16)) (hex (v % 16) ∷ []) (print_hex-All k (v / 16))
      (ground (arith, hex-good v), tt)

fields-All : (vs : List ℕ) → All is_line_char (fields vs)
fields-All [] = tt
fields-All (v ∷ vs) =
    All-append is_line_char (field v) (fields vs) (refl, (refl, (refl, print_hex-All 16 v)))
      (fields-All vs)

pub print_line-All : (e : Event) → All is_line_char (print_line e)
unfolding print_line
print_line-All (malloc_event size result caller) = (refl, fields-All (size ∷ result ∷ caller ∷ []))
print_line-All (free_event p caller) = (refl, fields-All (p ∷ caller ∷ []))
print_line-All (calloc_event nemb size result caller) =
    (refl, fields-All (nemb ∷ size ∷ result ∷ caller ∷ []))
print_line-All (realloc_event p size result caller) =
    (refl, fields-All (p ∷ size ∷ result ∷ caller ∷ []))
print_line-All init_event = (refl, (refl, (refl, (refl, (refl, tt)))))
print_line-All exit_event = (refl, (refl, (refl, (refl, (refl, tt)))))

set-here :
    (pre post : List ℕ) (a c : ℕ) → set (pre ++ a ∷ post) (length pre) c ≡ (pre ++ c ∷ []) ++ post
set-here [] post a c = refl
set-here (x ∷ pre) post a c = ap (λ ys. x ∷ ys) (set-here pre post a c)

length-snoc : (pre : List ℕ) (c : ℕ) → length (pre ++ c ∷ []) ≡ length pre + 1
length-snoc [] c = refl
length-snoc (x ∷ pre) c = omega (arith, length-snoc pre c)

-- The line in a zone of zeros, `n` long
abbrev pub padded : ℕ → List ℕ → List ℕ → List ℕ
padded n line post = line ++ (replicate (n - length line) 0 ++ post)

pub read_loop-line :
    (line : List ℕ) (n : ℕ) (pre post fp : List ℕ)
    → All is_line_char line
    → length line < n
    → read_loop n (pre ++ (replicate n 0 ++ post)) (length pre) (line ++ Char.newline ∷ fp)
      ≡ (true, pre ++ padded n line post, fp)
unfolding read_loop replicate
read_loop-line line zero pre post fp a h = absurd (omega arith)
read_loop-line [] (suc n) pre post fp a h = let whole : suc n - 0 ≡ suc n = omega arith in rw whole
read_loop-line (c ∷ line) (suc n) pre post fp (good, a) h =
    let later = read_loop-line line n (pre ++ c ∷ []) post fp a (omega arith) in
    let other : (c == Char.newline) ≡ false = ground (arith, good) in
    let fine : (not (is_alnum c) && not (c == Char.space)) ≡ false = ground (arith, good) in
    let room : suc n - suc (length line) ≡ n - length line = omega arith in
    rw (other, fine, set-here pre (replicate n 0 ++ post) 0 c, ← length-snoc pre c, room)
      (later ∙ ap (λ x. (true, x, fp)) (append_assoc pre (c ∷ []) (padded n line post)))

drop-padded : (n : ℕ) (line post : List ℕ) → length line ≤ n → drop n (padded n line post) ≡ post
unfolding replicate
drop-padded zero [] post h = refl
drop-padded (suc n) [] post h =
    let whole : suc n - 0 ≡ suc n = omega arith in
    let less : n - 0 ≡ n = omega arith in
    rw whole (let later = drop-padded n [] post (omega arith) in rw less at later)
drop-padded zero (c ∷ line) post h = absurd (omega arith)
drop-padded (suc n) (c ∷ line) post h =
    let room : suc n - suc (length line) ≡ n - length line = omega arith in
    rw room (drop-padded n line post (omega arith))

get_or-drop : (xs : List ℕ) (n d : ℕ) → get_or xs n d ≡ get_or (drop n xs) 0 d
get_or-drop xs zero d = refl
get_or-drop [] (suc n) d = refl
get_or-drop (x ∷ xs) (suc n) d = get_or-drop xs n d

-- The array is 1025 long and ends in 0.
abbrev pub IsBuffer : List ℕ → Type 0
IsBuffer buffer = drop buffersz buffer ≡ 0 ∷ []

pub terminated-IsBuffer : (buffer : List ℕ) → IsBuffer buffer → terminated buffer ≡ true
terminated-IsBuffer buffer is = rw (get_or-drop buffer buffersz 1, is)

-- The buffer that holds a line
abbrev pub page : List ℕ → List ℕ
page line = padded buffersz line (0 ∷ [])

pub page-IsBuffer : (line : List ℕ) → length line ≤ buffersz → IsBuffer (page line)
page-IsBuffer line h = drop-padded buffersz line (0 ∷ []) h

-- A line of letters, digits and spaces that leaves room is read whole, into an array of zeros.
pub readline-line :
    (line fp buffer : List ℕ)
    → All is_line_char line
    → length line < buffersz
    → IsBuffer buffer
    → readline (line ++ Char.newline ∷ fp) buffer ≡ some (true, page line, fp)
unfolding readline
readline-line line fp buffer a h is =
    rw (terminated-IsBuffer buffer is, is)
      (ap some (read_loop-line line buffersz [] (0 ∷ []) fp a h))

pub short : (e : Event) → length (print_line e) < buffersz
unfolding print_line print_hex
short (malloc_event size result caller) = omega arith
short (free_event p caller) = omega arith
short (calloc_event nemb size result caller) = omega arith
short (realloc_event p size result caller) = omega arith
short init_event = omega arith
short exit_event = omega arith

-- `linelen` and `len` of the handler
abbrev pub linelen : Event → ℕ
linelen (malloc_event size result caller) = malloc_len
linelen (free_event p caller) = free_len
linelen (calloc_event nemb size result caller) = calloc_len
linelen (realloc_event p size result caller) = realloc_len
linelen init_event = 5
linelen exit_event = 5
