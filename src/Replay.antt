-- ===== src/Replay.antt =====
-- src/replay/replaylib.c: a log of mhook.c is read line by line, and its calls are made again.
-- This file: the lines and the numbers in them.
pub mod Table
pub mod Handlers
pub mod Parse
pub mod Lines
pub mod RoundTrip
pub mod Spec
pub mod Refines
pub mod Process
pub mod Faithful
pub mod Traced
use sri_glibc_malloc.Base.{
  ℕ, zero, suc, ◌+◌, ◌-◌, ◌*◌, ◌%◌, ◌^◌, ◌≡◌, Bool, true, false, ◌&&◌, ◌||◌, not, Option, none,
  some, List, [], ◌∷◌, ◌++◌, ltb, leb, ◌==◌, if◌then◌else◌, min, get_or, set, drop, replicate,
  ◌>>=◌, ◌>>◌, assert,
}
use sri_glibc_malloc.Mhook.Char

-- BUFFERSZ: the array is one longer, and its last element is 0.
abbrev pub buffersz : ℕ
buffersz = 1024

-- `isalnum`, `isspace` and `strtoll` of the C library, in the C locale
abbrev pub is_alnum : ℕ → Bool
is_alnum c = (leb 48 c && leb c 57) || (leb 65 c && leb c 90) || (leb 97 c && leb c 122)

abbrev pub is_space : ℕ → Bool
is_space c = c == 32 || (leb 9 c && leb c 13)

abbrev pub is_hex : ℕ → Bool
is_hex c = (leb 48 c && leb c 57) || (leb 65 c && leb c 70) || (leb 97 c && leb c 102)

abbrev pub hex_value : ℕ → ℕ
hex_value c = if leb c 57 then c - 48 else (if leb c 70 then c - 55 else c - 87)

-- The digits from `n` on: their value behind `acc`, and where they end
unfoldable pub scan_hex : ℕ → ℕ → List ℕ → ℕ × ℕ
scan_hex acc n [] = (acc, n)
scan_hex acc n (c ∷ cs) =
    let rest = scan_hex (acc * 16 + hex_value c) (n + 1) cs in if is_hex c then rest else (acc, n)

-- A prefix "0x" counts if a digit follows.
abbrev pub is_prefixed : List ℕ → Bool
is_prefixed s =
    get_or s 0 0 == 48 && (get_or s 1 0 == 120 || get_or s 1 0 == 88) && is_hex (get_or s 2 0)

unfoldable pub scan_number : List ℕ → ℕ × ℕ
scan_number s = if is_prefixed s then scan_hex 0 2 (drop 2 s) else scan_hex 0 0 s

abbrev pub spaces : List ℕ → ℕ
spaces [] = 0
spaces (c ∷ cs) = let rest = spaces cs in if is_space c then suc rest else 0

abbrev pub llong_max : ℕ
llong_max = 2 ^ 63 - 1

-- The value is clipped to the range of long long, and is a `uintptr_t` here.
abbrev pub clip_signed : Bool → ℕ → ℕ
clip_signed true v = if leb v (2 ^ 63) then (2 ^ 64 - v) % 2 ^ 64 else 2 ^ 63
clip_signed false v = min v llong_max

-- `strtoll(s, &rest, 16)`: the value, and the number of characters before `rest`
unfoldable pub strtoll : List ℕ → ℕ × ℕ
strtoll s =
    let n = spaces s in
    let sign = get_or s n 0 in
    let start = if sign == 45 || sign == 43 then n + 1 else n in
    let (v, used) = scan_number (drop start s) in
    if used == 0 then (0, 0) else (clip_signed (sign == 45) v, start + used)

abbrev pub behind : ℕ → Option (List ℕ) → Option (List ℕ)
behind address none = none
behind address (some addresses) = some (address ∷ addresses)

-- The loop of `dirtywork`: `none` is a failed assertion, `some none` the result false.
unfoldable pub dirtywork_loop : ℕ → List ℕ → Option (Option (List ℕ))
dirtywork_loop zero text = some (some [])
dirtywork_loop (suc n) text =
    let (address, used) = strtoll text in
    let later = dirtywork_loop n (drop (used + 1) text) in
    let read = (do
      assert (get_or text used 0 == Char.space || get_or text used 0 == 0)
      addresses ← later
      some (behind address addresses)) in
    if used == 0 then some none else read

-- `buffer[1] != ' '`
abbrev pub no_space : List ℕ → Bool
no_space buffer = not (get_or buffer 1 0 == Char.space)

-- `assert((buffersz == BUFFERSZ) && (buffer[buffersz] == '\0'))`
abbrev pub terminated : List ℕ → Bool
terminated buffer = get_or buffer buffersz 1 == 0

unfoldable pub dirtywork : ℕ → List ℕ → Option (Option (List ℕ))
dirtywork len buffer =
    let read = (do assert (terminated buffer); dirtywork_loop len (drop 2 buffer)) in
    if no_space buffer || leb buffersz len || ltb len 1 then some none else read

-- The loop of `readline`, with `n` characters of room: whether a line was read, the buffer, and
-- what is left of the file
unfoldable pub read_loop : ℕ → List ℕ → ℕ → List ℕ → Bool × List ℕ × List ℕ
read_loop zero buffer index fp = (false, buffer, fp)
read_loop (suc n) buffer index [] = (false, buffer, [])
read_loop (suc n) buffer index (c ∷ fp) =
    let rest = read_loop n (set buffer index c) (index + 1) fp in
    if c == Char.newline
    then (true, buffer, fp)
    else (if not (is_alnum c) && not (c == Char.space) then (false, buffer, fp) else rest)

unfoldable pub readline : List ℕ → List ℕ → Option (Bool × List ℕ × List ℕ)
readline fp buffer = do
  assert (terminated buffer)
  some (read_loop buffersz (replicate buffersz 0 ++ drop buffersz buffer) 0 fp)
