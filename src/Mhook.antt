-- ===== src/Mhook.antt =====
-- src/mhooks/mhook.c: the hook that logs each call of malloc, free, calloc and realloc.
-- Characters are their codes.
pub mod Char
pub mod Event
pub mod Calls
pub mod Print
pub mod Transparent
use sri_glibc_malloc.Base.{
  ℕ, zero, suc, ◌+◌, ◌/◌, ◌<◌, Bool, true, false, Option, none, some, List, [], ◌∷◌, ◌++◌, ltb,
  ◌==◌, if◌then◌else◌, bit_and, get_or, set, take, length, replicate,
}
use sri_glibc_malloc.Mhook.Char

-- mhook.h
abbrev pub malloc_len : ℕ
malloc_len = 58

abbrev pub free_len : ℕ
free_len = 39

abbrev pub calloc_len : ℕ
calloc_len = 77

abbrev pub realloc_len : ℕ
realloc_len = 77

abbrev pub init_len : ℕ
init_len = 5

abbrev pub fini_len : ℕ
fini_len = 5

-- "0123456789ABCDEF"
abbrev pub hex_digits : List ℕ
hex_digits = 48 ∷ 49 ∷ 50 ∷ 51 ∷ 52 ∷ 53 ∷ 54 ∷ 55 ∷ 56 ∷ 57 ∷ 65 ∷ 66 ∷ 67 ∷ 68 ∷ 69 ∷ 70 ∷ []

abbrev pub hex : ℕ → ℕ
hex t = get_or hex_digits t 0

-- The loop of `storehexstring` at `&buf[at]`: `n` is `pos + 1`.
unfoldable pub store_loop : ℕ → List ℕ → ℕ → ℕ → List ℕ
store_loop zero buf at val = buf
store_loop (suc pos) buf at val =
    let rest = store_loop pos (set buf (at + pos) (hex (bit_and val 15))) at (val / 16) in
    if ltb 0 val then rest else buf

unfoldable pub storehexstring : List ℕ → ℕ → ℕ → List ℕ
storehexstring buf at val = store_loop 16 buf at val

-- The buffer that `_writelogentry` starts from: five fields of sixteen zeros
abbrev pub zeros : List ℕ
zeros = replicate 16 Char.digit0

-- Its last field, which no entry reaches, and its end
abbrev pub last_field : List ℕ
last_field = Char.space ∷ Char.digit0 ∷ Char.x ∷ (zeros ++ Char.newline ∷ [])

abbrev pub blank_line : List ℕ
blank_line =
    Char.space
    ∷ Char.space
    ∷ Char.digit0
    ∷ Char.x
    ∷ (zeros
        ++ Char.space
          ∷ Char.digit0
          ∷ Char.x
          ∷ (zeros
              ++ Char.space
                ∷ Char.digit0
                ∷ Char.x
                ∷ (zeros ++ Char.space ∷ Char.digit0 ∷ Char.x ∷ (zeros ++ last_field))))

-- The switch of `_writelogentry`: the buffer, and `sz`
abbrev pub fill_line : ℕ → ℕ → ℕ → ℕ → ℕ → ℕ → List ℕ → List ℕ × ℕ
fill_line func size1 size2 p q caller buffer =
    if func == Char.m
    then (
      storehexstring (storehexstring (storehexstring buffer 4 size1) 23 p) 42 caller,
      malloc_len,
    )
    else (if func == Char.f
        then (storehexstring (storehexstring buffer 4 p) 23 caller, free_len)
        else (if func == Char.c
            then (
              storehexstring
                  (storehexstring (storehexstring (storehexstring buffer 4 size1) 23 size2) 42 p) 61
                  caller,
              calloc_len,
            )
            else (if func == Char.r
                then (
                  storehexstring
                      (storehexstring (storehexstring (storehexstring buffer 4 p) 23 size1) 42 q) 61
                      caller,
                  realloc_len,
                )
                else (if func == Char.e
                    then (buffer, fini_len)
                    else (if func == Char.i then (buffer, init_len) else (buffer, 5))))))

abbrev pub ended : List ℕ × ℕ → List ℕ
ended (buffer, sz) = take (sz + 1) (set buffer sz Char.newline)

-- The `sz + 1` bytes that `_writelogentry` writes
unfoldable pub log_line : ℕ → ℕ → ℕ → ℕ → ℕ → ℕ → List ℕ
log_line func size1 size2 p q caller =
    ended (fill_line func size1 size2 p q caller (set blank_line 0 func))

-- What `write` returns: the number of bytes written, or -1 with this `errno`
pub data WriteResult : Type 0 where
  wrote : ℕ → WriteResult
  failed : ℕ → WriteResult

abbrev pub eintr : ℕ
eintr = 4

abbrev pub ebadf : ℕ
ebadf = 9

-- A call that returns, one that ends the process with `exit`, and one whose recursion has used up
-- its fuel
pub data Outcome {ℓ} (A : Type ℓ) : Type ℓ where
  returned : A → Outcome A
  exited : ℕ → Outcome A
  out_of_fuel : Outcome A

infixl 5 ◌>>=◌
abbrev pub ◌>>=◌ {ℓ κ} : {A : Type ℓ} {B : Type κ} → Outcome A → (A → Outcome B) → Outcome B
returned a >>= k = k a
exited code >>= k = exited code
out_of_fuel >>= k = out_of_fuel

-- The variables of mhook.c and the contents of the log file. `logfd` is -1 as `none`.
pub record Hooks : Type 0 where
  pub malloc_hook_active : Bool
  pub logfd : Option ℕ
  pub ourfd : Bool
  pub log : List ℕ

-- glibc's own functions on a state `S`, the `write` of a line to the log (which holds what is given
-- first), and the address in mhook.c that its own calls return to
pub record Libc (S : Type 0) : Type 0 where
  pub libc_malloc : ℕ → S → ℕ × S
  pub libc_free : ℕ → S → S
  pub libc_calloc : ℕ → ℕ → S → ℕ × S
  pub libc_realloc : ℕ → ℕ → S → ℕ × S
  pub write : List ℕ → List ℕ → WriteResult
  pub here : ℕ

-- After `write`: a file opened with O_APPEND has the bytes written at its end.
unfoldable pub after_write : Hooks → List ℕ → WriteResult → Outcome Hooks
after_write hooks line (wrote n) =
    if n == length line
    then returned (record hooks { log = hooks.log ++ take n line })
    else exited 7
after_write hooks line (failed errno) =
    if errno == eintr then exited 3 else (if errno == ebadf then exited 5 else exited errno)
