-- ===== src/Mhook/Calls.antt =====
-- The hooks themselves, and the entries at the start and the end.
use sri_glibc_malloc.Base.{ℕ, zero, suc, true, false, Option, none, some, List, ltb, if◌then◌else◌}
use sri_glibc_malloc.Mhook.Char
use sri_glibc_malloc.Mhook.{
  log_line, Outcome, returned, out_of_fuel, ◌>>=◌, Hooks, Libc, after_write,
}

module _ {S : Type 0} (libc : Libc S) where
  abbrev pub write_line : Hooks → List ℕ → Option ℕ → Outcome Hooks
  write_line hooks line none = returned hooks
  write_line hooks line (some fd) = after_write hooks line (libc.write hooks.log line)

  unfoldable pub writelogentry : Hooks → ℕ → ℕ → ℕ → ℕ → ℕ → ℕ → Outcome Hooks
  writelogentry hooks func size1 size2 p q caller =
      write_line hooks (log_line func size1 size2 p q caller) hooks.logfd

  abbrev pub deactivated : Hooks → Hooks
  deactivated hooks = record hooks { malloc_hook_active = false }

  abbrev pub reactivated : Hooks → Hooks
  reactivated hooks = record hooks { malloc_hook_active = true }

  -- A call that returns a pointer, and one that does not; the last argument is the caller.
  abbrev pub Alloc : Type 0
  Alloc = ℕ → S × Hooks → Outcome (ℕ × S × Hooks)

  abbrev pub Action : Type 0
  Action = ℕ → S × Hooks → Outcome (S × Hooks)

  -- `malloc` and the others that the hooks call are the functions of mhook.c again, given here as
  -- an argument.
  unfoldable pub my_malloc_hook : Alloc → ℕ → Alloc
  my_malloc_hook malloc size caller (s, hooks) = do
    (result, s', hooks') ← malloc libc.here (s, deactivated hooks)
    hooks'' ← writelogentry hooks' Char.m size 0 result 0 caller
    returned (result, s', reactivated hooks'')

  unfoldable pub my_calloc_hook : Alloc → ℕ → ℕ → Alloc
  my_calloc_hook calloc nemb size caller (s, hooks) = do
    (result, s', hooks') ← calloc libc.here (s, deactivated hooks)
    hooks'' ← writelogentry hooks' Char.c nemb size result 0 caller
    returned (result, s', reactivated hooks'')

  unfoldable pub my_realloc_hook : Alloc → ℕ → ℕ → Alloc
  my_realloc_hook realloc p size caller (s, hooks) = do
    (result, s', hooks') ← realloc libc.here (s, deactivated hooks)
    hooks'' ← writelogentry hooks' Char.r size 0 p result caller
    returned (result, s', reactivated hooks'')

  unfoldable pub my_free_hook : Action → ℕ → Action
  my_free_hook free p caller (s, hooks) = do
    (s', hooks') ← free libc.here (s, deactivated hooks)
    hooks'' ← writelogentry hooks' Char.f 0 0 p 0 caller
    returned (s', reactivated hooks'')

  abbrev pub direct : ℕ × S → Hooks → Outcome (ℕ × S × Hooks)
  direct (result, s) hooks = returned (result, s, hooks)

  -- The functions that a program gets in place of glibc's. The first argument bounds the depth of
  -- the recursion through the hook.
  unfoldable pub malloc : ℕ → ℕ → Alloc
  malloc zero size caller st = out_of_fuel
  malloc (suc n) size caller (s, hooks) =
      let hooked = my_malloc_hook (malloc n size) size caller (s, hooks) in
      if hooks.malloc_hook_active then hooked else direct (libc.libc_malloc size s) hooks

  unfoldable pub calloc : ℕ → ℕ → ℕ → Alloc
  calloc zero nmemb size caller st = out_of_fuel
  calloc (suc n) nmemb size caller (s, hooks) =
      let hooked = my_calloc_hook (calloc n nmemb size) nmemb size caller (s, hooks) in
      if hooks.malloc_hook_active then hooked else direct (libc.libc_calloc nmemb size s) hooks

  unfoldable pub realloc : ℕ → ℕ → ℕ → Alloc
  realloc zero ptr size caller st = out_of_fuel
  realloc (suc n) ptr size caller (s, hooks) =
      let hooked = my_realloc_hook (realloc n ptr size) ptr size caller (s, hooks) in
      if hooks.malloc_hook_active then hooked else direct (libc.libc_realloc ptr size s) hooks

  unfoldable pub free : ℕ → ℕ → Action
  free zero ptr caller st = out_of_fuel
  free (suc n) ptr caller (s, hooks) =
      let hooked = my_free_hook (free n ptr) ptr caller (s, hooks) in
      if hooks.malloc_hook_active then hooked else returned (libc.libc_free ptr s, hooks)

  -- What `open` returns: a descriptor, or -1 as `none`
  abbrev pub opened : Option ℕ → Hooks → Outcome Hooks
  opened none hooks = returned hooks
  opened (some fd) hooks =
      let logged =
        writelogentry (record hooks { logfd = some fd; ourfd = true }) Char.i 0 0 0 0 0 in
      if ltb 0 fd then logged else returned hooks

  -- `envname` is the value of MHOOK in the environment, `open_file` opens the file of that name.
  unfoldable pub mhook_init : Option (List ℕ) → (List ℕ → Option ℕ) → Hooks → Outcome Hooks
  mhook_init none open_file hooks = returned hooks
  mhook_init (some envname) open_file hooks = opened (open_file envname) hooks

  unfoldable pub mhook_fini : Hooks → Outcome Hooks
  mhook_fini hooks =
      let logged = writelogentry hooks Char.e 0 0 0 0 0 in
      if hooks.ourfd then logged else returned hooks
