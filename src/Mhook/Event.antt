-- ===== src/Mhook/Event.antt =====
-- What a line of the log tells.
use sri_glibc_malloc.Base.{ℕ, List, [], ◌∷◌}
use sri_glibc_malloc.Mhook.{log_line}
use sri_glibc_malloc.Mhook.Char

-- A call with its arguments, its result and its caller; the start and the end of a run
pub data Event : Type 0 where
  malloc_event : ℕ → ℕ → ℕ → Event
  free_event : ℕ → ℕ → Event
  calloc_event : ℕ → ℕ → ℕ → ℕ → Event
  realloc_event : ℕ → ℕ → ℕ → ℕ → Event
  init_event : Event
  exit_event : Event

-- The line as the hooks have it written
abbrev pub line_of : Event → List ℕ
line_of (malloc_event size result caller) = log_line Char.m size 0 result 0 caller
line_of (free_event p caller) = log_line Char.f 0 0 p 0 caller
line_of (calloc_event nemb size result caller) = log_line Char.c nemb size result 0 caller
line_of (realloc_event p size result caller) = log_line Char.r size 0 p result caller
line_of init_event = log_line Char.i 0 0 0 0 0
line_of exit_event = log_line Char.e 0 0 0 0 0

abbrev pub letter : Event → ℕ
letter (malloc_event size result caller) = Char.m
letter (free_event p caller) = Char.f
letter (calloc_event nemb size result caller) = Char.c
letter (realloc_event p size result caller) = Char.r
letter init_event = Char.i
letter exit_event = Char.e

-- The numbers in the order of the line
abbrev pub operands : Event → List ℕ
operands (malloc_event size result caller) = size ∷ result ∷ caller ∷ []
operands (free_event p caller) = p ∷ caller ∷ []
operands (calloc_event nemb size result caller) = nemb ∷ size ∷ result ∷ caller ∷ []
operands (realloc_event p size result caller) = p ∷ size ∷ result ∷ caller ∷ []
operands init_event = []
operands exit_event = []
