-- ===== src/Mhook/Transparent.antt =====
-- A program's calls through the hooks: glibc does the work, and the log tells the calls.
use sri_glibc_malloc.Base.{
  ℕ, suc, ◌≡◌, ap, ◌∙◌, true, false, some, List, [], ◌∷◌, ◌++◌, length, take-length, if◌then◌else◌,
  ==_refl, ==_true, Bool, Bool-cases, inl, inr, false, ◌==◌,
}
use mathlib.Core.List.{append_assoc, append-nil}
use sri_glibc_malloc.Mhook.{
  Outcome, returned, ◌>>=◌, Hooks, Libc, WriteResult, wrote, failed, exited, after_write,
}
use sri_glibc_malloc.Mhook.Char
use sri_glibc_malloc.Mhook.Calls.{
  malloc, calloc, realloc, free, my_malloc_hook, my_calloc_hook, my_realloc_hook, my_free_hook,
  writelogentry,
}
use sri_glibc_malloc.Mhook.Event.{
  Event, malloc_event, free_event, calloc_event, realloc_event, line_of,
}
use sri_glibc_malloc.Mhook.Print.{print_line, line_of-print_line}

-- A call of the program, with its caller
pub data Request : Type 0 where
  malloc_request : ℕ → ℕ → Request
  free_request : ℕ → ℕ → Request
  calloc_request : ℕ → ℕ → ℕ → Request
  realloc_request : ℕ → ℕ → ℕ → Request

-- The log of events
unfoldable pub print_log : List Event → List ℕ
print_log [] = []
print_log (e ∷ es) = (print_line e ++ Char.newline ∷ []) ++ print_log es

-- Hooks that are active, with an open log
abbrev pub ready : ℕ → List ℕ → Hooks
ready fd log = record { malloc_hook_active = true; logfd = some fd; ourfd = true; log = log }

module _ {S : Type 0} (libc : Libc S) where
  -- What the program gets of a call: the result (0 for `free`) and the new state
  abbrev pub serve : ℕ → Request → S × Hooks → Outcome (ℕ × S × Hooks)
  serve n (malloc_request size caller) st = malloc libc n size caller st
  serve n (free_request p caller) st = do
    (s, hooks) ← free libc n p caller st
    returned (0, s, hooks)
  serve n (calloc_request nmemb size caller) st = calloc libc n nmemb size caller st
  serve n (realloc_request p size caller) st = realloc libc n p size caller st

  unfoldable pub serve_all : ℕ → List Request → S × Hooks → Outcome (List ℕ × S × Hooks)
  serve_all n [] (s, hooks) = returned ([], s, hooks)
  serve_all n (r ∷ rs) st = do
    (result, s, hooks) ← serve n r st
    (results, s', hooks') ← serve_all n rs (s, hooks)
    returned (result ∷ results, s', hooks')

  -- The same calls of glibc's functions, and what there is to log of them
  abbrev pub served : Request → S → ℕ × S
  served (malloc_request size caller) s = libc.libc_malloc size s
  served (free_request p caller) s = (0, libc.libc_free p s)
  served (calloc_request nmemb size caller) s = libc.libc_calloc nmemb size s
  served (realloc_request p size caller) s = libc.libc_realloc p size s

  abbrev pub event_of : Request → ℕ → Event
  event_of (malloc_request size caller) result = malloc_event size result caller
  event_of (free_request p caller) result = free_event p caller
  event_of (calloc_request nmemb size caller) result = calloc_event nmemb size result caller
  event_of (realloc_request p size caller) result = realloc_event p size result caller

  unfoldable pub history : List Request → S → List ℕ × List Event × S
  history [] s = ([], [], s)
  history (r ∷ rs) s =
      let (results, events, last) = history rs (served r s).1 in
      ((served r s).0 ∷ results, event_of r (served r s).0 ∷ events, last)

  -- The exit code after a write that was short or failed
  abbrev pub exit_code : WriteResult → ℕ
  exit_code (wrote k) = 7
  exit_code (failed errno) = if errno == 4 then 3 else (if errno == 9 then 5 else errno)

  abbrev pub is_whole : WriteResult → List ℕ → Bool
  is_whole (wrote k) line = k == length line
  is_whole (failed errno) line = false

  module _ (fd n : ℕ) (s : S) (log : List ℕ) where
    logged_or_exit :
        (e : Event)
        → after_write
            (record (ready fd log) { malloc_hook_active = false })
            (line_of e)
            (libc.write log (line_of e))
          ≡ (if is_whole (libc.write log (line_of e)) (line_of e)
              then returned (record (ready fd (log ++ line_of e)) { malloc_hook_active = false })
              else exited (exit_code (libc.write log (line_of e))))
    unfolding after_write
    logged_or_exit e = go (libc.write log (line_of e))
      where
        go :
            (w : WriteResult)
            → after_write (record (ready fd log) { malloc_hook_active = false }) (line_of e) w ≡ (
                if is_whole w (line_of e)
                then returned (record (ready fd (log ++ line_of e)) { malloc_hook_active = false })
                else exited (exit_code w))
        go (wrote k) = elim (Bool-cases (k == length (line_of e))) [
          | inl same ↦
              let all : k ≡ length (line_of e) = ==_true k (length (line_of e)) same in
              rw (same, all, take-length (line_of e))
          | inr short ↦ rw short
        ]
        go (failed errno) = elim (Bool-cases (errno == 4)) [
          | inl e ↦ rw e
          | inr e ↦ elim (Bool-cases (errno == 9)) [ inl e' ↦ rw (e, e') | inr e' ↦ rw (e, e') ]
        ]

    -- How a call ends that has logged this event
    abbrev pub settled : Event → ℕ × S → Outcome (ℕ × S × Hooks)
    settled e (result, s') =
        if is_whole (libc.write log (line_of e)) (line_of e)
        then returned (result, s', ready fd (log ++ line_of e))
        else exited (exit_code (libc.write log (line_of e)))

    -- A call through active hooks with an open log, with a depth of recursion of two, calls glibc's
    -- function once, and has its line written. If the write is whole it returns what glibc's
    -- function returns, and the hooks are active again. If not, the process exits: with 7 after a
    -- short write, 3 if it was interrupted, 5 if the descriptor was bad, else with the number of
    -- the error.
    pub serve-settled :
        (r : Request)
        → serve (suc (suc n)) r (s, ready fd log) ≡ settled (event_of r (served r s).0) (served r s)
    unfolding malloc free calloc realloc my_malloc_hook my_calloc_hook my_realloc_hook my_free_hook
        writelogentry
    serve-settled (malloc_request size caller) =
        let e = malloc_event size (libc.libc_malloc size s).0 caller in
        elim (Bool-cases (is_whole (libc.write log (line_of e)) (line_of e))) [
          | inl w ↦ rw (logged_or_exit e, w)
          | inr w ↦ rw (logged_or_exit e, w)
        ]
    serve-settled (free_request p caller) =
        let e = free_event p caller in
        elim (Bool-cases (is_whole (libc.write log (line_of e)) (line_of e))) [
          | inl w ↦ rw (logged_or_exit e, w)
          | inr w ↦ rw (logged_or_exit e, w)
        ]
    serve-settled (calloc_request nmemb size caller) =
        let e = calloc_event nmemb size (libc.libc_calloc nmemb size s).0 caller in
        elim (Bool-cases (is_whole (libc.write log (line_of e)) (line_of e))) [
          | inl w ↦ rw (logged_or_exit e, w)
          | inr w ↦ rw (logged_or_exit e, w)
        ]
    serve-settled (realloc_request p size caller) =
        let e = realloc_event p size (libc.libc_realloc p size s).0 caller in
        elim (Bool-cases (is_whole (libc.write log (line_of e)) (line_of e))) [
          | inl w ↦ rw (logged_or_exit e, w)
          | inr w ↦ rw (logged_or_exit e, w)
        ]

  module _ (whole : (log line : List ℕ) → libc.write log line ≡ wrote (length line))
      (fd n : ℕ) where
    -- One call: glibc's function is called once, and one line is logged.
    serve-ready :
        (r : Request) (s : S) (log : List ℕ)
        → serve (suc (suc n)) r (s, ready fd log)
          ≡ returned (
            (served r s).0,
            (served r s).1,
            ready fd (log ++ (print_line (event_of r (served r s).0) ++ Char.newline ∷ [])),
          )
    serve-ready r s log =
        let e = event_of r (served r s).0 in
        let all : is_whole (libc.write log (line_of e)) (line_of e) ≡ true =
          rw (whole log (line_of e)) (==_refl (length (line_of e))) in
        serve-settled fd n s log r
        ∙ rw all (
            ap (λ x. returned ((served r s).0, (served r s).1, ready fd (log ++ x)))
              (line_of-print_line e))

    -- Let every write to the log be whole. Then calls through active hooks with an open log return,
    -- with a depth of recursion of two, what glibc's functions return to the same calls, and leave
    -- the state that these leave. The hooks are active again, and the log has grown by one line for
    -- each call, in order, that prints the call, its result and its caller.
    pub serve_all-history :
        (rs : List Request) (s : S) (log : List ℕ)
        → serve_all (suc (suc n)) rs (s, ready fd log)
          ≡ returned
              ((history rs s).0, (history rs s).2, ready fd (log ++ print_log (history rs s).1))
    unfolding serve_all history print_log
    serve_all-history [] s log = rw append-nil
    serve_all-history (r ∷ rs) s log =
        let line = print_line (event_of r (served r s).0) ++ Char.newline ∷ [] in
        rw (serve-ready r s log, serve_all-history rs (served r s).1 (log ++ line), append_assoc)
