-- ===== src/Replay/Traced.antt =====
-- A program's whole run under mhook.c, from the start to the end of the process, and its replay.
use sri_glibc_malloc.Base.{
  ℕ, suc, ◌+◌, ◌%◌, ◌≡◌, refl, ap, sym, ◌∙◌, Bool, true, false, some, none, Option, List, [], ◌∷◌,
  ◌++◌, ltb, length, take-length, ==_refl, Returns,
}
use mathlib.Core.List.{append_assoc, append-nil}
use sri_glibc_malloc.Utils.{u64_mod}
use sri_glibc_malloc.Mhook.{Libc, Hooks, Outcome, returned, wrote, ◌>>=◌, after_write}
use sri_glibc_malloc.Mhook.Char
use sri_glibc_malloc.Mhook.Calls.{writelogentry, mhook_init, mhook_fini}
use sri_glibc_malloc.Mhook.Event.{Event, init_event, exit_event, line_of}
use sri_glibc_malloc.Mhook.Print.{print_line, line_of-print_line}
use sri_glibc_malloc.Mhook.Transparent.{
  Request, history, serve_all, ready, print_log, serve_all-history,
}
use sri_glibc_malloc.Replay.{buffersz}
use sri_glibc_malloc.Replay.Table.{Content, PointerTable}
use sri_glibc_malloc.Replay.Handlers.{Allocator, Replay, process_file}
use sri_glibc_malloc.Replay.Spec.{replay_event, replay_events, carry_on}
use sri_glibc_malloc.Replay.Process.{AllFit, process_file-Ends}
use sri_glibc_malloc.Replay.Faithful.{IsTidy, same_allocator, AllFit-tidy, replay_events-history}

-- The variables of mhook.c as they are initialised
abbrev pub at_start : Hooks
at_start = record { malloc_hook_active = true; logfd = none; ourfd = false; log = [] }

print_log-append : (es fs : List Event) → print_log (es ++ fs) ≡ print_log es ++ print_log fs
unfolding print_log
print_log-append [] fs = refl
print_log-append (e ∷ es) fs =
    ap (λ x. (print_line e ++ Char.newline ∷ []) ++ x) (print_log-append es fs)
    ∙ sym (append_assoc (print_line e ++ Char.newline ∷ []) (print_log es) (print_log fs))

AllFit-append : (es fs : List Event) → AllFit es → AllFit fs → AllFit (es ++ fs)
AllFit-append [] fs a b = b
AllFit-append (e ∷ es) fs a b = (a.0, AllFit-append es fs a.1 b)

module _ {S : Type 0} (alloc : Allocator S) where
  -- The same exit code and the same heap
  abbrev SameEnd : ℕ × ℕ × Content × S → ℕ × ℕ × Content × S → Type 0
  SameEnd r r' = (r.0 ≡ r'.0) × (r.3 ≡ r'.3)

  carry_on-SameEnd :
      (lines : ℕ) (next next' : Content → S → ℕ × ℕ × Content × S) (a : Bool × Content × S)
      → ((c : Content) (s : S) → SameEnd (next c s) (next' c s))
      → SameEnd (carry_on alloc lines next a) (carry_on alloc lines next' a)
  carry_on-SameEnd lines next next' (true, c, s) same = same c s
  carry_on-SameEnd lines next next' (false, c, s) same = (refl, refl)

  -- The entry of the end changes nothing.
  replay_events-exit :
      (es : List Event) (lines : ℕ) (c : Content) (s : S)
      → SameEnd
          (replay_events alloc (es ++ exit_event ∷ []) lines c s)
          (replay_events alloc es lines c s)
  unfolding replay_events
  replay_events-exit [] lines c s = (refl, refl)
  replay_events-exit (e ∷ es) lines c s =
      carry_on-SameEnd lines (replay_events alloc (es ++ exit_event ∷ []) ((lines + 1) % u64_mod))
        (replay_events alloc es ((lines + 1) % u64_mod)) (replay_event alloc e c s)
        (λ c' s'. replay_events-exit es ((lines + 1) % u64_mod) c' s')

module _ {S : Type 0} (libc : Libc S) where
  -- The start of the process, the program's calls, and its end
  abbrev pub traced :
      ℕ → Option (List ℕ) → (List ℕ → Option ℕ) → List Request → S → Outcome (List ℕ × S × Hooks)
  traced n envname open_file rs s = do
    hooks ← mhook_init libc envname open_file at_start
    (results, s', hooks') ← serve_all libc n rs (s, hooks)
    hooks'' ← mhook_fini libc hooks'
    returned (results, s', hooks'')

  abbrev pub trace_of : List Request → S → List Event
  trace_of rs s = init_event ∷ ((history libc rs s).1 ++ exit_event ∷ [])

  module _ (whole : (log line : List ℕ) → libc.write log line ≡ wrote (length line)) (fd : ℕ) where
    line_written :
        (e : Event) (log : List ℕ)
        → after_write (ready fd log) (line_of e) (libc.write log (line_of e))
          ≡ returned (ready fd (log ++ print_log (e ∷ [])))
    unfolding after_write print_log
    line_written e log =
        rw (whole log (line_of e), ==_refl (length (line_of e)), take-length (line_of e))
          (ap (λ x. returned (ready fd (log ++ x)))
            (line_of-print_line e ∙ sym (append-nil (print_line e ++ Char.newline ∷ []))))

    joined :
        (es : List Event)
        → (print_log (init_event ∷ []) ++ print_log es) ++ print_log (exit_event ∷ [])
          ≡ print_log (init_event ∷ (es ++ exit_event ∷ []))
    joined es =
        append_assoc (print_log (init_event ∷ [])) (print_log es) (print_log (exit_event ∷ []))
        ∙ sym (
            print_log-append (init_event ∷ []) (es ++ exit_event ∷ [])
            ∙ ap (λ x. print_log (init_event ∷ []) ++ x) (print_log-append es (exit_event ∷ [])))

    traced-history :
        (n : ℕ) (name : List ℕ) (open_file : List ℕ → Option ℕ) (rs : List Request) (s : S)
        → open_file name ≡ some fd
        → ltb 0 fd ≡ true
        → traced (suc (suc n)) (some name) open_file rs s
          ≡ returned
              ((history libc rs s).0, (history libc rs s).2, ready fd (print_log (trace_of rs s)))
    unfolding mhook_init mhook_fini writelogentry
    traced-history n name open_file rs s opens positive =
        rw
          (
            opens,
            positive,
            line_written init_event [],
            serve_all-history libc whole fd n rs s (print_log (init_event ∷ [])),
            line_written exit_event
                (print_log (init_event ∷ []) ++ print_log (history libc rs s).1),
          )
          (ap (λ log. returned ((history libc rs s).0, (history libc rs s).2, ready fd log))
            (joined (history libc rs s).1))

  -- Let a program run under mhook.c from the start, with MHOOK naming a file that can be opened, its
  -- descriptor not 0, and to which every write is whole. Let each call of `free` or `realloc` be given NULL, or an address that
  -- a call returned and that no `free` or `realloc` has been given since, not even a `realloc` that
  -- failed; and let the numbers of the calls and their results be below 2 ^ 63. Then the run comes to
  -- its end, and `process_file` on its log, with an empty table that has room for as many insertions as
  -- the log has lines, and with the allocator in the state that the program started from, passes its
  -- assertions, returns 0, and leaves the allocator in the state that the program left.
  pub process_file-traced :
      {H : Type 0} (table : PointerTable H) (rs : List Request) (s : S) (fd n : ℕ) (name : List ℕ)
      (open_file : List ℕ → Option ℕ) (htbl : H) (buffer : List ℕ)
      → ((log line : List ℕ) → libc.write log line ≡ wrote (length line))
      → open_file name ≡ some fd
      → ltb 0 fd ≡ true
      → table.room htbl (length (trace_of rs s))
      → table.content htbl ≡ (λ k. [])
      → IsTidy libc rs (λ k. false) s
      → length buffer ≡ buffersz + 1
      → (results : List ℕ) × (last : S) × (hooks : Hooks) × (traced
            (suc (suc n))
            (some name)
            open_file
            rs
            s
          ≡ returned (results, last, hooks))
        × Returns
            (process_file table (same_allocator libc) buffer s (some htbl) (some hooks.log))
            (λ r. (r.0 ≡ 0) × (st : Replay H S) × (r.2 ≡ some st) × (st.heap ≡ last))
  unfolding replay_events
  process_file-traced table rs s fd n name open_file htbl buffer whole opens positive room blank
        tidy h =
      let alloc = same_allocator libc in
      let (results, events, last) = history libc rs s in
      let (lines, c, spec) =
        replay_events-history libc rs (λ k. false) (λ k. []) s 1 (λ k. tt) (λ k h. cc) tidy in
      let fit : AllFit (trace_of rs s) = (
        tt,
        AllFit-append events (exit_event ∷ []) (AllFit-tidy libc rs (λ k. false) s tidy) (tt, tt),
      ) in
      let (r, run, (st, ended, ends)) =
        process_file-Ends table alloc (trace_of rs s) buffer s htbl fit h room in
      let (code, heap) = replay_events-exit alloc events 1 (λ k. []) s in
      let same : SameEnd alloc (replay_events alloc (trace_of rs s) 0 (table.content htbl) s)
          (0, lines, c, last) =
        rw blank (code ∙ ap (λ x. x.0) spec, heap ∙ ap (λ x. x.3) spec) in
      (
        results,
        last,
        ready fd (print_log (trace_of rs s)),
        traced-history whole fd n name open_file rs s opens positive,
        (r, run, (ends.code ∙ same.0, st, ended, ends.heap ∙ same.1)),
      )
