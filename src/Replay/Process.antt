-- ===== src/Replay/Process.antt =====
-- The replay of a log of mhook.c.
use sri_glibc_malloc.Base.{
  ℕ, zero, suc, ◌+◌, ◌%◌, ◌≤◌, ◌<◌, ◌≡◌, refl, ap, ◌∙◌, Bool, true, false, Option, some, List, [],
  ◌∷◌, ◌++◌, arith, replicate, length, length-append, drop, set, get_or, All, Returns,
}
use mathlib.Core.List.{append_assoc}
use sri_glibc_malloc.Utils.{u64_mod}
use sri_glibc_malloc.Mhook.Char
use sri_glibc_malloc.Mhook.Event.{
  Event, malloc_event, free_event, calloc_event, realloc_event, init_event, exit_event, letter,
  operands,
}
use sri_glibc_malloc.Mhook.Print.{print_line}
use sri_glibc_malloc.Mhook.Transparent.{print_log}
use sri_glibc_malloc.Replay.{buffersz, terminated, no_space, readline, read_loop}
use sri_glibc_malloc.Replay.Table.{Content, PointerTable}
use sri_glibc_malloc.Replay.Parse.{fits}
use sri_glibc_malloc.Replay.Lines.{
  IsBuffer, terminated-IsBuffer, page, readline-line, print_line-All, short,
}
use sri_glibc_malloc.Replay.RoundTrip.{page_of-IsBuffer, numbers}
use sri_glibc_malloc.Replay.Handlers.{
  Allocator, Replay, replay_op, replay_malloc, replay_calloc, replay_realloc, replay_free,
  replayline, after_line, process_lines, process_file,
}
use sri_glibc_malloc.Replay.Spec.{After, replay_event, carry_on, replay_events, Agrees}
use sri_glibc_malloc.Replay.Refines.{
  malloc_with-named, calloc_with-named, free_with-freed, realloc_with-replayed,
}

-- Each line of a log has numbers of 64 bits.
abbrev pub AllFit : List Event → Type 0
AllFit [] = Unit {0}
AllFit (e ∷ es) = All fits (operands e) × AllFit es

module _ {H S : Type 0} (table : PointerTable H) (alloc : Allocator S) where
  line_op :
      (st : Replay H S) (buffer : List ℕ)
      → terminated buffer ≡ true
      → no_space buffer ≡ false
      → replayline table alloc st buffer ≡ replay_op table alloc (get_or buffer 0 0) st buffer
  unfolding replayline
  line_op st buffer is spaced = rw (is, spaced)

  page_op :
      (e : Event) (st : Replay H S)
      → replayline table alloc st (page (print_line e))
        ≡ replay_op table alloc (letter e) st (page (print_line e))
  unfolding print_line
  page_op e st = go e
    where
      at :
          (e : Event)
          → no_space (page (print_line e)) ≡ false
          → get_or (page (print_line e)) 0 0 ≡ letter e
          → replayline table alloc st (page (print_line e))
            ≡ replay_op table alloc (letter e) st (page (print_line e))
      at e spaced first =
          line_op st (page (print_line e))
            (terminated-IsBuffer (page (print_line e)) (page_of-IsBuffer e)) spaced
          ∙ ap (λ c. replay_op table alloc c st (page (print_line e))) first

      go :
          (e : Event)
          → replayline table alloc st (page (print_line e))
            ≡ replay_op table alloc (letter e) st (page (print_line e))
      go (malloc_event size result caller) = at (malloc_event size result caller) refl refl
      go (free_event p caller) = at (free_event p caller) refl refl
      go (calloc_event nemb size result caller) =
          at (calloc_event nemb size result caller) refl refl
      go (realloc_event p size result caller) = at (realloc_event p size result caller) refl refl
      go init_event = at init_event refl refl
      go exit_event = at exit_event refl refl

  -- The line of an event is replayed as the specification says.
  replayline-Agrees :
      (n : ℕ) (e : Event) (st : Replay H S)
      → table.room st.htbl (suc n)
      → All fits (operands e)
      → Returns
          (replayline table alloc st (page (print_line e)))
          (λ r. Agrees alloc table n r (replay_event alloc e (table.content st.htbl) st.heap))
  unfolding replay_malloc replay_calloc replay_realloc replay_free
  replayline-Agrees n (malloc_event size result caller) st room a =
      let e = malloc_event size result caller in
      (
        _,
        page_op e st ∙ rw (numbers e refl a),
        malloc_with-named table alloc n st size result caller room,
      )
  replayline-Agrees n (free_event p caller) st room a =
      let e = free_event p caller in
      (_, page_op e st ∙ rw (numbers e refl a), free_with-freed table alloc n st p caller room)
  replayline-Agrees n (calloc_event nemb size result caller) st room a =
      let e = calloc_event nemb size result caller in
      (
        _,
        page_op e st ∙ rw (numbers e refl a),
        calloc_with-named table alloc n st nemb size result caller room,
      )
  replayline-Agrees n (realloc_event p size result caller) st room a =
      let e = realloc_event p size result caller in
      (
        _,
        page_op e st ∙ rw (numbers e refl a),
        realloc_with-replayed table alloc n st p size result caller room,
      )
  replayline-Agrees n init_event st room a = (
    (true, st),
    page_op init_event st,
    record { goes_on = refl; stacks = refl; heap = refl; room = table.room_less st.htbl n room },
  )
  replayline-Agrees n exit_event st room a = (
    (true, st),
    page_op exit_event st,
    record { goes_on = refl; stacks = refl; heap = refl; room = table.room_less st.htbl n room },
  )

  -- The end of a run: the code, the lines replayed, the stacks and the heap
  pub record Ends (r : ℕ × ℕ × Replay H S) (spec : ℕ × ℕ × Content × S) : Type 0 where
    pub code : r.0 ≡ spec.0
    pub lines : r.1 ≡ spec.1
    pub stacks : table.content r.2.htbl ≡ spec.2
    pub heap : r.2.heap ≡ spec.3

  after_line-Ends :
      (n lines : ℕ) (next : Replay H S → Option (ℕ × ℕ × Replay H S))
      (spec : Content → S → ℕ × ℕ × Content × S) (r : Bool × Replay H S) (a : After alloc)
      → Agrees alloc table n r a
      → ((st : Replay H S)
          → table.room st.htbl n
          → Returns (next st) (λ x. Ends x (spec (table.content st.htbl) st.heap)))
      → Returns (after_line table alloc lines next r) (λ x. Ends x (carry_on alloc lines spec a))
  after_line-Ends n lines next spec (true, st) (true, c, s) agrees go_on =
      let (x, run, ends) = go_on st agrees.room in
      (x, run, rw (← agrees.stacks, ← agrees.heap) ends)
  after_line-Ends n lines next spec (false, st) (false, c, s) agrees go_on = (
    (1, lines, st),
    refl,
    record { code = refl; lines = refl; stacks = agrees.stacks; heap = agrees.heap },
  )
  after_line-Ends n lines next spec (true, st) (false, c, s) agrees go_on =
      absurd (ground (arith, agrees.goes_on))
  after_line-Ends n lines next spec (false, st) (true, c, s) agrees go_on =
      absurd (ground (arith, agrees.goes_on))

  end_read :
      (buffer : List ℕ)
      → IsBuffer buffer
      → (b : List ℕ) × (readline (print_log []) buffer ≡ some (false, b, []))
  unfolding readline read_loop print_log
  end_read buffer is =
      (replicate buffersz 0 ++ drop buffersz buffer, rw (terminated-IsBuffer buffer is))

  line_read :
      (e : Event) (es : List Event) (buffer : List ℕ)
      → IsBuffer buffer
      → readline (print_log (e ∷ es)) buffer ≡ some (true, page (print_line e), print_log es)
  unfolding print_log
  line_read e es buffer is =
      ap (λ fp. readline fp buffer) (append_assoc (print_line e) (Char.newline ∷ []) (print_log es))
      ∙ readline-line (print_line e) (print_log es) buffer (print_line-All e) (short e) is

  process_lines-Ends :
      (es : List Event) (n : ℕ) (st : Replay H S) (lines : ℕ) (buffer : List ℕ)
      → AllFit es
      → length es < n
      → IsBuffer buffer
      → table.room st.htbl (length es)
      → Returns
          (process_lines table alloc n st lines buffer (print_log es))
          (λ r. Ends r (replay_events alloc es lines (table.content st.htbl) st.heap))
  unfolding process_lines replay_events
  process_lines-Ends es zero st lines buffer a h is room = absurd (omega arith)
  process_lines-Ends [] (suc n) st lines buffer a h is room =
      let (b, run) = end_read buffer is in
      ((0, lines, st), rw run, record { code = refl; lines = refl; stacks = refl; heap = refl })
  process_lines-Ends (e ∷ es) (suc n) st lines buffer (fit, a) h is room =
      let (r, run, agrees) = replayline-Agrees (length es) e st room fit in
      let next : Replay H S → Option (ℕ × ℕ × Replay H S) = λ st'.
        process_lines table alloc n st' ((lines + 1) % u64_mod) (page (print_line e))
          (print_log es) in
      let (x, run', ends) =
        after_line-Ends (length es) lines next (replay_events alloc es ((lines + 1) % u64_mod)) r
          (replay_event alloc e (table.content st.htbl) st.heap) agrees
          (λ st' left.
            process_lines-Ends es n st' ((lines + 1) % u64_mod) (page (print_line e)) a
              (omega arith) (page_of-IsBuffer e) left) in
      (x, rw (line_read e es buffer is, run) run', ends)

  few_lines : (es : List Event) → length es ≤ length (print_log es)
  unfolding print_log
  few_lines [] = omega arith
  few_lines (e ∷ es) = omega (
    arith,
    few_lines es,
    length-append (print_line e ++ Char.newline ∷ []) (print_log es),
    length-append (print_line e) (Char.newline ∷ []),
  )

  drop-set : (xs : List ℕ) (n v : ℕ) → length xs ≡ n + 1 → drop n (set xs n v) ≡ v ∷ []
  drop-set [] n v h = absurd (omega arith)
  drop-set (x ∷ []) zero v h = refl
  drop-set (x ∷ y ∷ xs) zero v h = absurd (omega arith)
  drop-set (x ∷ xs) (suc n) v h = drop-set xs n v (omega arith)

  -- Let the table have room for as many insertions as the log has lines, and let the log tell calls
  -- whose numbers are below 2 ^ 64. Then `process_file` on that log passes all its assertions, those of
  -- the final `delete_lphash` included, and returns. Its code, the number of
  -- lines replayed, the addresses that stand for those in the log and the heap at the end are those
  -- of the specification: all lines are replayed and the code is 0, or the code is 1 at the first
  -- `realloc` of an address that stands for nothing.
  pub process_file-Ends :
      (es : List Event) (buffer : List ℕ) (heap : S) (htbl : H)
      → AllFit es
      → length buffer ≡ buffersz + 1
      → table.room htbl (length es)
      → Returns (process_file table alloc buffer heap (some htbl) (some (print_log es))) (λ r.
        (st : Replay H S) × (r.2 ≡ some st)
        × Ends (r.0, r.1, st) (replay_events alloc es 0 (table.content htbl) heap))
  unfolding process_file
  process_file-Ends es buffer heap htbl a h room =
      let start : Replay H S = record {
        htbl = htbl;
        heap = heap;
        malloc_count = 0;
        free_count = 0;
        calloc_count = 0;
        realloc_count = 0;
      } in
      let (r, run, ends) =
        process_lines-Ends es (suc (length (print_log es))) start 0 (set buffer buffersz 0) a
          (omega (arith, few_lines es)) (drop-set buffer buffersz 0 h) room in
      ((r.0, r.1, some r.2), rw (run, table.destroy_passes r.2.htbl), (r.2, refl, ends))
