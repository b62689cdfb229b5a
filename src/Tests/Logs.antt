-- ===== src/Tests/Logs.antt =====
-- Runs of mhook.c and replaylib.c in src: an allocator that hands out ever higher addresses, and a
-- table that is its content.
use sri_glibc_malloc.Base.{
  ℕ, ◌+◌, ◌≡◌, ◌++◌, refl, true, false, some, List, [], ◌∷◌, length, replicate, Returns, arith,
}
use sri_glibc_malloc.Mhook.{Hooks, Libc, wrote, failed, returned}
use sri_glibc_malloc.Mhook.Char
use sri_glibc_malloc.Mhook.Event.{Event, malloc_event, realloc_event, init_event, line_of}
use sri_glibc_malloc.Mhook.Print.{print_line, line_of-print_line}
use sri_glibc_malloc.Mhook.Transparent.{
  Request, malloc_request, free_request, realloc_request, serve, settled, serve-settled, serve_all,
  serve_all-history, history, ready, print_log,
}
use sri_glibc_malloc.Replay.{readline}
use sri_glibc_malloc.Replay.Table.{Content, PointerTable, top, pushed, popped}
use sri_glibc_malloc.Replay.Parse.{clipped}
use sri_glibc_malloc.Replay.Lines.{page}
use sri_glibc_malloc.Replay.RoundTrip.{operands_of-line_of}
use sri_glibc_malloc.Replay.Handlers.{Replay, operands_of, process_file}
use sri_glibc_malloc.Replay.Spec.{replay_events}
use sri_glibc_malloc.Replay.Process.{Ends, process_file-Ends}
use sri_glibc_malloc.Replay.Traced.{traced, process_file-traced}
use sri_glibc_malloc.Replay.Faithful.{IsTidy, same_allocator}

abbrev bump : Libc ℕ
bump = record {
  libc_malloc = λ size s. (s, s + size);
  libc_free = λ p s. s;
  libc_calloc = λ nmemb size s. (s, s + size);
  libc_realloc = λ p size s. (s, s + size);
  write = λ log line. wrote (length line);
  here = 0;
}

-- A disk that is full from the start
abbrev full_disk : Libc ℕ
full_disk = record bump { write = λ log line. failed 28 }

abbrev content_table : PointerTable Content
content_table = record {
  insert = λ h key val. (true, pushed h key val);
  lookup = λ h key. top (h key);
  delete = λ h key. (true, popped h key);
  destroy = λ h. true;
  content = λ h. h;
  lookup_content = λ h key. refl;
  insert_content = λ h key val ok. refl;
  delete_content = λ h key. refl;
  room = λ h n. Unit {0};
  insert_room = λ h n key val room. (refl, tt);
  delete_room = λ h n key room. tt;
  destroy_passes = λ h. refl;
  room_less = λ h n room. tt;
}

abbrev requests : List Request
requests =
    malloc_request 24 4198400
    ∷ realloc_request 65536 48 4198404
    ∷ free_request 65560 4198408
    ∷ free_request 0 4198412
    ∷ []

abbrev events : List Event
events = init_event ∷ malloc_event 24 65536 4198400 ∷ realloc_event 99 8 65536 4198404 ∷ []

line_of-print_line_example :
    line_of (malloc_event 24 65536 4198400)
    ≡ print_line (malloc_event 24 65536 4198400) ++ Char.newline ∷ []
line_of-print_line_example = line_of-print_line (malloc_event 24 65536 4198400)

serve-settled_example :
    serve full_disk 2 (malloc_request 24 4198400) (65536, ready 3 [])
    ≡ settled full_disk 3 0 65536 [] (malloc_event 24 65536 4198400) (65536, 65560)
serve-settled_example = serve-settled full_disk 3 0 65536 [] (malloc_request 24 4198400)

serve_all-history_example :
    serve_all bump 2 requests (65536, ready 3 [])
    ≡ returned (
      (history bump requests 65536).0,
      (history bump requests 65536).2,
      ready 3 ([] ++ print_log (history bump requests 65536).1),
    )
serve_all-history_example = serve_all-history bump (λ log line. refl) 3 0 requests 65536 []

operands_of-line_of_example :
    (readline (line_of (malloc_event 24 65536 4198400) ++ 10 ∷ []) (replicate 1025 0)
      ≡ some (true, page (print_line (malloc_event 24 65536 4198400)), 10 ∷ []))
    × (operands_of 58 3 (page (print_line (malloc_event 24 65536 4198400)))
        ≡ some (some (clipped (24 ∷ 65536 ∷ 4198400 ∷ []))))
unfolding replicate
operands_of-line_of_example =
    operands_of-line_of (malloc_event 24 65536 4198400) (10 ∷ []) (replicate 1025 0) refl
      (refl, (refl, (refl, tt))) refl

process_file-Ends_example :
    Returns
      (process_file content_table
        (same_allocator bump)
        (replicate 1025 7)
        65536
        (some (λ k. []))
        (some (print_log events)))
      (λ r.
        (st : Replay Content ℕ) × (r.2 ≡ some st)
        × Ends content_table
            (same_allocator bump)
            (r.0, r.1, st)
            (replay_events (same_allocator bump) events 0 (λ k. []) 65536))
unfolding replicate
process_file-Ends_example =
    process_file-Ends content_table (same_allocator bump) events (replicate 1025 7) 65536 (λ k. [])
      (tt, ((refl, (refl, (refl, tt))), ((refl, (refl, (refl, (refl, tt)))), tt))) (omega arith) tt

requests-IsTidy : IsTidy bump requests (λ k. false) 65536
unfolding IsTidy
requests-IsTidy = (
  refl,
  (refl, (refl, (refl, tt))),
  (
    refl,
    (refl, (refl, (refl, (refl, tt)))),
    (refl, (refl, (refl, tt)), (refl, (refl, (refl, tt)), tt)),
  ),
)

process_file-traced_example :
    (results : List ℕ) × (last : ℕ) × (hooks : Hooks) × (traced bump 2
        (some (116 ∷ []))
        (λ name. some 3)
        requests
        65536
      ≡ returned (results, last, hooks))
    × Returns
        (process_file content_table
          (same_allocator bump)
          (replicate 1025 7)
          65536
          (some (λ k. []))
          (some hooks.log))
        (λ r. (r.0 ≡ 0) × (st : Replay Content ℕ) × (r.2 ≡ some st) × (st.heap ≡ last))
unfolding replicate
process_file-traced_example =
    process_file-traced bump content_table requests 65536 3 0 (116 ∷ []) (λ name. some 3) (λ k. [])
      (replicate 1025 7) (λ log line. refl) refl refl tt refl requests-IsTidy (omega arith)
