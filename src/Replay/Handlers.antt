-- ===== src/Replay/Handlers.antt =====
-- The handlers of the calls, and the loop over the file.
use sri_glibc_malloc.Base.{
  ℕ, zero, suc, ◌+◌, ◌-◌, ◌%◌, Bool, true, false, ◌&&◌, ◌||◌, not, Option, none, some, List, ◌==◌,
  if◌then◌else◌, get_or, set, length, ◌>>=◌, ◌>>◌, assert,
}
use sri_glibc_malloc.Utils.{u64_mod}
use sri_glibc_malloc.Mhook.{malloc_len, free_len, calloc_len, realloc_len}
use sri_glibc_malloc.Mhook.Char
use sri_glibc_malloc.Replay.{is_alnum, no_space, terminated, dirtywork, readline, buffersz}
use sri_glibc_malloc.Replay.Table.{PointerTable}

-- The allocator that is put to the test, on a state `S`
pub record Allocator (S : Type 0) : Type 0 where
  pub malloc : ℕ → S → ℕ × S
  pub free : ℕ → S → S
  pub calloc : ℕ → ℕ → S → ℕ × S
  pub realloc : ℕ → ℕ → S → ℕ × S

-- The table, the allocator's state, and the counts of replay_stats_t
pub record Replay (H S : Type 0) : Type 0 where
  pub htbl : H
  pub heap : S
  pub malloc_count : ℕ
  pub free_count : ℕ
  pub calloc_count : ℕ
  pub realloc_count : ℕ

-- The checks at the start of each handler, and the reading of its `len` numbers
unfoldable pub operands_of : ℕ → ℕ → List ℕ → Option (Option (List ℕ))
operands_of linelen len buffer =
    let checked = (do
      assert (terminated buffer)
      assert (get_or buffer linelen 1 == 0 && is_alnum (get_or buffer (linelen - 1) 0))
      dirtywork len buffer) in
    if no_space buffer then some none else checked

module _ {H S : Type 0} (table : PointerTable H) (alloc : Allocator S) where
  abbrev pub Result : Type 0
  Result = Option (Bool × Replay H S)

  unfoldable pub r_malloc : Replay H S → ℕ → ℕ × Replay H S
  r_malloc st size =
      let (rptr, heap') = alloc.malloc size st.heap in
      (rptr, record st { heap = heap'; malloc_count = (st.malloc_count + 1) % u64_mod })

  unfoldable pub r_realloc : Replay H S → ℕ → ℕ → ℕ × Replay H S
  r_realloc st ptr size =
      let (rptr, heap') = alloc.realloc ptr size st.heap in
      (rptr, record st { heap = heap'; realloc_count = (st.realloc_count + 1) % u64_mod })

  unfoldable pub r_calloc : Replay H S → ℕ → ℕ → ℕ × Replay H S
  r_calloc st count size =
      let (rptr, heap') = alloc.calloc count size st.heap in
      (rptr, record st { heap = heap'; calloc_count = (st.calloc_count + 1) % u64_mod })

  unfoldable pub r_free : Replay H S → ℕ → Replay H S
  r_free st ptr = record st {
    heap = alloc.free ptr st.heap;
    free_count = (st.free_count + 1) % u64_mod;
  }

  -- `lphash_insert`, whose result is the handler's
  unfoldable pub insert : ℕ × Replay H S → ℕ → Bool × Replay H S
  insert (val, st) key =
      let (ok, htbl') = table.insert st.htbl key val in (ok, record st { htbl = htbl' })

  unfoldable pub delete : Replay H S → ℕ → Replay H S
  delete st key = record st { htbl = (table.delete st.htbl key).1 }

  abbrev pub or_false :
      Replay H S → (List ℕ → Bool × Replay H S) → Option (List ℕ) → Bool × Replay H S
  or_false st act none = (false, st)
  or_false st act (some addresses) = act addresses

  -- What the handlers do with the numbers they have read
  unfoldable pub malloc_with : Replay H S → List ℕ → Bool × Replay H S
  malloc_with st addresses =
      let sz = get_or addresses 0 0 in let key = get_or addresses 1 0 in insert (r_malloc st sz) key

  unfoldable pub calloc_with : Replay H S → List ℕ → Bool × Replay H S
  calloc_with st addresses =
      let cnt = get_or addresses 0 0 in
      let sz = get_or addresses 1 0 in
      let key = get_or addresses 2 0 in insert (r_calloc st cnt sz) key

  -- The call of `realloc` on what stands for `ptr_in`, and the update of the table
  unfoldable pub realloc_on : Replay H S → ℕ → ℕ → ℕ → ℕ → Bool × Replay H S
  realloc_on st ptr_in sz ptr_out val_old =
      let (val_new, st') = r_realloc st val_old sz in
      let renamed = insert (val_new, delete st' ptr_in) ptr_out in
      if sz == 0
      then renamed
      else (if ptr_in == ptr_out
          then (if val_old == val_new then (true, st') else renamed)
          else renamed)

  unfoldable pub realloc_with : Replay H S → List ℕ → Bool × Replay H S
  realloc_with st addresses =
      let ptr_in = get_or addresses 0 0 in
      let sz = get_or addresses 1 0 in
      let ptr_out = get_or addresses 2 0 in
      let val_old = if ptr_in == 0 then 0 else table.lookup st.htbl ptr_in in
      if not (ptr_in == 0) && val_old == 0
      then (false, st)
      else realloc_on st ptr_in sz ptr_out val_old

  unfoldable pub free_with : Replay H S → List ℕ → Bool × Replay H S
  free_with st addresses =
      let key = get_or addresses 0 0 in
      let val = table.lookup st.htbl key in
      if key == 0
      then (true, r_free st key)
      else (if not (val == 0) then (true, delete (r_free st val) key) else (true, st))

  unfoldable pub replay_malloc : Replay H S → List ℕ → Result
  replay_malloc st buffer = do
    r ← operands_of malloc_len 3 buffer
    some (or_false st (malloc_with st) r)

  unfoldable pub replay_calloc : Replay H S → List ℕ → Result
  replay_calloc st buffer = do
    r ← operands_of calloc_len 4 buffer
    some (or_false st (calloc_with st) r)

  unfoldable pub replay_realloc : Replay H S → List ℕ → Result
  replay_realloc st buffer = do
    r ← operands_of realloc_len 4 buffer
    some (or_false st (realloc_with st) r)

  unfoldable pub replay_free : Replay H S → List ℕ → Result
  replay_free st buffer = do r ← operands_of free_len 2 buffer; some (or_false st (free_with st) r)

  -- The switch of `replayline`
  abbrev pub replay_op : ℕ → Replay H S → List ℕ → Result
  replay_op opchar st buffer =
      if opchar == Char.m
      then replay_malloc st buffer
      else (if opchar == Char.f
          then replay_free st buffer
          else (if opchar == Char.c
              then replay_calloc st buffer
              else (if opchar == Char.r
                  then replay_realloc st buffer
                  else some (opchar == Char.i || opchar == Char.e, st))))

  unfoldable pub replayline : Replay H S → List ℕ → Result
  replayline st buffer =
      let replayed = replay_op (get_or buffer 0 0) st buffer in
      assert (terminated buffer) >> (if no_space buffer then some (false, st) else replayed)

  -- The exit code, the number of lines replayed, and the state at the end
  abbrev pub Ended : Type 0
  Ended = Option (ℕ × ℕ × Replay H S)

  -- After a line: the next, or the code 1
  abbrev pub after_line : ℕ → (Replay H S → Ended) → Bool × Replay H S → Ended
  after_line linecount next (true, st) = next st
  after_line linecount next (false, st) = some (1, linecount, st)

  -- After `readline`: its line is replayed, or the loop ends.
  abbrev pub after_read :
      Replay H S → ℕ → (List ℕ → List ℕ → Replay H S → Ended) → Bool × List ℕ × List ℕ → Ended
  after_read st linecount next (false, buffer, fp) = some (0, linecount, st)
  after_read st linecount next (true, buffer, fp) = do
    r ← replayline st buffer
    after_line linecount (next buffer fp) r

  -- The loop of `process_file`. Each turn that goes on takes a character at least, so a fuel beyond
  -- the length of the file is enough.
  unfoldable pub process_lines : ℕ → Replay H S → ℕ → List ℕ → List ℕ → Ended
  process_lines zero st linecount buffer fp = none
  process_lines (suc n) st linecount buffer fp = do
    r ← readline fp buffer
    after_read st linecount
        (λ buffer' fp' st'. process_lines n st' ((linecount + 1) % u64_mod) buffer' fp') r

  -- `init_lphash` and the opening of the file may fail. At the end `delete_lphash` releases the table;
  -- the state is that before it.
  unfoldable pub process_file :
      List ℕ → S → Option H → Option (List ℕ) → Option (ℕ × ℕ × Option (Replay H S))
  process_file buffer heap none fp = some (1, 0, none)
  process_file buffer heap (some htbl) none = do assert (table.destroy htbl); some (1, 0, none)
  process_file buffer heap (some htbl) (some fp) = do
    (code, linecount, st) ←
        process_lines (suc (length fp))
          (record {
            htbl = htbl;
            heap = heap;
            malloc_count = 0;
            free_count = 0;
            calloc_count = 0;
            realloc_count = 0;
          })
          0 (set buffer buffersz 0) fp
    assert (table.destroy st.htbl)
    some (code, linecount, some st)
