-- ===== src/Replay/Spec.antt =====
-- What a replay does, without lines, buffers and a hash table: each address in the log has a stack
-- of addresses that stand for it.
use sri_glibc_malloc.Base.{
  ℕ, ◌+◌, ◌%◌, ◌≡◌, Bool, true, false, ◌&&◌, not, List, [], ◌∷◌, ◌==◌, if◌then◌else◌,
}
use sri_glibc_malloc.Utils.{u64_mod}
use sri_glibc_malloc.Mhook.Event.{
  Event, malloc_event, free_event, calloc_event, realloc_event, init_event, exit_event,
}
use sri_glibc_malloc.Replay.Table.{Content, PointerTable, top, pushed, popped}
use sri_glibc_malloc.Replay.Parse.{clip}
use sri_glibc_malloc.Replay.Handlers.{Allocator, Replay}

module _ {S : Type 0} (alloc : Allocator S) where
  -- Whether the replay goes on, and the stacks and the heap then
  abbrev pub After : Type 0
  After = Bool × Content × S

  -- A new address stands for `key`.
  abbrev pub named : Content → ℕ → ℕ × S → After
  named c key (v, s) = (true, pushed c key v, s)

  abbrev pub replayed_free : Content → S → ℕ → After
  replayed_free c s key =
      if key == 0
      then (true, c, alloc.free 0 s)
      else (if top (c key) == 0
          then (true, c, s)
          else (true, popped c key, alloc.free (top (c key)) s))

  -- The stacks after `realloc`, where `old` stands for `ptr_in`: unchanged if the block stayed in
  -- place both in the log and here
  abbrev pub renamed : Content → ℕ → ℕ → ℕ → ℕ → ℕ × S → After
  renamed c ptr_in sz ptr_out old (v, s) = (
    true,
    if not (sz == 0) && (ptr_in == ptr_out && old == v)
        then c
        else pushed (popped c ptr_in) ptr_out v,
    s,
  )

  abbrev pub replayed_realloc : Content → S → ℕ → ℕ → ℕ → After
  replayed_realloc c s ptr_in sz ptr_out =
      let old = if ptr_in == 0 then 0 else top (c ptr_in) in
      if not (ptr_in == 0) && old == 0
      then (false, c, s)
      else renamed c ptr_in sz ptr_out old (alloc.realloc old sz s)

  -- The numbers of the log are clipped.
  abbrev pub replay_event : Event → Content → S → After
  replay_event (malloc_event size result caller) c s =
      named c (clip result) (alloc.malloc (clip size) s)
  replay_event (free_event p caller) c s = replayed_free c s (clip p)
  replay_event (calloc_event nemb size result caller) c s =
      named c (clip result) (alloc.calloc (clip nemb) (clip size) s)
  replay_event (realloc_event p size result caller) c s =
      replayed_realloc c s (clip p) (clip size) (clip result)
  replay_event init_event c s = (true, c, s)
  replay_event exit_event c s = (true, c, s)

  abbrev pub carry_on : ℕ → (Content → S → ℕ × ℕ × Content × S) → After → ℕ × ℕ × Content × S
  carry_on lines next (true, c, s) = next c s
  carry_on lines next (false, c, s) = (1, lines, c, s)

  -- The exit code, the number of lines replayed, the stacks and the heap at the end
  unfoldable pub replay_events : List Event → ℕ → Content → S → ℕ × ℕ × Content × S
  replay_events [] lines c s = (0, lines, c, s)
  replay_events (e ∷ es) lines c s =
      carry_on lines (replay_events es ((lines + 1) % u64_mod)) (replay_event e c s)

  module _ {H : Type 0} (table : PointerTable H) where
    -- The outcome of a handler is one of the specification, with room for `n` more insertions.
    pub record Agrees (n : ℕ) (r : Bool × Replay H S) (a : After) : Type 0 where
      pub goes_on : r.0 ≡ a.0
      pub stacks : table.content r.1.htbl ≡ a.1
      pub heap : r.1.heap ≡ a.2
      pub room : table.room r.1.htbl n
