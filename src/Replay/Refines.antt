-- ===== src/Replay/Refines.antt =====
-- The handlers of the replay do what the specification says.
use sri_glibc_malloc.Base.{
  ℕ, suc, ◌≡◌, refl, ap, ◌∙◌, true, [], ◌∷◌, ◌==◌, inl, inr, Bool-cases, arith,
}
use sri_glibc_malloc.Mhook.Event.{malloc_event, free_event, calloc_event, realloc_event}
use sri_glibc_malloc.Replay.Table.{PointerTable, top, pushed, popped}
use sri_glibc_malloc.Replay.Parse.{clip, clipped}
use sri_glibc_malloc.Replay.Handlers.{
  Allocator, Replay, r_malloc, r_calloc, r_realloc, r_free, insert, delete, malloc_with,
  calloc_with, realloc_on, realloc_with, free_with,
}
use sri_glibc_malloc.Replay.Spec.{named, renamed, replay_event, Agrees}

module _ {H S : Type 0} (table : PointerTable H) (alloc : Allocator S) where
  insert-named :
      (n val : ℕ) (st : Replay H S) (key : ℕ)
      → table.room st.htbl (suc n)
      → Agrees alloc table n
          (insert table alloc (val, st) key)
          (named alloc (table.content st.htbl) key (val, st.heap))
  unfolding insert
  insert-named n val st key room =
      let (ok, left) = table.insert_room st.htbl n key val room in
      record {
        goes_on = ok;
        stacks = table.insert_content st.htbl key val ok;
        heap = refl;
        room = left;
      }

  pub malloc_with-named :
      (n : ℕ) (st : Replay H S) (size result caller : ℕ)
      → table.room st.htbl (suc n)
      → Agrees alloc table n
          (malloc_with table alloc st (clipped (size ∷ result ∷ caller ∷ [])))
          (replay_event alloc (malloc_event size result caller) (table.content st.htbl) st.heap)
  unfolding malloc_with r_malloc
  malloc_with-named n st size result caller room =
      insert-named n (alloc.malloc (clip size) st.heap).0 (r_malloc table alloc st (clip size)).1
        (clip result) room

  pub calloc_with-named :
      (n : ℕ) (st : Replay H S) (nemb size result caller : ℕ)
      → table.room st.htbl (suc n)
      → Agrees alloc table n
          (calloc_with table alloc st (clipped (nemb ∷ size ∷ result ∷ caller ∷ [])))
          (replay_event alloc
            (calloc_event nemb size result caller)
            (table.content st.htbl)
            st.heap)
  unfolding calloc_with r_calloc
  calloc_with-named n st nemb size result caller room =
      insert-named n (alloc.calloc (clip nemb) (clip size) st.heap).0
        (r_calloc table alloc st (clip nemb) (clip size)).1 (clip result) room

  pub free_with-freed :
      (n : ℕ) (st : Replay H S) (p caller : ℕ)
      → table.room st.htbl (suc n)
      → Agrees alloc table n
          (free_with table alloc st (clipped (p ∷ caller ∷ [])))
          (replay_event alloc (free_event p caller) (table.content st.htbl) st.heap)
  unfolding free_with r_free delete
  free_with-freed n st p caller room = elim (Bool-cases (clip p == 0)) [
    | inl e ↦
        let none : clip p ≡ 0 = ground arith in
        rw e (record {
          goes_on = refl;
          stacks = refl;
          heap = ap (λ x. alloc.free x st.heap) none;
          room = table.room_less st.htbl n room;
        })
    | inr e ↦ elim (Bool-cases (top (table.content st.htbl (clip p)) == 0)) [
      | inl absent ↦
          rw (e, table.lookup_content st.htbl (clip p), absent)
            (record {
              goes_on = refl;
              stacks = refl;
              heap = refl;
              room = table.room_less st.htbl n room;
            })
      | inr held ↦
          rw (e, table.lookup_content st.htbl (clip p), held)
            (record {
              goes_on = refl;
              stacks = table.delete_content st.htbl (clip p);
              heap = refl;
              room = table.delete_room st.htbl n (clip p) (table.room_less st.htbl n room);
            })
    ]
  ]

  renamed_in :
      (n : ℕ) (st : Replay H S) (ptr_in ptr_out v : ℕ)
      → table.room st.htbl (suc n)
      → Agrees alloc table n
          (insert table alloc (v, delete table alloc st ptr_in) ptr_out)
          (true, pushed (popped (table.content st.htbl) ptr_in) ptr_out v, st.heap)
  unfolding delete
  renamed_in n st ptr_in ptr_out v room =
      let named =
        insert-named n v (delete table alloc st ptr_in) ptr_out
          (table.delete_room st.htbl (suc n) ptr_in room) in
      record {
        goes_on = named.goes_on;
        stacks = named.stacks ∙ ap (λ c. pushed c ptr_out v) (table.delete_content st.htbl ptr_in);
        heap = named.heap;
        room = named.room;
      }

  realloc_on-renamed :
      (n : ℕ) (st : Replay H S) (ptr_in sz ptr_out old : ℕ)
      → table.room st.htbl (suc n)
      → Agrees alloc table n (realloc_on table alloc st ptr_in sz ptr_out old) (
          renamed alloc
            (table.content st.htbl)
            ptr_in
            sz
            ptr_out
            old
            (alloc.realloc old sz st.heap))
  unfolding realloc_on r_realloc
  realloc_on-renamed n st ptr_in sz ptr_out old room =
      let after = r_realloc table alloc st old sz in
      let moved = renamed_in n after.1 ptr_in ptr_out after.0 room in
      elim (Bool-cases (sz == 0)) [
        | inl e ↦ rw e moved
        | inr e ↦ elim (Bool-cases (ptr_in == ptr_out)) [
          | inl same ↦ elim (Bool-cases (old == (alloc.realloc old sz st.heap).0)) [
            | inl still ↦
                rw (e, same, still)
                  (record {
                    goes_on = refl;
                    stacks = refl;
                    heap = refl;
                    room = table.room_less st.htbl n room;
                  })
            | inr other ↦ rw (e, same, other) moved
          ]
          | inr other ↦ rw (e, other) moved
        ]
      ]

  pub realloc_with-replayed :
      (n : ℕ) (st : Replay H S) (p size result caller : ℕ)
      → table.room st.htbl (suc n)
      → Agrees alloc table n
          (realloc_with table alloc st (clipped (p ∷ size ∷ result ∷ caller ∷ [])))
          (replay_event alloc (realloc_event p size result caller) (table.content st.htbl) st.heap)
  unfolding realloc_with
  realloc_with-replayed n st p size result caller room = elim (Bool-cases (clip p == 0)) [
    | inl e ↦ rw e (realloc_on-renamed n st (clip p) (clip size) (clip result) 0 room)
    | inr e ↦ elim (Bool-cases (top (table.content st.htbl (clip p)) == 0)) [
      | inl absent ↦
          rw (e, table.lookup_content st.htbl (clip p), absent)
            (record {
              goes_on = refl;
              stacks = refl;
              heap = refl;
              room = table.room_less st.htbl n room;
            })
      | inr held ↦
          rw (e, table.lookup_content st.htbl (clip p), held)
            (realloc_on-renamed n st (clip p) (clip size) (clip result)
              (top (table.content st.htbl (clip p))) room)
    ]
  ]
