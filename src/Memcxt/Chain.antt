-- ===== src/Memcxt/Chain.antt =====
-- A chain of pools: the elements in use, the allocation from a pool and from a new one, and
-- release.
use sri_glibc_malloc.Base.{
  ℕ, ◌*◌, ◌<◌, ◌≡◌, ◌∙◌, refl, ap, sym, Bool, true, false, ◌&&◌, ◌||◌, not, ltb, ◌==◌,
  if◌then◌else◌, Option, none, some, Returns, List, [], ◌∷◌, arith, Bool-cases, inl, inr,
}
use sri_glibc_malloc.Utils.{Mmap, null, sri_mmap}
use sri_glibc_malloc.Memcxt.{
  Slot, same_slot, Pool, scan_masks, take_from, past, alloc_in, first_of_new, new_pool, init_pool,
  alloc, free_slot,
}
use sri_glibc_malloc.Memcxt.Slots.{
  in_masks, Taken, Scanned, scan_masks-Scanned, IsPool, init_pool-IsPool, in_masks-replicate,
  free_index_lem, Taken-first,
}

-- The element is in use. No pool has the address that it names: it is not.
unfoldable pub in_use : List Pool → Slot → Bool
in_use [] s = false
in_use (p ∷ ps) s = if p.base == s.pool then in_masks p.bitmasks s.index else in_use ps s

-- No pool of the chain has this address.
abbrev pub IsFresh : ℕ → List Pool → Type 0
IsFresh base [] = Unit {0}
IsFresh base (p ∷ ps) = ((p.base == base) ≡ false) × IsFresh base ps

-- Every pool is right, and no two have the same address.
abbrev pub IsChain : ℕ → List Pool → Type 0
IsChain scale [] = Unit {0}
IsChain scale (p ∷ ps) = IsPool scale p × IsFresh p.base ps × IsChain scale ps

-- Every pool is full.
abbrev pub AreFull : List Pool → Type 0
AreFull [] = Unit {0}
AreFull (p ∷ ps) = (p.free_count ≡ 0) × AreFull ps

-- The same addresses in the same order
abbrev pub bases : List Pool → List ℕ
bases [] = []
bases (p ∷ ps) = p.base ∷ bases ps

pub IsFresh-bases :
    (base : ℕ) (ps qs : List Pool) → bases ps ≡ bases qs → IsFresh base ps → IsFresh base qs
IsFresh-bases base [] [] e f = tt
IsFresh-bases base [] (q ∷ qs) e f = cc
IsFresh-bases base (p ∷ ps) [] e f = cc
IsFresh-bases base (p ∷ ps) (q ∷ qs) e f =
    (ground arith, IsFresh-bases base ps qs (ground arith) f.1)

pub in_use-fresh :
    (base : ℕ) (ps : List Pool) (s : Slot)
    → IsFresh base ps
    → (base == s.pool) ≡ true
    → in_use ps s ≡ false
unfolding in_use
in_use-fresh base [] s f e = refl
in_use-fresh base (p ∷ ps) s f e = ground (arith, in_use-fresh base ps s f.1)

-- `ps'` is `ps` with the element `s`, which was free, in use.
pub record Allocated (scale : ℕ) (ps : List Pool) (s : Slot) (ps' : List Pool) : Type 0 where
  pub in_range : s.index < 64 * scale
  pub was_free : in_use ps s ≡ false
  pub chain : IsChain scale ps'
  pub reads : (t : Slot) → in_use ps' t ≡ (same_slot t s || in_use ps t)

abbrev pub AllocatedIn : ℕ → List Pool → Option (Slot × List Pool) → Type 0
AllocatedIn scale ps none = AreFull ps
AllocatedIn scale ps (some (s, ps')) = Allocated scale ps s ps' × (bases ps ≡ bases ps')

module _ (scale : ℕ) (p : Pool) (ps : List Pool) (is : IsPool scale p) (fresh : IsFresh p.base ps)
    (rest : IsChain scale ps) where
  Allocated-here :
      (o : ℕ) (ms : List ℕ)
      → Taken p.bitmasks o ms
      → AllocatedIn scale (p ∷ ps) (some (take_from p ps (o, ms)))
  unfolding in_use
  Allocated-here o ms t = (
    record {
      in_range = omega (arith, is.width, t.in_range);
      was_free = ground (arith, t.was_free);
      chain = (
        record {
          words = t.words;
          width = t.width ∙ is.width;
          counted = omega (arith, is.counted, t.counted);
        },
        fresh,
        rest,
      );
      reads = λ s. ground (arith, t.reads s.index);
    },
    refl,
  )

  Allocated-past :
      (r : Option (Slot × List Pool))
      → p.free_count ≡ 0
      → AllocatedIn scale ps r
      → AllocatedIn scale (p ∷ ps) (past p r)
  unfolding in_use
  Allocated-past none e h = (e, h)
  Allocated-past (some (s, ps')) e (a, b) =
      let fresh' = IsFresh-bases p.base ps ps' b fresh in
      let apart : (p.base == s.pool) ≡ false =
        ground (arith, in_use-fresh p.base ps' s fresh', a.reads s) in
      (
        record {
          in_range = a.in_range;
          was_free = ground arith;
          chain = (is, fresh', a.chain);
          reads = λ t. ground (arith, a.reads t);
        },
        ap (λ l. p.base ∷ l) b,
      )

module _ (scale : ℕ) (p : Pool) (ps : List Pool) (is : IsPool scale p) (fresh : IsFresh p.base ps)
    (rest : IsChain scale ps) (room : ltb 0 p.free_count ≡ true) where
  -- A pool that counts a free element has one.
  alloc_in-here :
      (f : Option (ℕ × List ℕ))
      → scan_masks 0 p.bitmasks ≡ some f
      → Scanned 0 p.bitmasks f
      → Returns (alloc_in (p ∷ ps)) (AllocatedIn scale (p ∷ ps))
  unfolding alloc_in
  alloc_in-here none run none_free = absurd (ground (arith, is.counted))
  alloc_in-here (some (index, ms)) run (o, at, t) =
      let same : index ≡ o = omega arith in
      (
        some (take_from p ps (index, ms)),
        rw (room, run),
        rw same (Allocated-here scale p ps is fresh rest o ms t),
      )

-- The search of the existing pools ends without an abort. It finds a free element if there is one.
alloc_in-AllocatedIn :
    (scale : ℕ) (ps : List Pool) → IsChain scale ps → Returns (alloc_in ps) (AllocatedIn scale ps)
unfolding alloc_in
alloc_in-AllocatedIn scale [] c = (none, refl, tt)
alloc_in-AllocatedIn scale (p ∷ ps) (is, fresh, rest) =
    let (r, later, found) = alloc_in-AllocatedIn scale ps rest in
    elim (Bool-cases (ltb 0 p.free_count)) [
      | inr full ↦ (
        past p r,
        rw (full, later),
        Allocated-past scale p ps is fresh rest r (ground arith) found,
      )
      | inl room ↦
          let (f, run, scanned) = scan_masks-Scanned 0 p.bitmasks is.words in
          alloc_in-here scale p ps is fresh rest room f run scanned
    ]

module _ (scale size : ℕ) (mmap : Mmap) (ps : List Pool) (chain : IsChain scale ps)
    (pos : 0 < scale) (fresh : IsFresh (sri_mmap mmap null size) ps) where
  -- What `alloc_bucket` and `alloc_segment` return: an element that was free and is now in use, or
  -- `NULL` with nothing changed, when every pool is full and `mmap` has failed.
  abbrev pub AllocatedOr : Option Slot × List Pool → Type 0
  AllocatedOr (none, ps') = (ps' ≡ ps) × AreFull ps × (sri_mmap mmap null size ≡ null)
  AllocatedOr (some s, ps') = Allocated scale ps s ps'

  in_use-init_pool :
      (base : ℕ) → IsFresh base ps → (t : Slot) → in_use (init_pool scale base ∷ ps) t ≡ in_use ps t
  unfolding in_use init_pool
  in_use-init_pool base f t =
      ground (arith, in_use-fresh base ps t f, in_masks-replicate scale t.index)

  Allocated-new :
      (base : ℕ)
      → IsFresh base ps
      → AllocatedOr
          (some (record { pool = base; index = 0 }), (first_of_new (init_pool scale base) ps).1)
  unfolding init_pool
  Allocated-new base f =
      let (a, b) =
        Allocated-here scale (init_pool scale base) ps (init_pool-IsPool scale base) f chain 0 _
          (Taken-first scale pos) in
      record {
        in_range = a.in_range;
        was_free = sym (in_use-init_pool base f _) ∙ a.was_free;
        chain = a.chain;
        reads = λ t.
            a.reads t
            ∙ ap (λ x. same_slot t (record { pool = base; index = 0 }) || x)
                (in_use-init_pool base f t);
      }

  AllocatedOr-new :
      AreFull ps → alloc_in ps ≡ some none → Returns (alloc scale size mmap ps) AllocatedOr
  unfolding alloc init_pool sri_mmap
  AllocatedOr-new full run = elim (Bool-cases (sri_mmap mmap null size == null)) [
    | inl failed ↦
        let none_new : new_pool scale size mmap ≡ none = unfold new_pool in rw failed in
        ((none, ps), rw (run, none_new), (refl, full, ground arith))
    | inr got ↦
        let base = sri_mmap mmap null size in
        let new : new_pool scale size mmap ≡ some (init_pool scale base) =
          unfold new_pool in rw got in
        (
          (some (record { pool = base; index = 0 }), (first_of_new (init_pool scale base) ps).1),
          rw (run, new),
          Allocated-new base fresh,
        )
  ]

  AllocatedOr-old :
      (r : Option (Slot × List Pool))
      → AllocatedIn scale ps r
      → alloc_in ps ≡ some r
      → Returns (alloc scale size mmap ps) AllocatedOr
  unfolding alloc
  AllocatedOr-old none full run = AllocatedOr-new full run
  AllocatedOr-old (some (s, ps')) a run = ((some s, ps'), rw run, a.0)

  -- For pools that are right and a mapping at a new address, `alloc_bucket` and `alloc_segment`
  -- return an element that was free and is now in use, with no other changed, or `NULL` with
  -- nothing changed, when every pool is full and `mmap` has failed.
  pub alloc-AllocatedOr : Returns (alloc scale size mmap ps) AllocatedOr
  alloc-AllocatedOr =
      let (r, run, a) = alloc_in-AllocatedIn scale ps chain in AllocatedOr-old r a run

-- `ps'` is `ps` with the element `s`, which was in use, free.
pub record Freed (scale : ℕ) (ps : List Pool) (s : Slot) (ps' : List Pool) : Type 0 where
  pub chain : IsChain scale ps'
  pub same_bases : bases ps ≡ bases ps'
  pub reads : (t : Slot) → in_use ps' t ≡ (in_use ps t && not (same_slot t s))

-- In a chain of pools that are right, freeing an element in use passes every assertion, frees that
-- element alone, and keeps the chain right.
pub free_slot-Freed :
    (scale : ℕ) (ps : List Pool) (s : Slot)
    → IsChain scale ps
    → s.index < 64 * scale
    → in_use ps s ≡ true
    → Returns (free_slot scale ps s) (Freed scale ps s)
unfolding free_slot in_use
free_slot-Freed scale [] s chain h used = cc
free_slot-Freed scale (p ∷ ps) s (is, fresh, rest) h used = elim (Bool-cases (p.base == s.pool)) [
  | inl here ↦
      let (p', run, (is', base, count, reads)) =
        free_index_lem scale p s.index is h (ground arith) in
      (
        p' ∷ ps,
        rw (here, run),
        record {
          chain = (is', rw base fresh, rest);
          same_bases = ap (λ b. b ∷ bases ps) (sym base);
          reads = λ t. ground (arith, reads t.index);
        },
      )
  | inr there ↦
      let (ps', run, f) = free_slot-Freed scale ps s rest h (ground arith) in
      (
        p ∷ ps',
        rw (there, run),
        record {
          chain = (is, IsFresh-bases p.base ps ps' f.same_bases fresh, f.chain);
          same_bases = ap (λ l. p.base ∷ l) f.same_bases;
          reads = λ t. ground (arith, f.reads t);
        },
      )
]
