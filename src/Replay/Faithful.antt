-- ===== src/Replay/Faithful.antt =====
-- A program that is recorded by mhook.c and replayed by replaylib.c on the same allocator.
use sri_glibc_malloc.Base.{
  ℕ, ◌+◌, ◌%◌, ◌^◌, ◌≡◌, refl, Bool, true, false, ◌&&◌, ◌||◌, not, List, [], ◌∷◌, ltb, ◌==◌,
  if◌then◌else◌, inl, inr, Bool-cases, ==_true, arith, All,
}
use sri_glibc_malloc.Utils.{u64_mod}
use sri_glibc_malloc.Mhook.{Libc}
use sri_glibc_malloc.Mhook.Event.{Event, operands}
use sri_glibc_malloc.Mhook.Transparent.{
  Request, malloc_request, free_request, calloc_request, realloc_request, served, event_of, history,
}
use sri_glibc_malloc.Replay.Table.{Content, top, below_top, pushed, popped}
use sri_glibc_malloc.Replay.Parse.{fits, clip}
use sri_glibc_malloc.Replay.Handlers.{Allocator}
use sri_glibc_malloc.Replay.Spec.{replay_event, replay_events}
use sri_glibc_malloc.Replay.Process.{AllFit}

-- The number is not clipped.
abbrev pub is_signed : ℕ → Bool
is_signed v = ltb v (2 ^ 63)

-- Each address stands for itself.
abbrev pub OwnNames : Content → Type 0
OwnNames c = (k : ℕ) → All (λ v. v == k) (c k)

module _ {S : Type 0} (libc : Libc S) where
  -- The allocator that the recorded program used
  abbrev pub same_allocator : Allocator S
  same_allocator = record {
    malloc = libc.libc_malloc;
    free = libc.libc_free;
    calloc = libc.libc_calloc;
    realloc = libc.libc_realloc;
  }

  -- The addresses that the program may still give to `free` and `realloc`: calls have returned them,
  -- and no call of `free` or `realloc` has been given them since, not even a `realloc` that failed.
  abbrev pub held_after : (ℕ → Bool) → Request → ℕ → ℕ → Bool
  held_after held (malloc_request size caller) q k = not (q == 0) && q == k || held k
  held_after held (calloc_request nmemb size caller) q k = not (q == 0) && q == k || held k
  held_after held (free_request p caller) q k = not (p == k) && held k
  held_after held (realloc_request p size caller) q k =
      not (q == 0) && q == k || (not (p == k) && held k)

  abbrev pub is_tidy : (ℕ → Bool) → Request → Bool
  is_tidy held (free_request p caller) = p == 0 || held p
  is_tidy held (realloc_request p size caller) = p == 0 || held p
  is_tidy held r = true

  abbrev pub next_event : Request → S → Event
  next_event r s = event_of libc r (served libc r s).0

  -- Every call of `free` and `realloc` is given NULL or such an address, and all numbers of the calls
  -- and their results are below 2 ^ 63.
  unfoldable pub IsTidy : List Request → (ℕ → Bool) → S → Type 0
  IsTidy [] held s = Unit {0}
  IsTidy (r ∷ rs) held s =
      (is_tidy held r ≡ true)
      × All is_signed (operands (next_event r s))
      × IsTidy rs (held_after held r (served libc r s).0) (served libc r s).1

  -- The replay's table has every address that is held.
  abbrev Covers : (ℕ → Bool) → Content → Type 0
  Covers held c = (k : ℕ) → held k ≡ true → (top (c k) == 0) ≡ false

  clip-signed : (v : ℕ) → is_signed v ≡ true → clip v ≡ v
  clip-signed v h = ground arith

  pushed-OwnNames : (c : Content) (k : ℕ) → OwnNames c → OwnNames (pushed c k k)
  pushed-OwnNames c k own j = elim (Bool-cases (k == j)) [
    | inl e ↦ rw e (e, own j)
    | inr e ↦ rw e (own j)
  ]

  popped-OwnNames : (c : Content) (k : ℕ) → OwnNames c → OwnNames (popped c k)
  popped-OwnNames c k own j = elim (Bool-cases (k == j)) [
    | inl e ↦ rw e (below (c j) (own j))
    | inr e ↦ rw e (own j)
  ]
    where
      below : (vs : List ℕ) → All (λ v. v == j) vs → All (λ v. v == j) (below_top vs)
      below [] a = tt
      below (v ∷ vs) a = a.1

  top-own : (k : ℕ) (vs : List ℕ) → All (λ v. v == k) vs → (top vs == 0) ≡ false → top vs ≡ k
  top-own k [] a held = absurd (ground (arith, held))
  top-own k (v ∷ vs) a held = ground (arith, a.0)

  -- What `realloc` leaves if the replay returns what the program got
  abbrev renamed_own : Content → ℕ → ℕ → ℕ → Content
  renamed_own c p size q =
      if not (size == 0) && (p == q && p == q) then c else pushed (popped c p) q q

  renamed_own-OwnNames :
      (c : Content) (p size q : ℕ) → OwnNames c → OwnNames (renamed_own c p size q)
  renamed_own-OwnNames c p size q own = elim (Bool-cases (not (size == 0) && (p == q && p == q))) [
    | inl e ↦ rw e own
    | inr e ↦ rw e (pushed-OwnNames (popped c p) q (popped-OwnNames c p own))
  ]

  nonzero-held :
      (held : ℕ → Bool) (c : Content) (k : ℕ)
      → OwnNames c
      → Covers held c
      → held k ≡ true
      → (k == 0) ≡ false
  nonzero-held held c k own cover h = elim (Bool-cases (k == 0)) [
    | inl null ↦
        let itself : top (c k) ≡ k = top-own k (c k) (own k) (cover k h) in
        absurd (ground (arith, itself, null, cover k h))
    | inr e ↦ e
  ]

  pushed-Covers :
      (held : ℕ → Bool) (c : Content) (q : ℕ)
      → OwnNames c
      → Covers held c
      → Covers (λ k. not (q == 0) && q == k || held k) (pushed c q q)
  pushed-Covers held c q own cover k h = elim (Bool-cases (q == k)) [
    | inl e ↦ rw e (elim (Bool-cases (q == 0)) [
      | inl null ↦
          let before : held k ≡ true = ground (arith, h, null) in
          absurd (ground (arith, nonzero-held held c k own cover before, e, null))
      | inr full ↦ full
    ])
    | inr e ↦ let before : held k ≡ true = ground (arith, h, e) in rw e (cover k before)
  ]

  popped-Covers :
      (held : ℕ → Bool) (c : Content) (p : ℕ)
      → Covers held c
      → Covers (λ k. not (p == k) && held k) (popped c p)
  popped-Covers held c p cover k h =
      let other : (p == k) ≡ false = ground (arith, h) in
      let before : held k ≡ true = ground (arith, h) in rw other (cover k before)

  renamed_own-Covers :
      (held : ℕ → Bool) (c : Content) (p size q : ℕ)
      → OwnNames c
      → Covers held c
      → (p == 0 || held p) ≡ true
      → Covers (λ k. not (q == 0) && q == k || (not (p == k) && held k)) (renamed_own c p size q)
  renamed_own-Covers held c p size q own cover tidy =
      elim (Bool-cases (not (size == 0) && (p == q && p == q))) [
        | inl e ↦ rw e (λ k h. elim (Bool-cases (p == k)) [
          | inl same ↦
              let here : p ≡ k = ==_true p k same in
              let given : held p ≡ true = ground (arith, h, e, same, tidy) in
              rw (← here) (cover p given)
          | inr other ↦ let before : held k ≡ true = ground (arith, h, e, other) in cover k before
        ])
        | inr e ↦ rw e (
            pushed-Covers (λ k. not (p == k) && held k) (popped c p) q (popped-OwnNames c p own)
              (popped-Covers held c p cover))
      ]

  -- The replay of a tidy call does what the call did.
  step :
      (r : Request) (held : ℕ → Bool) (c : Content) (s : S)
      → OwnNames c
      → Covers held c
      → is_tidy held r ≡ true
      → All is_signed (operands (next_event r s))
      → (c' : Content) × (replay_event same_allocator (next_event r s) c s
          ≡ (true, c', (served libc r s).1))
        × OwnNames c'
        × Covers (held_after held r (served libc r s).0) c'
  step (malloc_request size caller) held c s own cover tidy (size_fits, (result_fits, a)) =
      let result = (libc.libc_malloc size s).0 in
      (
        pushed c result result,
        rw (clip-signed size size_fits, clip-signed result result_fits),
        pushed-OwnNames c result own,
        pushed-Covers held c result own cover,
      )
  step (calloc_request nmemb size caller) held c s own cover tidy
        (nmemb_fits, (size_fits, (result_fits, a))) =
      let result = (libc.libc_calloc nmemb size s).0 in
      (
        pushed c result result,
        rw (
          clip-signed nmemb nmemb_fits,
          clip-signed size size_fits,
          clip-signed result result_fits,
        ),
        pushed-OwnNames c result own,
        pushed-Covers held c result own cover,
      )
  step (free_request p caller) held c s own cover tidy (p_fits, a) = elim (Bool-cases (p == 0)) [
    | inl e ↦
        let null_freed : p ≡ 0 = ground arith in
        (c, rw (clip-signed p p_fits, e, null_freed), own, λ k h. cover k (ground (arith, h)))
    | inr e ↦
        let given : held p ≡ true = ground (arith, tidy, e) in
        let stands : (top (c p) == 0) ≡ false = cover p given in
        (
          popped c p,
          rw (clip-signed p p_fits, e, stands, top-own p (c p) (own p) stands),
          popped-OwnNames c p own,
          popped-Covers held c p cover,
        )
  ]
  step (realloc_request p size caller) held c s own cover tidy
        (p_fits, (size_fits, (result_fits, a))) =
      let result = (libc.libc_realloc p size s).0 in
      let own' = renamed_own-OwnNames c p size result own in
      elim (Bool-cases (p == 0)) [
        | inl e ↦
            let null_given : p ≡ 0 = ground arith in
            (
              renamed_own c p size result,
              rw (
                clip-signed p p_fits,
                clip-signed size size_fits,
                clip-signed result result_fits,
                e,
                null_given,
              ),
              own',
              renamed_own-Covers held c p size result own cover tidy,
            )
        | inr e ↦
            let given : held p ≡ true = ground (arith, tidy, e) in
            let stands : (top (c p) == 0) ≡ false = cover p given in
            (
              renamed_own c p size result,
              rw (
                clip-signed p p_fits,
                clip-signed size size_fits,
                clip-signed result result_fits,
                e,
                stands,
                top-own p (c p) (own p) stands,
              ),
              own',
              renamed_own-Covers held c p size result own cover tidy,
            )
      ]

  fits_of : (vs : List ℕ) → All is_signed vs → All fits vs
  fits_of [] a = tt
  fits_of (v ∷ vs) (h, a) = (ground (arith, h), fits_of vs a)

  pub AllFit-tidy :
      (rs : List Request) (held : ℕ → Bool) (s : S)
      → IsTidy rs held s
      → AllFit (history libc rs s).1
  unfolding history IsTidy
  AllFit-tidy [] held s tidy = tt
  AllFit-tidy (r ∷ rs) held s (tidy, a, later) = (
    fits_of (operands (next_event r s)) a,
    AllFit-tidy rs (held_after held r (served libc r s).0) (served libc r s).1 later,
  )

  pub replay_events-history :
      (rs : List Request) (held : ℕ → Bool) (c : Content) (s : S) (lines : ℕ)
      → OwnNames c
      → Covers held c
      → IsTidy rs held s
      → (n : ℕ) × (c' : Content) × (replay_events same_allocator (history libc rs s).1 lines c s
          ≡ (0, n, c', (history libc rs s).2))
  unfolding history replay_events IsTidy
  replay_events-history [] held c s lines own cover tidy = (lines, c, refl)
  replay_events-history (r ∷ rs) held c s lines own cover (tidy, a, later) =
      let (c', run, own', cover') = step r held c s own cover tidy a in
      let (n, c'', run') =
        replay_events-history rs (held_after held r (served libc r s).0) c' (served libc r s).1
          ((lines + 1) % u64_mod) own' cover' later in
      (n, c'', rw (run, run'))
