-- ===== src/Lphash/Values.antt =====
-- What a client of src/lphash/lphash.c sees of a table: the values of each key, the newest first;
-- and what `lphash_lookup` and `lphash_delete` make of them.
use sri_glibc_malloc.Base.{
  ℕ, ◌≤◌, ◌≡◌, refl, ap, ◌∙◌, Bool, true, false, Option, none, some, List, [], ◌∷◌, ◌==◌, keep, sym,
  eq_of_some, ==_true, arith, Bool-cases, inl, inr, Returns,
}
use sri_glibc_malloc.Utils.{Mmap}
use sri_glibc_malloc.Metadata.{Bucket}
use sri_glibc_malloc.Metadata.Hash.{home}
use sri_glibc_malloc.Metadata.Content.{of_chunk}
use sri_glibc_malloc.Metadata.Store.{bin_at, read_bin-bin_at}
use sri_glibc_malloc.Metadata.Store.Live.{one}
use sri_glibc_malloc.Metadata.Store.Table.{IsTable, IsCounted, buckets_of, fetch_lem}
use sri_glibc_malloc.Metadata.Contract.Table.{CanContract}
use sri_glibc_malloc.Metadata.Access.Lookup.{first_of}
use sri_glibc_malloc.Metadata.Access.Delete.{
  rest_of, DeletedOr, DeletedFirst, metadata_delete-DeletedFirst,
}
use sri_glibc_malloc.Lphash.{Lphash, lphash_lookup, lphash_delete, find_value}
use sri_glibc_malloc.Lphash.Table.{pointer_table}
use sri_glibc_malloc.Replay.Table.{Content, top, below_top, popped}

abbrev pub values : List Bucket → List ℕ
values [] = []
values (b ∷ bs) = b.fields.value ∷ values bs

unfoldable pub values_of : Lphash → Content
values_of t k = values (buckets_of t k)

find_value-top : (k : ℕ) (bs : List Bucket) → find_value k bs ≡ top (values (of_chunk k bs))
unfolding find_value keep
find_value-top k [] = refl
find_value-top k (b ∷ bs) = elim (Bool-cases (b.chunk == k)) [
  | inl e ↦ let here : (k == b.chunk) ≡ true = ground arith in rw (here, e)
  | inr e ↦ let other : (k == b.chunk) ≡ false = ground arith in rw (other, e, find_value-top k bs)
]

-- In a right table `lphash_lookup` passes its assertions and returns the newest value of the key, or
-- NULL if it has none.
pub lphash_lookup-top :
    (t : Lphash) (k : ℕ) → IsTable t → lphash_lookup t k ≡ some (top (values_of t k))
unfolding lphash_lookup values_of buckets_of
lphash_lookup-top t k is =
    let (s, at, fetch) = fetch_lem t is k in
    rw (fetch, read_bin-bin_at t is.store (home t.maxp t.p k) s at)
      (ap some (find_value-top k (bin_at t (home t.maxp t.p k))))

first_of-none : (bs : List Bucket) → first_of bs ≡ none → bs ≡ []
first_of-none [] e = refl
first_of-none (b ∷ bs) e = cc

chunk-first_of :
    (k : ℕ) (bs : List Bucket) (b : Bucket)
    → first_of (of_chunk k bs) ≡ some b
    → (b.chunk == k) ≡ true
unfolding keep
chunk-first_of k [] b e = cc
chunk-first_of k (c ∷ bs) b e = elim (Bool-cases (c.chunk == k)) [
  | inl here ↦
      let first : some c ≡ some b = rw here at e in
      ap (λ x. x.chunk == k) (eq_of_some b c (sym first)) ∙ here
  | inr there ↦ chunk-first_of k bs b (rw there at e)
]

values-rest_of : (bs : List Bucket) → values (rest_of bs) ≡ below_top (values bs)
values-rest_of [] = refl
values-rest_of (b ∷ bs) = refl

-- The values after a deletion of the key
values-deleted :
    (t t' : Lphash) (k : ℕ) (ok : Bool) (b : Option Bucket)
    → first_of (buckets_of t k) ≡ b
    → DeletedOr t ok t' b
    → (j : ℕ) → values_of t' j ≡ popped (values_of t) k j
unfolding values_of buckets_of
values-deleted t t' k ok none first (failed, same) j = elim (Bool-cases (k == j)) [
  | inl e ↦
      let empty : buckets_of t j ≡ [] =
        first_of-none (buckets_of t j)
          (ap (λ x. first_of (buckets_of t x)) (sym (==_true k j e)) ∙ first) in
      rw (same, e, empty)
  | inr e ↦ rw (same, e)
]
values-deleted t t' k ok (some b) first (done, d) j =
    let named = chunk-first_of k (bin_at t (home t.maxp t.p k)) b first in
    let same : b.chunk ≡ k = ==_true b.chunk k named in
    elim (Bool-cases (k == j)) [
      | inl e ↦ ap values (d.chunks j) ∙ rw (same, e) (values-rest_of (buckets_of t j))
      | inr e ↦ ap values (d.chunks j) ∙ rw (same, e)
    ]

abbrev pub is_held : List ℕ → Bool
is_held [] = false
is_held (v ∷ vs) = true

is_held-first_of :
    (bs : List Bucket) (b : Bucket) → first_of bs ≡ some b → is_held (values bs) ≡ true
is_held-first_of [] b e = cc
is_held-first_of (c ∷ bs) b e = refl

deleted-right :
    (t t' : Lphash) (ok : Bool) (k : ℕ) (b : Option Bucket)
    → IsTable t
    → IsCounted t
    → first_of (buckets_of t k) ≡ b
    → DeletedOr t ok t' b
    → (IsTable t' × IsCounted t')
      × (ok ≡ is_held (values_of t k))
      × (t'.bincount ≤ t.bincount)
      × (t'.count ≤ t.count)
unfolding values_of
deleted-right t t' ok k none is books first (failed, same) =
    let empty = first_of-none (buckets_of t k) first in
    (
      rw same (is, books),
      rw empty failed,
      omega (arith, ap (λ x. x.bincount) same),
      omega (arith, ap (λ x. x.count) same),
    )
deleted-right t t' ok k (some b) is books first (done, d) = (
  (d.table, d.books),
  done ∙ sym (is_held-first_of (buckets_of t k) b first),
  d.bins,
  omega (arith, d.books.counted, d.totals one, books.counted),
)

-- In a right table with right books, with what a contraction needs, `lphash_delete` passes its
-- assertions. It takes the newest value from the key, if it has one, returns whether it had, and
-- keeps the values of the other keys, the invariant and the books. There are no more bins and no
-- more buckets than before.
pub lphash_delete-popped :
    (mmap : Mmap) (t : Lphash) (k : ℕ)
    → IsTable t
    → IsCounted t
    → CanContract mmap t
    → Returns (lphash_delete mmap t k) (λ r.
      IsTable r.1
      × IsCounted r.1
      × (r.0 ≡ is_held (values_of t k))
      × ((j : ℕ) → values_of r.1 j ≡ popped (values_of t) k j)
      × (r.1.bincount ≤ t.bincount)
      × (r.1.count ≤ t.count))
unfolding DeletedFirst
lphash_delete-popped mmap t k is books can =
    let (r, run, d) = metadata_delete-DeletedFirst t mmap k is books can in
    let (right, ok, bins, count) =
      deleted-right t r.1 r.0 k (first_of (buckets_of t k)) is books refl d in
    (
      r,
      run,
      (
        right.0,
        right.1,
        ok,
        values-deleted t r.1 k r.0 (first_of (buckets_of t k)) refl d,
        bins,
        count,
      ),
    )
