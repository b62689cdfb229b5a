-- ===== src/Metadata/Client/History.antt =====
-- The life of a table: what `init_metadata` makes, and every operation of its clients after
-- another.
use sri_glibc_malloc.Base.{
  ℕ, zero, suc, ◌+◌, ◌^◌, ◌<◌, ◌≡◌, refl, sym, ◌∙◌, Bool, true, false, Option, none, some, [],
  arith, Returns, inl, inr, eq_of_some,
}
use mathlib.Core.Path.{subst}
use sri_glibc_malloc.Utils.{Mmap}
use sri_glibc_malloc.Memcxt.{Memcxt, Slot}
use sri_glibc_malloc.Memcxt.Laws.{IsMemcxt, SegmentsFresh, BucketsFresh, segment_used}
use sri_glibc_malloc.Metadata.{Bucket, Metadata}
use sri_glibc_malloc.Metadata.Content.{Bins, sum, sum_bins}
use sri_glibc_malloc.Metadata.Store.{bin_at}
use sri_glibc_malloc.Metadata.Store.Live.{at_slot, one}
use sri_glibc_malloc.Metadata.Store.Table.{IsTable, IsCounted, buckets_of, total}
use sri_glibc_malloc.Metadata.Expand.Correct.{CanExpand, Kept}
use sri_glibc_malloc.Metadata.Contract.Table.{CanContract}
use sri_glibc_malloc.Metadata.Init.{init_metadata}
use sri_glibc_malloc.Metadata.Init.Ready.{Empty, EmptyOr, init_metadata-EmptyOr}
use sri_glibc_malloc.Metadata.Access.{metadata_lookup, metadata_delete, metadata_delete_all}
use sri_glibc_malloc.Metadata.Access.Lookup.{metadata_lookup-first, first_of}
use sri_glibc_malloc.Metadata.Access.Delete.{DeletedFirst, DeletedOr, metadata_delete-DeletedFirst}
use sri_glibc_malloc.Metadata.Access.DeleteAll.{metadata_delete_all-DeletedAll}
use sri_glibc_malloc.Metadata.Client.{metadata_insert_chunk}
use sri_glibc_malloc.Metadata.Client.Inserted.{InsertedOr, metadata_insert_chunk-InsertedOr}
use sri_glibc_malloc.Variant.{Variant}

module _ ⦃code : Variant⦄ where
  -- A call of a client, with what the system answers to `mmap` during it
  pub data Operation : Type 0 where
    insert_chunk : Mmap → ℕ → Operation
    lookup : ℕ → Operation
    delete : Mmap → ℕ → Operation
    delete_all : Mmap → ℕ → Operation

  abbrev pub after {ℓ} : {A : Type ℓ} → Option (A × Metadata) → Option Metadata
  after none = none
  after (some (result, t)) = some t

  -- The table after the call, or `none` if it aborts
  unfoldable pub operate : Operation → Metadata → Option Metadata
  operate (insert_chunk mmap chunk) t = after (metadata_insert_chunk mmap t chunk)
  operate (lookup chunk) t = after (metadata_lookup t chunk)
  operate (delete mmap chunk) t = after (metadata_delete mmap t chunk)
  operate (delete_all mmap chunk) t = after (metadata_delete_all mmap t chunk)

  -- What an insertion needs: at most 2 ^ 31 - 256 bins, a count that can be increased, and a system that
  -- maps no new pool or directory over the old ones
  pub record Room (mmap : Mmap) (t : Metadata) : Type 0 where
    pub expands : CanExpand mmap t
    pub fresh : BucketsFresh mmap t.memcxt
    pub countable : t.count + 1 < 2 ^ 64

  -- The conditions of each call
  abbrev pub Granted : Operation → Metadata → Type 0
  Granted (insert_chunk mmap chunk) t = Room mmap t
  Granted (lookup chunk) t = Unit {0}
  Granted (delete mmap chunk) t = CanContract mmap t
  Granted (delete_all mmap chunk) t = CanContract mmap t

  -- The tables that a history of calls can reach
  pub data Reachable : Metadata → Type 0 where
    made :
        (mmap : Mmap) (old : Metadata) (m : Memcxt) (t : Metadata)
        → IsMemcxt m
        → SegmentsFresh mmap m
        → ((s : Slot) (j : ℕ) → j < 256 → segment_used m s ≡ false → old.bins s j ≡ [])
        → init_metadata mmap old m ≡ some (true, t)
        → Reachable t
    then_called :
        (op : Operation) (t t' : Metadata)
        → Reachable t
        → Granted op t
        → operate op t ≡ some t'
        → Reachable t'

  abbrev pub Right : Metadata → Type 0
  Right t = IsTable t × IsCounted t

  sum_bins-empty : (w : Bucket → ℕ) (n : ℕ) (f : Bins) → ((i : ℕ) → f i ≡ []) → sum_bins w n f ≡ 0
  unfolding sum_bins sum
  sum_bins-empty w zero f empty = refl
  sum_bins-empty w (suc n) f empty = rw (sum_bins-empty w n f empty, empty n)

  pub Empty-Right : (m : Memcxt) (t : Metadata) → Empty m t → Right t
  unfolding total
  Empty-Right m t e =
      let nothing = λ (w : Bucket → ℕ). sum_bins-empty w t.bincount (bin_at t) e.bins in
      (
        e.table,
        record {
          counted = e.count ∙ sym (nothing one);
          bound = omega (arith, e.count);
          live = λ s. omega (arith, nothing (at_slot s));
        },
      )

  Kept-Right : (t t' : Metadata) → IsCounted t → Kept t t' → Right t'
  Kept-Right t t' books kept = (
    kept.table,
    record {
      counted = kept.count ∙ (books.counted ∙ sym (kept.same.totals one));
      bound = omega (arith, kept.count, books.bound);
      live = λ s. rw (kept.same.totals (at_slot s), kept.used s) (books.live s);
    },
  )

  Inserted-Right :
      (mmap : Mmap) (t : Metadata) (chunk : ℕ) (r : Bool × Metadata)
      → Right t
      → InsertedOr mmap t chunk r
      → Right r.1
  Inserted-Right mmap t chunk r right (inl (failed, same, refused)) = subst Right (sym same) right
  Inserted-Right mmap t chunk r right (inr (i, step)) = (i.table, i.books)

  Deleted-Right :
      (t : Metadata) (r : Bool × Metadata) (b : Option Bucket)
      → Right t
      → DeletedOr t r.0 r.1 b
      → Right r.1
  Deleted-Right t r none right (failed, same) = subst Right (sym same) right
  Deleted-Right t r (some b) right (ok, d) = (d.table, d.books)

  -- A call under these conditions returns, and keeps the invariant and the books.
  operate-Right :
      (op : Operation) (t : Metadata) → Right t → Granted op t → Returns (operate op t) Right
  unfolding operate DeletedFirst
  operate-Right (insert_chunk mmap chunk) t (is, books) room =
      let (r, run, post) =
        metadata_insert_chunk-InsertedOr mmap t is books room.expands room.fresh room.countable
          chunk in
      (r.1, rw run, Inserted-Right mmap t chunk r (is, books) post)
  operate-Right (lookup chunk) t (is, books) granted =
      let (t', run, kept) = metadata_lookup-first t is chunk in
      (t', rw run, Kept-Right t t' books kept)
  operate-Right (delete mmap chunk) t (is, books) can =
      let (r, run, post) = metadata_delete-DeletedFirst t mmap chunk is books can in
      (r.1, rw run, Deleted-Right t r (first_of (buckets_of t chunk)) (is, books) post)
  operate-Right (delete_all mmap chunk) t (is, books) can =
      let (r, run, post) = metadata_delete_all-DeletedAll t mmap chunk is books can in
      (r.1, rw run, (post.table, post.books))

  -- The invariant and the books hold in every table that `init_metadata` makes, with right pools that
  -- nothing new is mapped over and whose free segments are clear, and that calls of the clients change,
  -- where each insertion finds at most 2 ^ 31 - 256 bins, a count below 2 ^ 64 - 1 and a
  -- system that maps no new pool or directory over the old ones, and each deletion a system that maps
  -- a new directory when it is asked to, elsewhere than the old one.
  pub Reachable-Right : {t : Metadata} → Reachable t → Right t
  Reachable-Right (made mmap old m t ok fresh clean run) =
      let (r, run', post) = init_metadata-EmptyOr mmap old m ok fresh clean in
      let same : r ≡ (true, t) = eq_of_some r (true, t) (sym run' ∙ run) in
      Empty-Right m t (subst (EmptyOr m) same post)
  Reachable-Right (then_called op t t' reached granted run) =
      let (u, run', right) = operate-Right op t (Reachable-Right reached) granted in
      subst Right (eq_of_some u t' (sym run' ∙ run)) right

  -- In a table with such a history a lookup returns, with no assertion failed, and leaves a table with
  -- such a history; so does an insertion, with at most 2 ^ 31 - 256 bins, a count below 2 ^ 64 - 1 and a
  -- system that maps no new pool or directory over the old ones; and so does a deletion, of one bucket
  -- or of a chunk's, on a system that maps a new directory when it is asked to, elsewhere than the old.
  pub Reachable-Returns :
      (op : Operation) (t : Metadata)
      → Reachable t
      → Granted op t
      → Returns (operate op t) Reachable
  Reachable-Returns op t reached granted =
      let (t', run, right) = operate-Right op t (Reachable-Right reached) granted in
      (t', run, then_called op t t' reached granted run)
