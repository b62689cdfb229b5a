-- ===== src/Metadata/Client/Allocated.antt =====
-- `allocate_chunkinfoptr`: the table before and after.
use sri_glibc_malloc.Base.{◌*◌, ◌<◌, ◌≡◌, refl, false, ◌||◌, none, some, Option, ap, Returns}
use sri_glibc_malloc.Utils.{Mmap, null}
use sri_glibc_malloc.Memcxt.{Memcxt, Slot, Pointer, nowhere, element, same_slot}
use sri_glibc_malloc.Memcxt.Laws.{
  BucketsFresh, Refused, BucketTaken, allocate_bucket_lem, bucket_used,
}
use sri_glibc_malloc.Metadata.{Bucket, Metadata}
use sri_glibc_malloc.Metadata.Store.Table.{IsTable, SameContent}
use sri_glibc_malloc.Metadata.Access.Write.{recontext}
use sri_glibc_malloc.Metadata.Client.{allocate_chunkinfoptr, new_bucket}
use sri_glibc_malloc.Variant.{Variant}

module _ ⦃code : Variant⦄ where
  -- The bucket handed out was free and is now in use; the table has the content it had.
  pub record HandedOut (t : Metadata) (b : Bucket) (t' : Metadata) : Type 0 where
    pub table : IsTable t'
    pub same : SameContent t t'
    pub count : t'.count ≡ t.count
    pub unnamed : b.chunk ≡ null
    pub in_range : b.slot.index < 64 * code.bp_scale
    pub segments : t'.memcxt.segments ≡ t.memcxt.segments
    pub directory : t'.directory ≡ t.directory
    pub bincount : t'.bincount ≡ t.bincount
    pub was_free : bucket_used t.memcxt b.slot ≡ false
    pub used : (s : Slot) → bucket_used t'.memcxt s ≡ (same_slot s b.slot || bucket_used t.memcxt s)

  abbrev pub HandedOutOr : Mmap → Metadata → Option Bucket × Metadata → Type 0
  HandedOutOr mmap t (none, t') = (t' ≡ t) × Refused mmap
  HandedOutOr mmap t (some b, t') = HandedOut t b t'

  module _ (mmap : Mmap) (t : Metadata) (is : IsTable t) (fresh : BucketsFresh mmap t.memcxt) where
    pub handed :
        (r : Pointer × Memcxt)
        → BucketTaken mmap t.memcxt r
        → HandedOutOr mmap t (new_bucket r.0, record t { memcxt = r.1 })
    handed (nowhere, m) (same, refused) = (ap (λ x. record t { memcxt = x }) same, refused)
    handed (Pointer.region a, m) got = absurd got
    handed (element s, m) got =
        let (table, same) = recontext t is m got.0 got.4 in
        record {
          table = table;
          same = same;
          count = refl;
          unnamed = refl;
          in_range = got.2;
          segments = got.5;
          directory = refl;
          bincount = refl;
          was_free = got.1;
          used = got.3;
        }

    -- In a right table, with pools mapped at new addresses, `allocate_chunkinfoptr` passes its
    -- assertions. It returns a bucket of a pool that was free and is now in use, its chunk cleared,
    -- and keeps the invariant and the content of the table, or returns `NULL` and
    -- changes nothing, when the system refuses a mapping.
    pub allocate_chunkinfoptr-HandedOutOr :
        Returns (allocate_chunkinfoptr mmap t) (HandedOutOr mmap t)
    unfolding allocate_chunkinfoptr
    allocate_chunkinfoptr-HandedOutOr =
        let (r, run, got) = allocate_bucket_lem mmap t.memcxt 88 is.store.memcxt fresh in
        ((new_bucket r.0, record t { memcxt = r.1 }), rw run, handed r got)
