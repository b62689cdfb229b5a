-- ===== src/Metadata/Cache.antt =====
-- The cache of two lookups of metadata.c, which SRI_METADATA_CACHE turns on. A key and a value are
-- addresses.
use sri_glibc_malloc.Base.{ℕ, ◌+◌, ◌≡◌, ◌≢◌, Bool, true, false, ◌==◌, if◌then◌else◌, arith}
use sri_glibc_malloc.Utils.{null}

pub record Cache : Type 0 where
  pub next_update_is_zero : Bool
  pub keys0 : ℕ
  pub keys1 : ℕ
  pub values0 : ℕ
  pub values1 : ℕ
  pub hits : ℕ
  pub misses : ℕ

unfoldable pub cache_insert : Cache → ℕ → ℕ → Cache
cache_insert c key value =
    if c.next_update_is_zero
    then record c { keys0 = key; values0 = value; next_update_is_zero = false }
    else record c { keys1 = key; values1 = value; next_update_is_zero = true }

unfoldable pub cache_delete : Cache → ℕ → Cache
cache_delete c key =
    if c.keys0 == key
    then record c { keys0 = null; values0 = null; next_update_is_zero = true }
    else if c.keys1 == key
    then record c { keys1 = null; values1 = null; next_update_is_zero = false }
    else c

unfoldable pub cache_lookup : Cache → ℕ → ℕ × Cache
cache_lookup c key =
    if c.keys0 == key
    then (c.values0, record c { next_update_is_zero = false; hits = c.hits + 1 })
    else if c.keys1 == key
    then (c.values1, record c { next_update_is_zero = true; hits = c.hits + 1 })
    else (null, record c { misses = c.misses + 1 })

-- After a miss and an insertion of the key, a lookup of the key returns the value inserted.
pub cache_lookup-insert :
    (c : Cache) (key value : ℕ)
    → c.keys0 ≢ key
    → c.keys1 ≢ key
    → (cache_lookup (cache_insert (cache_lookup c key).1 key value) key).0 ≡ value
unfolding cache_lookup cache_insert
cache_lookup-insert c key value p q = ground arith
