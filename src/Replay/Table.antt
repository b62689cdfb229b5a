-- ===== src/Replay/Table.antt =====
-- The table of src/lphash/lphash.c as the replay uses it: for each address in the log, the
-- addresses that stand for it in this run, the newest first.
use sri_glibc_malloc.Base.{ℕ, suc, ◌≡◌, Bool, true, List, [], ◌∷◌, ◌==◌, if◌then◌else◌}

-- The first, or NULL
abbrev pub top : List ℕ → ℕ
top [] = 0
top (v ∷ vs) = v

abbrev pub below_top : List ℕ → List ℕ
below_top [] = []
below_top (v ∷ vs) = vs

abbrev pub Content : Type 0
Content = ℕ → List ℕ

abbrev pub pushed : Content → ℕ → ℕ → Content
pushed content key val k = if key == k then val ∷ content k else content k

abbrev pub popped : Content → ℕ → Content
popped content key k = if key == k then below_top (content k) else content k

-- `lphash_insert`, `lphash_lookup` and `lphash_delete`, and what they do to the content; `destroy` is
-- whether `delete_lphash` passes its assertions.
pub record PointerTable (H : Type 0) : Type 1 where
  pub insert : H → ℕ → ℕ → Bool × H
  pub lookup : H → ℕ → ℕ
  pub delete : H → ℕ → Bool × H
  pub destroy : H → Bool
  pub content : H → Content
  -- The next so many insertions cannot fail.
  pub room : H → ℕ → Type 0
  pub lookup_content : (h : H) (key : ℕ) → lookup h key ≡ top (content h key)
  pub insert_content :
      (h : H) (key val : ℕ)
      → (insert h key val).0 ≡ true
      → content (insert h key val).1 ≡ pushed (content h) key val
  pub delete_content : (h : H) (key : ℕ) → content (delete h key).1 ≡ popped (content h) key
  pub insert_room :
      (h : H) (n key val : ℕ)
      → room h (suc n)
      → ((insert h key val).0 ≡ true) × room (insert h key val).1 n
  pub delete_room : (h : H) (n key : ℕ) → room h n → room (delete h key).1 n
  pub destroy_passes : (h : H) → destroy h ≡ true
  pub room_less : (h : H) (n : ℕ) → room h (suc n) → room h n
