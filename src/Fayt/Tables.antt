-- ===== src/Fayt/Tables.antt =====
-- fayt/hash.h and fayt/bitmap.h: the hash table and `bitmap_alloc`. A key is its bytes.
use rock.Base.{ℕ, ◌≡◌, ◌≢◌, Option, none, some, List}

-- `hash_table_search`, where none is -1, and `hash_table_push`, where none is -1 as well. What a
-- push of a key that is there already does is not relied on.
pub record HashTable (V : Type 0) : Type 1 where
  pub Table : Type 0
  pub zeroed : Table
  pub search : Table → List ℕ → Option V
  pub push : Table → List ℕ → V → Option Table
  pub search-zeroed : (k : List ℕ) → search zeroed k ≡ none
  pub search-push :
      (t t' : Table) (k : List ℕ) (v : V)
      → search t k ≡ none
      → push t k v ≡ some t'
      → search t' k ≡ some v
  pub search-push_ne :
      (t t' : Table) (k j : List ℕ) (v : V)
      → search t k ≡ none
      → push t k v ≡ some t'
      → j ≢ k
      → search t' j ≡ search t j

-- `bitmap_alloc`, where none is -1
pub record BitmapAlloc : Type 1 where
  pub Bitmap : Type 0
  pub zeroed : Bitmap
  pub bitmap_alloc : Bitmap → Option (ℕ × Bitmap)
