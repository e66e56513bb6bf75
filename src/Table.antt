-- ===== src/Table.antt =====
-- GHashTable as the list of its entries. A table is created with an equality on its keys
-- (`g_hash_table_new_full(hash_fn, equal_fn, ...)`); inserting under a present key replaces its
-- value.
pub mod Laws
pub mod Build
use dedup_block_fs.Base.{
  ℕ, ◌+◌, ◌≡◌, ◌↔◌, Bool, true, Option, none, some, List, [], ◌∷◌, hits, if◌then◌else◌,
}

-- The `equal_fn` of a table, with what it decides.
pub record Key {ℓ} (K : Type ℓ) : Type ℓ where
  pub equal : K → K → Bool
  pub equal_iff : (j k : K) → (equal j k ≡ true) ↔ (j ≡ k)

abbrev pub Table {ℓ κ} : Type ℓ → Type κ → Type (ℓ ⊔ κ)
Table K V = List (K × V)

module _ {ℓ} {K : Type ℓ} ⦃e : Key K⦄ where
  abbrev pub equal : K → K → Bool
  equal = e.equal

  module _ {κ} {V : Type κ} where
    -- g_hash_table_lookup
    unfoldable pub lookup : K → Table K V → Option V
    lookup k [] = none
    lookup k ((j, v) ∷ t) = if e.equal j k then some v else lookup k t

    -- g_hash_table_insert
    unfoldable pub insert : K → V → Table K V → Table K V
    insert k v [] = (k, v) ∷ []
    insert k v ((j, w) ∷ t) = if e.equal j k then (k, v) ∷ t else (j, w) ∷ insert k v t

    -- g_hash_table_remove
    unfoldable pub remove : K → Table K V → Table K V
    remove k [] = []
    remove k ((j, w) ∷ t) = if e.equal j k then t else (j, w) ∷ remove k t

    -- No key stands twice, as in every table that `insert` and `remove` build.
    unfoldable pub Distinct : Table K V → Type κ
    Distinct [] = Unit
    Distinct ((j, w) ∷ t) = (lookup j t ≡ none) × Distinct t

-- How many entries hold the pointer `p`.
unfoldable pub holders {ℓ} : {K : Type ℓ} → ℕ → Table K ℕ → ℕ
holders p [] = 0
holders p ((_, q) ∷ t) = hits p q + holders p t

-- 1 if a lookup found the pointer `p`.
abbrev pub found : ℕ → Option ℕ → ℕ
found p none = 0
found p (some q) = hits p q
