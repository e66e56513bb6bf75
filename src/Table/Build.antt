-- ===== src/Table/Build.antt =====
-- A table that is built by inserting the entries of a table with distinct keys is that table.
use dedup_block_fs.Base.{◌≡◌, refl, ap, ◌∙◌, none, [], ◌∷◌, ◌++◌, arith}
use mathlib.Core.List.{append_assoc}
use dedup_block_fs.Table.{Key, Table, lookup, insert, Distinct}

module _ {ℓ κ} {K : Type ℓ} ⦃e : Key K⦄ {V : Type κ} where
  pub insert_new :
      (k : K) (v : V) (t : Table K V) → lookup k t ≡ none → insert k v t ≡ t ++ ((k, v) ∷ [])
  unfolding lookup insert
  insert_new k v [] h = refl
  insert_new k v ((j, w) ∷ t) h = ground (arith, insert_new k v t)

  lookup-append_none :
      (k : K) (s t : Table K V)
      → lookup k (s ++ t) ≡ none
      → (lookup k s ≡ none) × (lookup k t ≡ none)
  unfolding lookup
  lookup-append_none k [] t h = (refl, h)
  lookup-append_none k ((j, w) ∷ s) t h = ground (arith, lookup-append_none k s t)

  -- The key of an entry does not stand before it.
  pub lookup_before :
      (k : K) (v : V) (s t : Table K V) → Distinct (s ++ ((k, v) ∷ t)) → lookup k s ≡ none
  unfolding lookup Distinct
  lookup_before k v [] t d = refl
  lookup_before k v ((j, w) ∷ s) t d =
      let later = (lookup-append_none j s ((k, v) ∷ t) d.0).1 in
      ground (arith, later, e.equal_iff k j, e.equal_iff j k, lookup_before k v s t d.1)

  -- The next entry goes to the end.
  pub insert_next :
      (k : K) (v : V) (s t : Table K V)
      → Distinct (s ++ ((k, v) ∷ t))
      → insert k v s ++ t ≡ s ++ ((k, v) ∷ t)
  insert_next k v s t d =
      ap (λ l. l ++ t) (insert_new k v s (lookup_before k v s t d)) ∙ append_assoc s ((k, v) ∷ []) t
