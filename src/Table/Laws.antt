-- ===== src/Table/Laws.antt =====
-- What `insert` and `remove` change, for lookups and for the number of holders of a pointer.
use dedup_block_fs.Base.{
  ℕ, ◌+◌, ◌≤◌, ◌<◌, ◌≡◌, refl, true, false, Bool-cases, inl, inr, none, some, [], ◌∷◌, hits,
  if◌then◌else◌, arith, length, ◌==◌,
}
use dedup_block_fs.Table.{Key, Table, equal, lookup, insert, remove, Distinct, holders, found}

module _ {ℓ} {K : Type ℓ} ⦃e : Key K⦄ where
  pub equal_refl : (k : K) → equal k k ≡ true
  equal_refl k = (e.equal_iff k k).1 refl

  module _ {κ} {V : Type κ} where
    pub lookup-insert :
        (j k : K) (v : V) (t : Table K V)
        → lookup j (insert k v t) ≡ (if equal k j then some v else lookup j t)
    unfolding lookup insert
    lookup-insert j k v [] = refl
    lookup-insert j k v ((i, w) ∷ t) =
        ground (arith, e.equal_iff k j, e.equal_iff i k, e.equal_iff i j, lookup-insert j k v t)

    pub lookup-remove_ne :
        (j k : K) (t : Table K V) → equal k j ≡ false → lookup j (remove k t) ≡ lookup j t
    unfolding lookup remove
    lookup-remove_ne j k [] h = refl
    lookup-remove_ne j k ((i, w) ∷ t) h =
        ground (arith, e.equal_iff k j, e.equal_iff i k, e.equal_iff i j, lookup-remove_ne j k t h)

    pub lookup-remove_self : (k : K) (t : Table K V) → Distinct t → lookup k (remove k t) ≡ none
    unfolding lookup remove Distinct
    lookup-remove_self k [] d = refl
    lookup-remove_self k ((i, w) ∷ t) d =
        ground (arith, e.equal_iff i k, lookup-remove_self k t d.1)

    pub lookup-remove :
        (j k : K) (t : Table K V)
        → Distinct t
        → lookup j (remove k t) ≡ (if equal k j then none else lookup j t)
    lookup-remove j k t d =
        ground (arith, e.equal_iff k j, lookup-remove_self k t d, lookup-remove_ne j k t)

    pub Distinct-insert : (k : K) (v : V) (t : Table K V) → Distinct t → Distinct (insert k v t)
    unfolding insert Distinct lookup
    Distinct-insert k v [] d = ground arith
    Distinct-insert k v ((i, w) ∷ t) d =
        ground (
          arith,
          e.equal_iff i k,
          e.equal_iff k i,
          lookup-insert i k v t,
          Distinct-insert k v t d.1,
        )

    lookup-remove-none :
        (j k : K) (t : Table K V) → lookup j t ≡ none → lookup j (remove k t) ≡ none
    unfolding lookup remove
    lookup-remove-none j k [] h = refl
    lookup-remove-none j k ((i, w) ∷ t) h = ground (arith, lookup-remove-none j k t)

    pub Distinct-remove : (k : K) (t : Table K V) → Distinct t → Distinct (remove k t)
    unfolding remove Distinct
    Distinct-remove k [] d = tt
    Distinct-remove k ((i, w) ∷ t) d =
        ground (arith, lookup-remove-none i k t d.0, Distinct-remove k t d.1)

  -- The entry that goes is one holder less, the entry that comes is one more.
  pub holders-insert :
      (p : ℕ) (k : K) (q : ℕ) (t : Table K ℕ)
      → holders p (insert k q t) + found p (lookup k t) ≡ holders p t + hits p q
  unfolding holders insert lookup
  holders-insert p k q [] = omega arith
  holders-insert p k q ((i, w) ∷ t) = ground (arith, holders-insert p k q t)

  pub holders-remove :
      (p : ℕ) (k : K) (t : Table K ℕ) → holders p (remove k t) + found p (lookup k t) ≡ holders p t
  unfolding holders remove lookup
  holders-remove p k [] = omega arith
  holders-remove p k ((i, w) ∷ t) = ground (arith, holders-remove p k t)

  pub found-le-holders : (p : ℕ) (k : K) (t : Table K ℕ) → found p (lookup k t) ≤ holders p t
  unfolding holders lookup
  found-le-holders p k [] = omega arith
  found-le-holders p k ((i, w) ∷ t) = ground (arith, found-le-holders p k t)

pub holders-le-length {ℓ} : {K : Type ℓ} (p : ℕ) (t : Table K ℕ) → holders p t ≤ length t
unfolding holders
holders-le-length p [] = omega arith
holders-le-length p ((k, q) ∷ t) = ground (arith, holders-le-length p t)

-- A pointer with a holder is found under some key.
pub lookup_of_holders {ℓ} :
    {K : Type ℓ} ⦃e : Key K⦄ (p : ℕ) (t : Table K ℕ)
    → Distinct t
    → 0 < holders p t
    → (k : K) × (lookup k t ≡ some p)
unfolding holders lookup Distinct
lookup_of_holders p [] d h = absurd (omega arith)
lookup_of_holders ⦃e⦄ p ((k, q) ∷ t) d h = elim (Bool-cases (p == q)) [
  | inl here ↦ (k, ground (arith, equal_refl k))
  | inr there ↦
      let (k', found') = lookup_of_holders p t d.1 (ground arith) in
      (k', ground (arith, e.equal_iff k k'))
]
