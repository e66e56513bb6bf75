-- ===== src/Persist/Pair/Places.antt =====
-- The places of the values that two tables share.
use dedup_block_fs.Base.{
  ℕ, zero, suc, ◌+◌, ◌-◌, ◌≤◌, ◌<◌, ◌≡◌, refl, sym, ap, ◌∙◌, subst, ◌⊎◌, inl, inr, Bool-cases,
  Option-cases, none, some, List, [], ◌∷◌, ◌++◌, ◌==◌, All, length, length-append, get_elem?, arith,
}
use dedup_block_fs.Table.{Key, Table, equal, lookup, insert}
use dedup_block_fs.Table.Laws.{lookup-insert}
use dedup_block_fs.Index.{Ptr}
use dedup_block_fs.Persist.Pair.{
  pointer_key, IndexedValues, get_or_create_value_index, collect_values,
}

get_elem?-last : (l : List Ptr) (p : Ptr) → get_elem? (l ++ (p ∷ [])) (length l) ≡ some p
get_elem?-last [] p = refl
get_elem?-last (x ∷ l) p = get_elem?-last l p

get_elem?-append :
    (l : List Ptr) (p q : Ptr) (i : ℕ)
    → get_elem? l i ≡ some q
    → get_elem? (l ++ (p ∷ [])) i ≡ some q
get_elem?-append [] p q i h = absurd (ground (arith, h))
get_elem?-append (x ∷ l) p q zero h = h
get_elem?-append (x ∷ l) p q (suc i) h = get_elem?-append l p q i h

pub get_elem?-lt : {A : Type 0} (l : List A) (i : ℕ) (a : A) → get_elem? l i ≡ some a → i < length l
get_elem?-lt [] i a h = absurd (ground (arith, h))
get_elem?-lt (x ∷ l) zero a h = omega arith
get_elem?-lt (x ∷ l) (suc i) a h = omega (arith, get_elem?-lt l i a h)

-- The array holds the pointer at the place that the table gives.
abbrev pub Placed : IndexedValues → Type 0
Placed c =
    (p : Ptr) (s : ℕ)
    → lookup p c.value_to_index ≡ some s
    → (0 < s) × (get_elem? c.values (s - 1) ≡ some p)

-- Places stay once they are given.
abbrev pub Stays : IndexedValues → IndexedValues → Type 0
Stays c c' =
    (p : Ptr) (s : ℕ) → lookup p c.value_to_index ≡ some s → lookup p c'.value_to_index ≡ some s

-- A pointer that has a place.
abbrev pub HasPlace : IndexedValues → Ptr → Type 0
HasPlace c p = (s : ℕ) × (lookup p c.value_to_index ≡ some s)

module _ (c : IndexedValues) (value : Ptr) where
  next : IndexedValues
  unfolding get_or_create_value_index
  next = (get_or_create_value_index c value).1

  step_values : (next.values ≡ c.values) ⊎ (next.values ≡ c.values ++ (value ∷ []))
  unfolding next get_or_create_value_index
  step_values = elim (Option-cases (lookup value c.value_to_index)) [
    | inr (s, e) ↦ inl (rw (next, e) refl)
    | inl e ↦ inr (rw (next, e) refl)
  ]

  step_known : (s : ℕ) → lookup value c.value_to_index ≡ some s → next ≡ c
  unfolding next get_or_create_value_index
  step_known s e = rw (next, e) refl

  step_new :
      lookup value c.value_to_index ≡ none
      → next ≡ record {
        value_to_index = insert value (length c.values + 1) c.value_to_index;
        values = c.values ++ (value ∷ []);
      }
  unfolding next get_or_create_value_index
  step_new e = rw (next, e) refl

  new_place :
      (p s : ℕ)
      → Placed c
      → lookup p (insert value (length c.values + 1) c.value_to_index) ≡ some s
      → (0 < s) × (get_elem? (c.values ++ (value ∷ [])) (s - 1) ≡ some p)
  new_place p s h e =
      let at' = lookup-insert p value (length c.values + 1) c.value_to_index in
      elim (Bool-cases (value == p)) [
        | inl i ↦
            let s_is : s ≡ length c.values + 1 = ground (arith, i, e, at') in
            let place : s - 1 ≡ length c.values = omega (arith, s_is) in
            let same : value ≡ p = ground (arith, i) in
            (omega (arith, s_is), rw place (get_elem?-last c.values value ∙ ap some same))
        | inr o ↦
            let (positive, there) = h p s (ground (arith, o, e, at')) in
            (positive, get_elem?-append c.values value p (s - 1) there)
      ]

  kept_place :
      (p s : ℕ)
      → lookup value c.value_to_index ≡ none
      → lookup p c.value_to_index ≡ some s
      → lookup p (insert value (length c.values + 1) c.value_to_index) ≡ some s
  kept_place p s gone e =
      let at' = lookup-insert p value (length c.values + 1) c.value_to_index in
      elim (Bool-cases (value == p)) [
        | inl i ↦
            let same : value ≡ p = ground (arith, i) in
            absurd (ground (arith, subst (λ q. lookup q c.value_to_index ≡ none) same gone, e))
        | inr o ↦ ground (arith, o, e, at')
      ]

  has_place :
      lookup value (insert value (length c.values + 1) c.value_to_index)
      ≡ some (length c.values + 1)
  has_place = ground (arith, lookup-insert value value (length c.values + 1) c.value_to_index)

  step-Placed : Placed c → Placed next × Stays c next × HasPlace next value
  step-Placed h = elim (Option-cases (lookup value c.value_to_index)) [
    | inr (s, e) ↦ rw (step_known s e) (h, (λ p s' e'. e'), (s, e))
    | inl e ↦ rw (step_new e) (
      (λ p s e'. new_place p s h e'),
      (λ p s e'. kept_place p s e e'),
      (length c.values + 1, has_place),
    )
  ]

-- Every value of a table has a place.
abbrev pub AllPlaced : {K : Type 0} → IndexedValues → Table K Ptr → Type 0
AllPlaced c t = All (λ (entry : _ × Ptr). HasPlace c entry.1) t

pub AllPlaced-Stays :
    {K : Type 0} (c c' : IndexedValues) (t : Table K Ptr)
    → Stays c c'
    → AllPlaced c t
    → AllPlaced c' t
AllPlaced-Stays c c' [] h a = tt
AllPlaced-Stays c c' ((k, p) ∷ t) h ((s, e), a) = ((s, h p s e), AllPlaced-Stays c c' t h a)

pub collect-Placed :
    {K : Type 0} (t : Table K Ptr) (c : IndexedValues)
    → Placed c
    → Placed (collect_values t c) × Stays c (collect_values t c) × AllPlaced (collect_values t c) t
unfolding collect_values next
collect-Placed [] c h = (h, (λ p s e. e), tt)
collect-Placed ((k, p) ∷ t) c h =
    let (h1, stays, (s, e)) = step-Placed c p h in
    let (h2, stays', all) = collect-Placed t (next c p) h1 in
    (h2, (λ q s' e'. stays' q s' (stays q s' e')), ((s, stays' p s e), all))

-- What holds of the pointers of a table holds of the values that are collected.
module _ (P : Ptr → Type 0) where
  All-last : (l : List Ptr) (p : Ptr) → All P l → P p → All P (l ++ (p ∷ []))
  All-last [] p a h = (h, tt)
  All-last (q ∷ l) p (b, a) h = (b, All-last l p a h)

  pub collect-All :
      {K : Type 0} (t : Table K Ptr) (c : IndexedValues)
      → All (λ (entry : K × Ptr). P entry.1) t
      → All P c.values
      → All P (collect_values t c).values
  unfolding collect_values next
  collect-All [] c a h = h
  collect-All ((k, p) ∷ t) c (b, a) h = collect-All t (next c p) a (elim (step_values c p) [
    | inl e ↦ subst (λ l. All P l) (sym e) h
    | inr e ↦ subst (λ l. All P l) (sym e) (All-last c.values p h b)
  ])

-- There are no more values than entries.
pub collect-length :
    {K : Type 0} (t : Table K Ptr) (c : IndexedValues)
    → length (collect_values t c).values ≤ length c.values + length t
unfolding collect_values next
collect-length [] c = omega arith
collect-length ((k, p) ∷ t) c =
    let below : length (next c p).values ≤ length c.values + 1 = elim (step_values c p) [
      | inl e ↦ rw e (omega arith)
      | inr e ↦ rw e (omega (arith, length-append c.values (p ∷ [])))
    ] in
    omega (arith, below, collect-length t (next c p))

pub placed_of_lookup :
    {K : Type 0} ⦃e : Key K⦄ (c : IndexedValues) (k : K) (t : Table K Ptr) (p : Ptr)
    → AllPlaced c t
    → lookup k t ≡ some p
    → HasPlace c p
unfolding lookup
placed_of_lookup c k [] p a h = absurd (ground (arith, h))
placed_of_lookup c k ((j, q) ∷ t) p (b, a) h = elim (Bool-cases (equal j k)) [
  | inl i ↦ subst (λ r. HasPlace c r) (ground (arith, i, h)) b
  | inr o ↦ placed_of_lookup c k t p a (ground (arith, o, h))
]

-- Before the first value there is no place.
pub empty-Placed : Placed (record { value_to_index = []; values = [] })
unfolding lookup
empty-Placed p s e = absurd (ground (arith, e))
