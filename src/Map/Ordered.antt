-- ===== src/Map/Ordered.antt =====
-- `BTreeMap<u64, V>`: the entries in the order of their keys. A `BTreeSet<u64>` is one with no values.
use qcore_rs.Prelude.{
  ℕ, ◌<◌, ◌≡◌, ◌≢◌, refl, Bool, true, false, Bool-cases, Option, none, some, List, [], ◌∷◌, arith,
  inl, inr, ltb, ◌==◌, if◌then◌else◌,
}

abbrev pub OrderedMap {ℓ} : Type ℓ → Type ℓ
OrderedMap V = List (ℕ × V)

abbrev pub OrderedSet : Type 0
OrderedSet = OrderedMap (Unit {0})

module _ {ℓ} {V : Type ℓ} where
  unfoldable pub get : ℕ → OrderedMap V → Option V
  get k [] = none
  get k ((j, v) ∷ m) = if j == k then some v else get k m

  unfoldable pub insert : ℕ → V → OrderedMap V → OrderedMap V
  insert k v [] = (k, v) ∷ []
  insert k v ((j, w) ∷ m) =
      if ltb k j then (k, v) ∷ (j, w) ∷ m else if j == k then (k, v) ∷ m else (j, w) ∷ insert k v m

  -- `retain(keep)`
  unfoldable pub retain : (ℕ → V → Bool) → OrderedMap V → OrderedMap V
  retain keep [] = []
  retain keep ((j, w) ∷ m) = let rest = retain keep m in if keep j w then (j, w) ∷ rest else rest

  unfoldable pub remove : ℕ → OrderedMap V → OrderedMap V
  unfolding retain
  remove k m = retain (λ j w. if j == k then false else true) m

  -- `iter().find(test)`: the least key that meets the test.
  unfoldable pub find_key : (ℕ → V → Bool) → OrderedMap V → Option ℕ
  find_key test [] = none
  find_key test ((j, w) ∷ m) = if test j w then some j else find_key test m

  abbrev pub is_some : Option V → Bool
  is_some none = false
  is_some (some v) = true

  unfoldable pub contains_key : ℕ → OrderedMap V → Bool
  unfolding get
  contains_key k m = is_some (get k m)

  abbrev pub kept : (V → Bool) → Option V → Option V
  kept keep none = none
  kept keep (some v) = if keep v then some v else none

  -- Every key lies above `k`.
  abbrev pub Above : ℕ → OrderedMap V → Type 0
  Above k [] = Unit
  Above k ((j, w) ∷ m) = (k < j) × Above k m

  abbrev pub IsSorted : OrderedMap V → Type 0
  IsSorted [] = Unit
  IsSorted ((j, w) ∷ m) = Above j m × IsSorted m

  pub get-insert :
      (k j : ℕ) (v : V) (m : OrderedMap V)
      → get j (insert k v m) ≡ (if k == j then some v else get j m)
  unfolding get insert
  get-insert k j v [] = refl
  get-insert k j v ((i, w) ∷ m) = ground (arith, get-insert k j v m)

  Above-trans : (k j : ℕ) (m : OrderedMap V) → k < j → Above j m → Above k m
  Above-trans k j [] h a = tt
  Above-trans k j ((i, w) ∷ m) h a = (omega arith, Above-trans k j m h a.1)

  Above-insert : (k j : ℕ) (v : V) (m : OrderedMap V) → k < j → Above k m → Above k (insert j v m)
  unfolding insert
  Above-insert k j v [] h a = (h, tt)
  Above-insert k j v ((i, w) ∷ m) h a = ground (arith, Above-insert k j v m)

  Above-retain :
      (k : ℕ) (keep : ℕ → V → Bool) (m : OrderedMap V) → Above k m → Above k (retain keep m)
  unfolding retain
  Above-retain k keep [] a = tt
  Above-retain k keep ((i, w) ∷ m) a = ground (arith, Above-retain k keep m)

  -- `insert` keeps the entries in order.
  pub insert-IsSorted : (k : ℕ) (v : V) (m : OrderedMap V) → IsSorted m → IsSorted (insert k v m)
  unfolding insert
  insert-IsSorted k v [] s = (tt, tt)
  insert-IsSorted k v ((i, w) ∷ m) s =
      ground (arith, insert-IsSorted k v m, Above-insert i k v m, Above-trans k i m)

  pub retain-IsSorted :
      (keep : ℕ → V → Bool) (m : OrderedMap V) → IsSorted m → IsSorted (retain keep m)
  unfolding retain
  retain-IsSorted keep [] s = tt
  retain-IsSorted keep ((i, w) ∷ m) s =
      ground (arith, retain-IsSorted keep m, Above-retain i keep m)

  pub get-Above : (k : ℕ) (m : OrderedMap V) → Above k m → get k m ≡ none
  unfolding get
  get-Above k [] a = refl
  get-Above k ((i, w) ∷ m) a = ground (arith, get-Above k m)

  -- What `retain` leaves at a key of a map in order.
  pub get-retain :
      (keep : ℕ → V → Bool) (k : ℕ) (m : OrderedMap V)
      → IsSorted m
      → get k (retain keep m) ≡ kept (keep k) (get k m)
  unfolding get retain
  get-retain keep k [] s = refl
  get-retain keep k ((i, w) ∷ m) s = elim (Bool-cases (i == k)) [
    | inl same ↦ ground (arith, get-retain keep k m s.1, get-Above k m)
    | inr other ↦ ground (arith, get-retain keep k m s.1)
  ]

  -- A key that `find_key` returns is there and meets the test.
  pub find_key-none :
      (test : ℕ → V → Bool) (k : ℕ) (v : V) (m : OrderedMap V)
      → find_key test m ≡ none
      → get k m ≡ some v
      → test k v ≡ false
  unfolding find_key get
  find_key-none test k v [] h g = cc
  find_key-none test k v ((i, w) ∷ m) h g = ground (arith, find_key-none test k v m)

  -- `remove` leaves the other keys as they were.
  pub get-remove_ne : (k j : ℕ) (m : OrderedMap V) → k ≢ j → get j (remove k m) ≡ get j m
  unfolding get remove
  get-remove_ne k j [] h = refl
  get-remove_ne k j ((i, w) ∷ m) h = ground (arith, get-remove_ne k j m h)

  pub find_key-some :
      (test : ℕ → V → Bool) (k : ℕ) (m : OrderedMap V)
      → IsSorted m
      → find_key test m ≡ some k
      → (v : V) × (get k m ≡ some v) × (test k v ≡ true)
  unfolding find_key get
  find_key-some test k [] s h = cc
  find_key-some test k ((i, w) ∷ m) s h = elim (Bool-cases (test i w)) [
    | inl here ↦ (w, ground arith, ground arith)
    | inr not_here ↦
        let (v, at, met) = find_key-some test k m s.1 (ground arith) in
        (v, ground (arith, get-Above i m s.0), met)
  ]

  pub get-remove_self : (k : ℕ) (m : OrderedMap V) → get k (remove k m) ≡ none
  unfolding get remove
  get-remove_self k [] = refl
  get-remove_self k ((i, w) ∷ m) = ground (arith, get-remove_self k m)
