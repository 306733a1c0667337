-- ===== src/Finality/Quorum/Weight.antt =====
-- The stake of a set of validators, counted over a roster.
use qcore_rs.Prelude.{
  min, ℕ, ◌+◌, ◌*◌, ◌≤◌, ◌<◌, ◌≡◌, ◌≢◌, refl, Bool, true, false, ◌&&◌, ◌||◌, some, List, [], ◌∷◌,
  if◌then◌else◌, ◌==◌, arith, ◌⊎◌, inl, inr, Bool-cases, find, any, length, All, u128_max, u64_max,
}
use qcore_rs.Finality.Quorum.{RosterMember, has_id, total_stake_of}

abbrev pub weight : (ℕ → Bool) → List RosterMember → ℕ
weight p [] = 0
weight p (m ∷ ms) = (if p m.id then m.stake else 0) + weight p ms

abbrev pub total : List RosterMember → ℕ
total [] = 0
total (m ∷ ms) = m.stake + total ms

abbrev pub counted : List ℕ → ℕ → Bool
counted seen j = any (λ i. i == j) seen

abbrev pub Has : RosterMember → List RosterMember → Type 0
Has m [] = ⊥
Has m (x ∷ xs) = (m ≡ x) ⊎ Has m xs

abbrev pub DistinctIds : List RosterMember → Type 0
DistinctIds [] = Unit
DistinctIds (m ∷ ms) = All (λ x. x.id ≢ m.id) ms × DistinctIds ms

-- A stake is a u64.
abbrev pub IsStaked : RosterMember → Type 0
IsStaked m = m.stake ≤ u64_max

pub weight-le : (p : ℕ → Bool) (ms : List RosterMember) → weight p ms ≤ total ms
weight-le p [] = omega arith
weight-le p (m ∷ ms) = ground (arith, weight-le p ms)

-- Two sets of validators that weigh more than the whole share some of it.
pub weight_overlap :
    (p q : ℕ → Bool) (ms : List RosterMember)
    → weight p ms + weight q ms ≤ total ms + weight (λ i. p i && q i) ms
weight_overlap p q [] = omega arith
weight_overlap p q (m ∷ ms) = ground (arith, weight_overlap p q ms)

pub weight_pos :
    (p : ℕ → Bool) (ms : List RosterMember)
    → 0 < weight p ms
    → (m : RosterMember) × Has m ms × (p m.id ≡ true)
weight_pos p [] h = absurd (omega arith)
weight_pos p (m ∷ ms) h = elim (Bool-cases (p m.id)) [
  | inl counts ↦ (m, inl refl, counts)
  | inr other ↦
      let later : 0 < weight p ms = ground arith in
      let (x, at, counts) = weight_pos p ms later in (x, inr at, counts)
]

pub weight_none :
    (p : ℕ → Bool) (ms : List RosterMember) → ((i : ℕ) → p i ≡ false) → weight p ms ≡ 0
weight_none p [] h = refl
weight_none p (m ∷ ms) h = ground (arith, h m.id, weight_none p ms h)

weight_absent :
    (p : ℕ → Bool) (i : ℕ) (ms : List RosterMember)
    → All (λ x. x.id ≢ i) ms
    → weight (λ j. (i == j) || p j) ms ≡ weight p ms
weight_absent p i [] h = refl
weight_absent p i (m ∷ ms) h = ground (arith, h.0, weight_absent p i ms h.1)

-- One more validator adds its stake.
pub weight_add :
    (p : ℕ → Bool) (i : ℕ) (ms : List RosterMember) (m : RosterMember)
    → DistinctIds ms
    → find (has_id i) ms ≡ some m
    → p i ≡ false
    → weight (λ j. (i == j) || p j) ms ≡ weight p ms + m.stake
weight_add p i [] m d h f = absurd (ground arith)
weight_add p i (x ∷ ms) m d h f = elim (Bool-cases (x.id == i)) [
  | inl same ↦
      let found : some x ≡ some m = ground arith in
      let at : x.id ≡ i = ground arith in
      let first : m ≡ x = ground arith in
      rw (first, at, f, weight_absent p i ms (rw at at d.0)) (ground arith)
  | inr other ↦
      let later : find (has_id i) ms ≡ some m = ground arith in
      ground (arith, weight_add p i ms m d.1 later f)
]

pub find-Has :
    (i : ℕ) (ms : List RosterMember) (m : RosterMember)
    → find (has_id i) ms ≡ some m
    → Has m ms × (m.id ≡ i)
find-Has i [] m h = absurd (ground arith)
find-Has i (x ∷ ms) m h = elim (Bool-cases (x.id == i)) [
  | inl same ↦
      let found : some x ≡ some m = ground arith in
      let first : m ≡ x = ground arith in (inl first, rw first (ground arith))
  | inr other ↦
      let later : find (has_id i) ms ≡ some m = ground arith in
      let (at, e) = find-Has i ms m later in (inr at, e)
]

Has-id :
    (i : ℕ) (m : RosterMember) (ms : List RosterMember)
    → All (λ x. x.id ≢ i) ms
    → Has m ms
    → m.id ≢ i
Has-id i m [] d h = absurd h
Has-id i m (x ∷ ms) d (inl e) = rw e d.0
Has-id i m (x ∷ ms) d (inr h) = Has-id i m ms d.1 h

-- A validator is found by its id.
pub find-of_Has :
    (m : RosterMember) (ms : List RosterMember)
    → DistinctIds ms
    → Has m ms
    → find (has_id m.id) ms ≡ some m
find-of_Has m [] d h = absurd h
find-of_Has m (x ∷ ms) d (inl e) = rw e (ground arith)
find-of_Has m (x ∷ ms) d (inr h) = ground (arith, Has-id x.id m ms d.0 h, find-of_Has m ms d.1 h)

pub total_bound : (ms : List RosterMember) → All IsStaked ms → total ms ≤ length ms * u64_max
total_bound [] a = omega arith
total_bound (m ∷ ms) a = omega (arith, total_bound ms a.1, a.0)

-- Within u128 the saturating sum is the sum.
pub total_stake_of-total :
    (acc : ℕ) (ms : List RosterMember)
    → acc + total ms ≤ u128_max
    → total_stake_of acc ms ≡ acc + total ms
total_stake_of-total acc [] h = omega arith
total_stake_of-total acc (m ∷ ms) h =
    let sum : min (acc + m.stake) u128_max ≡ acc + m.stake = omega arith in
    rw sum (omega (arith, total_stake_of-total (acc + m.stake) ms (omega arith)))
