-- ===== src/Chain/Deadline.antt =====
-- Which deadlines and which heads the checks admit.
use qcore_rs.Prelude.{
  ℕ, ◌+◌, ◌-◌, ◌*◌, ◌≤◌, ◌<◌, ◌≡◌, ◌↔◌, ◌⊎◌, inl, inr, refl, Bool, true, false, Option, none, some,
  ok, arith, Option-cases, ap, sym, ◌∙◌,
}
use qcore_rs.Chain.{
  ChainClock, max_plausible_head, max_validity_blocks, default_validity_blocks, head_slack_blocks,
  check_deadline, check_valid_until, bounded_valid_until_for,
}

-- A deadline is admitted exactly when it lies past the head, at most 3600 blocks past it, and is
-- at most 3600 blocks past the highest plausible head.
pub check_valid_until_iff :
    (valid_until head : ℕ)
    → (check_valid_until valid_until head ≡ ok tt) ↔ (
        (head < valid_until)
        × (valid_until ≤ head + max_validity_blocks)
        × (valid_until ≤ max_plausible_head + max_validity_blocks))
unfolding check_valid_until check_deadline
check_valid_until_iff valid_until head = (λ h. ground arith, λ h. ground arith)

-- What a reported head must meet, with no saturation.
pub record Admits (clock : Option ChainClock) (verified : Bool) (head wall_secs : ℕ)
    (floor : Option ℕ) (age : ℕ) : Type 0 where
  pub plausible : head ≤ max_plausible_head
  pub bounded :
      (verified ≡ true)
      ⊎ ((c : ChainClock) × (clock ≡ some c)
          × (head ≤ (wall_secs - c.genesis_secs) * c.blocks_per_sec + head_slack_blocks))
  pub risen : (f : ℕ) → floor ≡ some f → f ≤ head
  pub unhurried :
      (f : ℕ) (c : ChainClock)
      → verified ≡ false
      → floor ≡ some f
      → clock ≡ some c
      → head ≤ f + age * c.blocks_per_sec + head_slack_blocks

abbrev IsBounded : Option ChainClock → Bool → ℕ → ℕ → Type 0
IsBounded clock verified head wall_secs =
    (verified ≡ true)
    ⊎ ((c : ChainClock) × (clock ≡ some c)
        × (head ≤ (wall_secs - c.genesis_secs) * c.blocks_per_sec + head_slack_blocks))

module _ (head wall_secs : ℕ) (floor : Option ℕ) (age : ℕ) where
  IsBounded-of_ok :
      (clock : Option ChainClock) (verified : Bool) (v : ℕ)
      → bounded_valid_until_for clock verified head wall_secs floor age ≡ ok v
      → IsBounded clock verified head wall_secs
  unfolding bounded_valid_until_for
  IsBounded-of_ok clock true v h = inl refl
  IsBounded-of_ok (some c) false v h = inr (c, refl, ground arith)
  IsBounded-of_ok none false v h = absurd (ground arith)

  Admits-of_ok :
      (clock : Option ChainClock) (verified : Bool) (v : ℕ)
      → bounded_valid_until_for clock verified head wall_secs floor age ≡ ok v
      → (v ≡ head + default_validity_blocks) × Admits clock verified head wall_secs floor age
  unfolding bounded_valid_until_for
  Admits-of_ok clock verified v h = (
    ground arith,
    record {
      plausible = ground arith;
      bounded = IsBounded-of_ok clock verified v h;
      risen = λ f e. ground arith;
      unhurried = λ f c u e k. ground arith;
    },
  )

  ok_of_Admits :
      (clock : Option ChainClock) (verified : Bool)
      → Admits clock verified head wall_secs floor age
      → bounded_valid_until_for clock verified head wall_secs floor age
        ≡ ok (head + default_validity_blocks)
  unfolding bounded_valid_until_for
  ok_of_Admits none false a = absurd (ground (arith, a.bounded))
  ok_of_Admits none true a = elim (Option-cases floor) [
    | inl e ↦ ground (arith, a.plausible)
    | inr (f, e) ↦ ground (arith, a.plausible, a.risen f e)
  ]
  ok_of_Admits (some c) true a = elim (Option-cases floor) [
    | inl e ↦ ground (arith, a.plausible)
    | inr (f, e) ↦ ground (arith, a.plausible, a.risen f e)
  ]
  ok_of_Admits (some c) false a = elim (Option-cases floor) [
    | inl e ↦ ground (arith, a.plausible, a.bounded)
    | inr (f, e) ↦ ground (arith, a.plausible, a.bounded, a.risen f e, a.unhurried f c refl e refl)
  ]

-- A deadline is given out exactly for an admitted head, and it is then 300 blocks past the head.
pub bounded_valid_until_for_iff :
    (clock : Option ChainClock) (verified : Bool) (head wall_secs : ℕ) (floor : Option ℕ)
    (age v : ℕ)
    → (bounded_valid_until_for clock verified head wall_secs floor age ≡ ok v)
      ↔ ((v ≡ head + default_validity_blocks) × Admits clock verified head wall_secs floor age)
bounded_valid_until_for_iff clock verified head wall_secs floor age v = (
  Admits-of_ok head wall_secs floor age clock verified v,
  λ a. ok_of_Admits head wall_secs floor age clock verified a.1 ∙ ap ok (sym a.0),
)
