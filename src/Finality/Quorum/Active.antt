-- ===== src/Finality/Quorum/Active.antt =====
-- What `check_members` settles of a roster, and that `active_set` keeps it.
use qcore_rs.Prelude.{
  ℕ, zero, suc, ◌+◌, ◌≤◌, ◌≡◌, ◌≢◌, refl, false, List, [], ◌∷◌, ok, ltb, arith, inl, inr,
  Bool-cases, length, take, All, All-imp, Bytes,
}
use qcore_rs.Finality.Crates.{Crates}
use qcore_rs.Finality.Quorum.{
  RosterMember, before, insert_member, sort_members, has_stake, staked, active_set, check_members,
}
use qcore_rs.Finality.Quorum.Weight.{total, DistinctIds, counted}

module _ {ℓ} (P : RosterMember → Type ℓ) where
  All-insert_member :
      (a : RosterMember) (l : List RosterMember) → P a → All P l → All P (insert_member a l)
  unfolding insert_member
  All-insert_member a [] p h = (p, tt)
  All-insert_member a (b ∷ rest) p h = elim (Bool-cases (before a b)) [
    | inl first ↦ rw first (p, h)
    | inr later ↦ rw later (h.0, All-insert_member a rest p h.1)
  ]

  All-sort_members : (l : List RosterMember) → All P l → All P (sort_members l)
  unfolding sort_members
  All-sort_members [] h = tt
  All-sort_members (a ∷ l) h = All-insert_member a (sort_members l) h.0 (All-sort_members l h.1)

  All-take : (n : ℕ) (l : List RosterMember) → All P l → All P (take n l)
  All-take zero l h = tt
  All-take (suc n) [] h = tt
  All-take (suc n) (a ∷ l) h = (h.0, All-take n l h.1)

DistinctIds-insert_member :
    (a : RosterMember) (l : List RosterMember)
    → All (λ x. x.id ≢ a.id) l
    → DistinctIds l
    → DistinctIds (insert_member a l)
unfolding insert_member
DistinctIds-insert_member a [] h d = (tt, tt)
DistinctIds-insert_member a (b ∷ rest) h d = elim (Bool-cases (before a b)) [
  | inl first ↦ rw first (h, d)
  | inr later ↦ rw later (
    All-insert_member (λ x. x.id ≢ b.id) a rest (λ e. h.0 (ground arith)) d.0,
    DistinctIds-insert_member a rest h.1 d.1,
  )
]

DistinctIds-sort_members : (l : List RosterMember) → DistinctIds l → DistinctIds (sort_members l)
unfolding sort_members
DistinctIds-sort_members [] d = tt
DistinctIds-sort_members (a ∷ l) d =
    DistinctIds-insert_member a (sort_members l) (All-sort_members (λ x. x.id ≢ a.id) l d.0)
      (DistinctIds-sort_members l d.1)

DistinctIds-take : (n : ℕ) (l : List RosterMember) → DistinctIds l → DistinctIds (take n l)
DistinctIds-take zero l d = tt
DistinctIds-take (suc n) [] d = tt
DistinctIds-take (suc n) (a ∷ l) d = (All-take (λ x. x.id ≢ a.id) n l d.0, DistinctIds-take n l d.1)

total-insert_member :
    (a : RosterMember) (l : List RosterMember) → total (insert_member a l) ≡ a.stake + total l
unfolding insert_member
total-insert_member a [] = refl
total-insert_member a (b ∷ rest) = ground (arith, total-insert_member a rest)

total-sort_members : (l : List RosterMember) → total (sort_members l) ≡ total l
unfolding sort_members
total-sort_members [] = refl
total-sort_members (a ∷ l) =
    omega (arith, total-insert_member a (sort_members l), total-sort_members l)

total-take : (n : ℕ) (l : List RosterMember) → total (take n l) ≤ total l
total-take zero l = omega arith
total-take (suc n) [] = omega arith
total-take (suc n) (a ∷ l) = omega (arith, total-take n l)

module _ (c : Crates) where
  All-staked {ℓ} :
      (P : RosterMember → Type ℓ) (l : List RosterMember) → All P l → All P (staked c l)
  unfolding staked
  All-staked P [] h = tt
  All-staked P (m ∷ l) h = elim (Bool-cases (has_stake c m)) [
    | inl kept ↦ rw kept (h.0, All-staked P l h.1)
    | inr other ↦ rw other (All-staked P l h.1)
  ]

  DistinctIds-staked : (l : List RosterMember) → DistinctIds l → DistinctIds (staked c l)
  unfolding staked
  DistinctIds-staked [] d = tt
  DistinctIds-staked (m ∷ l) d = elim (Bool-cases (has_stake c m)) [
    | inl kept ↦ rw kept (All-staked (λ x. x.id ≢ m.id) l d.0, DistinctIds-staked l d.1)
    | inr other ↦ rw other (DistinctIds-staked l d.1)
  ]

  total-staked : (l : List RosterMember) → total (staked c l) ≤ total l
  unfolding staked
  total-staked [] = omega arith
  total-staked (m ∷ l) = ground (arith, total-staked l)

  pub active_set-DistinctIds :
      (l : List RosterMember) → DistinctIds l → DistinctIds (active_set c l)
  unfolding active_set
  active_set-DistinctIds l d =
      elim (Bool-cases (ltb c.max_active_validators (length (staked c l)))) [
        | inl many ↦ rw many (
            DistinctIds-take c.max_active_validators (sort_members (staked c l))
              (DistinctIds-sort_members (staked c l) (DistinctIds-staked l d)))
        | inr few ↦ rw few (DistinctIds-staked l d)
      ]

  pub total-active_set : (l : List RosterMember) → total (active_set c l) ≤ total l
  unfolding active_set
  total-active_set l = ground (
    arith,
    total-take c.max_active_validators (sort_members (staked c l)),
    total-sort_members (staked c l),
    total-staked l,
  )

  -- The ids of a checked roster differ from one another and from those seen.
  pub check_members-DistinctIds :
      (ids : List ℕ) (keys : List Bytes) (l : List RosterMember)
      → check_members c ids keys l ≡ ok tt
      → DistinctIds l × All (λ m. counted ids m.id ≡ false) l
  unfolding check_members
  check_members-DistinctIds ids keys [] h = (tt, tt)
  check_members-DistinctIds ids keys (m ∷ l) h =
      let fresh : counted ids m.id ≡ false = ground arith in
      let rest : check_members c (m.id ∷ ids) (m.attest_pk ∷ keys) l ≡ ok tt = ground arith in
      let (d, a) = check_members-DistinctIds (m.id ∷ ids) (m.attest_pk ∷ keys) l rest in
      ((All-imp (λ x e. ground arith) l a, d), (fresh, All-imp (λ x e. ground arith) l a))
