-- ===== src/Client/Trust/Kept.antt =====
-- `keep_roster` of the client: the rosters that are kept, and those that are dropped for them.
use qcore_rs.Prelude.{
  ℕ, zero, suc, ◌+◌, ◌≤◌, ◌<◌, ◌≡◌, refl, Bool, true, false, Bool-cases, Option, none, some, List,
  [], ◌∷◌, arith, inl, inr, if◌then◌else◌, Option-cases, ltb, leb, ◌==◌, length, All, Bytes,
}
use qcore_rs.Map.Ordered
use qcore_rs.Map.Ordered.{OrderedMap, IsSorted, insert-IsSorted, retain-IsSorted}
use qcore_rs.Finality.Quorum.{RosterMember}
use qcore_rs.Finality.Epochs.{VerifiedRoster}
use qcore_rs.Client.{TrustedRoster}
use qcore_rs.Client.Trust.{kept_rosters, last_upto, second_key, evict, keep_roster}

abbrev Rosters : Type 0
Rosters = OrderedMap (List RosterMember)

abbrev pub named : ℕ × List RosterMember → VerifiedRoster
named (epoch, members) = record { epoch = epoch; members = members }

-- Whether the first entry is that roster.
abbrev pub IsFirst : VerifiedRoster → OrderedMap (List RosterMember) → Type 0
IsFirst first [] = ⊥
IsFirst first ((epoch, members) ∷ rest) = (epoch ≡ first.epoch) × (members ≡ first.members)

evict_few :
    (rounds : ℕ) (m : Rosters) → ltb kept_rosters (length m) ≡ false → evict (suc rounds) m ≡ m
unfolding evict
evict_few rounds m h = rw (h, evict) refl

evict_many :
    (rounds : ℕ) (m : Rosters) (oldest : ℕ)
    → ltb kept_rosters (length m) ≡ true
    → second_key m ≡ some oldest
    → evict (suc rounds) m ≡ evict rounds (Ordered.remove oldest m)
unfolding evict
evict_many rounds m oldest h at = rw (h, evict) (rw at refl)

second_key-some :
    (m : Rosters) → ltb kept_rosters (length m) ≡ true → (oldest : ℕ) × (second_key m ≡ some oldest)
second_key-some [] h = absurd (ground arith)
second_key-some (x ∷ []) h = absurd (ground arith)
second_key-some (x ∷ ((k, v) ∷ rest)) h = (k, refl)

-- What a removal of the second roster keeps, `evict` keeps.
evict-keeps :
    (Q : Rosters → Type 0)
    → ((m : Rosters) (oldest : ℕ) → second_key m ≡ some oldest → Q m → Q (Ordered.remove oldest m))
    → (rounds : ℕ) (m : Rosters) → Q m
    → Q (evict rounds m)
unfolding evict
evict-keeps Q step zero m q = q
evict-keeps Q step (suc rounds) m q = elim (Bool-cases (ltb kept_rosters (length m))) [
  | inr few ↦ rw (evict_few rounds m few) q
  | inl many ↦
      let (oldest, at) = second_key-some m many in
      rw (evict_many rounds m oldest many at)
        (evict-keeps Q step rounds (Ordered.remove oldest m) (step m oldest at q))
]

length-retain :
    (test : ℕ → List RosterMember → Bool) (m : Rosters) → length (Ordered.retain test m) ≤ length m
unfolding Ordered.retain
length-retain test [] = omega arith
length-retain test ((j, w) ∷ m) = ground (arith, length-retain test m)

-- The second roster is one, so there is one less without it.
length-remove_second :
    (m : Rosters) (oldest : ℕ)
    → second_key m ≡ some oldest
    → length (Ordered.remove oldest m) < length m
unfolding Ordered.remove Ordered.retain
length-remove_second [] oldest at = absurd (cc)
length-remove_second (x ∷ []) oldest at = absurd (cc)
length-remove_second ((j, w) ∷ ((k, v) ∷ rest)) oldest at = ground (
  arith,
  at,
  length-retain (λ (j : ℕ) (w : List RosterMember). if j == oldest then false else true) rest,
)

-- At most 32 rosters are left, where there are rounds enough.
length-evict :
    (rounds : ℕ) (m : Rosters)
    → length m ≤ rounds + kept_rosters
    → length (evict rounds m) ≤ kept_rosters
unfolding evict
length-evict zero m h = omega arith
length-evict (suc rounds) m h = elim (Bool-cases (ltb kept_rosters (length m))) [
  | inr few ↦ rw (evict_few rounds m few) (ground (arith, few))
  | inl many ↦
      let (oldest, at) = second_key-some m many in
      let fewer = length-remove_second m oldest at in
      rw (evict_many rounds m oldest many at)
        (length-evict rounds (Ordered.remove oldest m) (omega arith))
]

module _ (P : VerifiedRoster → Type 0) where
  abbrev AllNamed : Rosters → Type 0
  AllNamed = All (λ r. P (named r))

  insert-AllNamed :
      (current : VerifiedRoster) (m : Rosters)
      → P current
      → AllNamed m
      → AllNamed (Ordered.insert current.epoch current.members m)
  unfolding Ordered.insert
  insert-AllNamed current [] p a = (p, tt)
  insert-AllNamed current ((j, w) ∷ m) p a = ground (arith, insert-AllNamed current m p a.1)

  retain-AllNamed :
      (test : ℕ → List RosterMember → Bool) (m : Rosters)
      → AllNamed m
      → AllNamed (Ordered.retain test m)
  unfolding Ordered.retain
  retain-AllNamed test [] a = tt
  retain-AllNamed test ((j, w) ∷ m) a = ground (arith, retain-AllNamed test m a.1)

  -- The rosters of a trusted state: the first one is at the front, they are in order, each of them is
  -- one of `P`, and they are at most 32.
  abbrev pub Holds : Bytes → VerifiedRoster → Option TrustedRoster → Type 0
  Holds genesis first none = ⊥
  Holds genesis first (some trusted) =
      (trusted.genesis ≡ genesis)
      × IsFirst first trusted.rosters
      × IsSorted trusted.rosters
      × AllNamed trusted.rosters
      × (length trusted.rosters ≤ kept_rosters)

  -- The loop that drops rosters keeps the first one.
  remove-InOrder :
      (first : VerifiedRoster) (m : Rosters) (oldest : ℕ)
      → second_key m ≡ some oldest
      → IsFirst first m × IsSorted m × AllNamed m
      → IsFirst first (Ordered.remove oldest m)
        × IsSorted (Ordered.remove oldest m)
        × AllNamed (Ordered.remove oldest m)
  unfolding Ordered.remove Ordered.retain
  remove-InOrder first [] oldest at q = absurd (cc)
  remove-InOrder first (x ∷ []) oldest at q = absurd (cc)
  remove-InOrder first ((j, w) ∷ ((k, v) ∷ rest)) oldest at q =
      let test = λ (i : ℕ) (w : List RosterMember). if i == oldest then false else true in
      let m = (j, w) ∷ ((k, v) ∷ rest) in
      (ground (arith, at, q.0, q.1), retain-IsSorted test m q.1, retain-AllNamed test m q.2)

  insert-IsFirst :
      (first current : VerifiedRoster) (m : Rosters)
      → first.epoch < current.epoch
      → IsFirst first m
      → IsFirst first (Ordered.insert current.epoch current.members m)
  unfolding Ordered.insert
  insert-IsFirst first current [] h at = absurd at
  insert-IsFirst first current ((j, w) ∷ m) h at = ground (arith, at)

  pub keep_roster-Holds :
      (genesis : Bytes) (first current : VerifiedRoster) (o : Option TrustedRoster)
      → first.epoch < current.epoch
      → P current
      → Holds genesis first o
      → Holds genesis first (keep_roster current o)
  unfolding keep_roster
  keep_roster-Holds genesis first current none h p q = q
  keep_roster-Holds genesis first current (some trusted) h p q =
      let m = Ordered.insert current.epoch current.members trusted.rosters in
      let kept =
        evict-keeps (λ m. IsFirst first m × IsSorted m × AllNamed m) (remove-InOrder first)
          (length m) m
          (
            insert-IsFirst first current trusted.rosters h q.1,
            insert-IsSorted current.epoch current.members trusted.rosters q.2,
            insert-AllNamed current trusted.rosters p q.3,
          ) in
      (q.0, kept.0, kept.1, kept.2, length-evict (length m) m (omega arith))

  -- The roster to start from is one of them, and not of a later epoch.
  pub last_upto-Named :
      (epoch : ℕ) (m : Rosters) (r : ℕ × List RosterMember)
      → AllNamed m
      → last_upto epoch m ≡ some r
      → P (named r) × (r.0 ≤ epoch)
  unfolding last_upto
  last_upto-Named epoch [] r a h = absurd (cc)
  last_upto-Named epoch ((start, v) ∷ rest) r a h = elim (Option-cases (last_upto epoch rest)) [
    | inr (later, at) ↦ last_upto-Named epoch rest r a.1 (ground (arith, at, h))
    | inl last ↦
        let whole : (leb start epoch ≡ true) × (r ≡ (start, v)) = ground (arith, last, h) in
        rw whole.1 (a.0, ground (arith, whole.0))
  ]
