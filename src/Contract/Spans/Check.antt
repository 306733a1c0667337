-- ===== src/Contract/Spans/Check.antt =====
-- The overlap check passes exactly the spans that share no place.
use qcore_rs.Prelude.{
  ◌+◌, ◌≤◌, ◌<◌, ◌≡◌, refl, List, [], ◌∷◌, ok, leb, arith, u64_max, All, All-imp, inl, inr, ◌↔◌,
  Bool-cases,
}
use qcore_rs.Contract.Spans.{
  Span, insert_by_key, sort_by_key, check_windows, check_spans, Disjoint, AllDisjoint,
}

abbrev IsOrdered : List Span → Type 0
IsOrdered [] = Unit
IsOrdered (a ∷ rest) = All (λ b. a.0 ≤ b.0) rest × IsOrdered rest

module _ {ℓ} (P : Span → Type ℓ) where
  All-insert_by_key : (a : Span) (l : List Span) → P a → All P l → All P (insert_by_key a l)
  unfolding insert_by_key
  All-insert_by_key a [] p h = (p, tt)
  All-insert_by_key a (b ∷ rest) p h = elim (Bool-cases (leb a.0 b.0)) [
    | inl before ↦ rw before (p, h)
    | inr after ↦ rw after (h.0, All-insert_by_key a rest p h.1)
  ]

  All-of_insert_by_key : (a : Span) (l : List Span) → All P (insert_by_key a l) → P a × All P l
  unfolding insert_by_key
  All-of_insert_by_key a [] h = (h.0, tt)
  All-of_insert_by_key a (b ∷ rest) h = elim (Bool-cases (leb a.0 b.0)) [
    | inl before ↦ rw before at h
    | inr after ↦
        let later : P b × All P (insert_by_key a rest) = rw after at h in
        let (p, all) = All-of_insert_by_key a rest later.1 in (p, (later.0, all))
  ]

  All-sort_by_key : (l : List Span) → All P l → All P (sort_by_key l)
  unfolding sort_by_key
  All-sort_by_key [] h = tt
  All-sort_by_key (a ∷ l) h = All-insert_by_key a (sort_by_key l) h.0 (All-sort_by_key l h.1)

  All-of_sort_by_key : (l : List Span) → All P (sort_by_key l) → All P l
  unfolding sort_by_key
  All-of_sort_by_key [] h = tt
  All-of_sort_by_key (a ∷ l) h =
      let (p, all) = All-of_insert_by_key a (sort_by_key l) h in (p, All-of_sort_by_key l all)

insert_by_key-IsOrdered : (a : Span) (l : List Span) → IsOrdered l → IsOrdered (insert_by_key a l)
unfolding insert_by_key
insert_by_key-IsOrdered a [] h = (tt, tt)
insert_by_key-IsOrdered a (b ∷ rest) h = elim (Bool-cases (leb a.0 b.0)) [
  | inl before ↦
      let ab : a.0 ≤ b.0 = ground arith in
      rw before (((ab, All-imp (λ c h'. omega arith) rest h.0), h))
  | inr after ↦
      let ba : b.0 ≤ a.0 = ground arith in
      rw after
        (All-insert_by_key (λ c. b.0 ≤ c.0) a rest ba h.0, insert_by_key-IsOrdered a rest h.1)
]

sort_by_key-IsOrdered : (l : List Span) → IsOrdered (sort_by_key l)
unfolding sort_by_key
sort_by_key-IsOrdered [] = tt
sort_by_key-IsOrdered (a ∷ l) = insert_by_key-IsOrdered a (sort_by_key l) (sort_by_key-IsOrdered l)

-- Each span ends before the next ones begin.
abbrev IsApart : List Span → Type 0
IsApart [] = Unit
IsApart (a ∷ rest) = All (λ b. a.0 + a.1 ≤ b.0) rest × IsApart rest

check_windows-IsApart : (l : List Span) → IsOrdered l → check_windows l ≡ ok tt → IsApart l
unfolding check_windows
check_windows-IsApart [] o h = tt
check_windows-IsApart (a ∷ []) o h = (tt, tt)
check_windows-IsApart (a ∷ (b ∷ rest)) o h =
    let ends : a.0 + a.1 ≤ b.0 = ground arith in
    (
      (ends, All-imp (λ c h'. omega arith) rest o.1.0),
      check_windows-IsApart (b ∷ rest) o.1 (ground arith),
    )

AllDisjoint-IsApart : (l : List Span) → IsApart l → AllDisjoint l
AllDisjoint-IsApart [] h = tt
AllDisjoint-IsApart (a ∷ rest) h = (All-imp (λ b e. inl e) rest h.0, AllDisjoint-IsApart rest h.1)

Disjoint-sym : (a b : Span) → Disjoint a b → Disjoint b a
Disjoint-sym a b (inl h) = inr h
Disjoint-sym a b (inr h) = inl h

AllDisjoint-insert_by_key :
    (a : Span) (l : List Span)
    → All (Disjoint a) l
    → AllDisjoint l
    → AllDisjoint (insert_by_key a l)
unfolding insert_by_key
AllDisjoint-insert_by_key a [] h d = (tt, tt)
AllDisjoint-insert_by_key a (b ∷ rest) h d = elim (Bool-cases (leb a.0 b.0)) [
  | inl before ↦ rw before (h, d)
  | inr after ↦ rw after (
    All-insert_by_key (Disjoint b) a rest (Disjoint-sym a b h.0) d.0,
    AllDisjoint-insert_by_key a rest h.1 d.1,
  )
]

AllDisjoint-of_insert_by_key :
    (a : Span) (l : List Span)
    → AllDisjoint (insert_by_key a l)
    → All (Disjoint a) l × AllDisjoint l
unfolding insert_by_key
AllDisjoint-of_insert_by_key a [] h = (tt, tt)
AllDisjoint-of_insert_by_key a (b ∷ rest) h = elim (Bool-cases (leb a.0 b.0)) [
  | inl before ↦ rw before at h
  | inr after ↦
      let split : All (Disjoint b) (insert_by_key a rest) × AllDisjoint (insert_by_key a rest) =
        rw after at h in
      let (ba, others) = All-of_insert_by_key (Disjoint b) a rest split.0 in
      let (those, apart) = AllDisjoint-of_insert_by_key a rest split.1 in
      ((Disjoint-sym b a ba, those), (others, apart))
]

AllDisjoint-sort_by_key : (l : List Span) → AllDisjoint l → AllDisjoint (sort_by_key l)
unfolding sort_by_key
AllDisjoint-sort_by_key [] d = tt
AllDisjoint-sort_by_key (a ∷ l) d =
    AllDisjoint-insert_by_key a (sort_by_key l) (All-sort_by_key (Disjoint a) l d.0)
      (AllDisjoint-sort_by_key l d.1)

AllDisjoint-of_sort_by_key : (l : List Span) → AllDisjoint (sort_by_key l) → AllDisjoint l
unfolding sort_by_key
AllDisjoint-of_sort_by_key [] d = tt
AllDisjoint-of_sort_by_key (a ∷ l) d =
    let (those, apart) = AllDisjoint-of_insert_by_key a (sort_by_key l) d in
    (All-of_sort_by_key (Disjoint a) l those, AllDisjoint-of_sort_by_key l apart)

-- The spans of a call: not empty, and ending at a u64.
abbrev pub IsProper : Span → Type 0
IsProper a = (0 < a.1) × (a.0 + a.1 ≤ u64_max)

check_windows-of_AllDisjoint :
    (l : List Span) → IsOrdered l → All IsProper l → AllDisjoint l → check_windows l ≡ ok tt
unfolding check_windows
check_windows-of_AllDisjoint [] o p d = refl
check_windows-of_AllDisjoint (a ∷ []) o p d = refl
check_windows-of_AllDisjoint (a ∷ (b ∷ rest)) o p d =
    ground (arith, check_windows-of_AllDisjoint (b ∷ rest) o.1 p.1 d.1)

-- For spans that are not empty and end at a u64, in any order, the check passes exactly when no two
-- of them share a place.
pub check_spans_iff :
    (spans : List Span) → All IsProper spans → (check_spans spans ≡ ok tt) ↔ AllDisjoint spans
unfolding check_spans
check_spans_iff spans p = (
  λ h. AllDisjoint-of_sort_by_key spans (
      AllDisjoint-IsApart (sort_by_key spans)
        (check_windows-IsApart (sort_by_key spans) (sort_by_key-IsOrdered spans) h)),
  λ d.
      check_windows-of_AllDisjoint (sort_by_key spans) (sort_by_key-IsOrdered spans)
        (All-sort_by_key IsProper spans p) (AllDisjoint-sort_by_key spans d),
)
