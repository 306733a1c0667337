-- ===== src/Contract/Spans.antt =====
-- The overlap check of the call builders: spans sorted by their start, then each against the next.
pub mod Check
use qcore_rs.Prelude.{
  ℕ, zero, suc, ◌+◌, ◌-◌, ◌≤◌, ◌<◌, ◌≡◌, refl, ap, Bool, true, false, ◌&&◌, Option, none, some,
  List, [], ◌∷◌, ◌++◌, Result, ok, err, ltb, leb, if◌then◌else◌, length, arith, u64_max, All,
  All-imp, ◌⊎◌, inl, inr, ◌↔◌, Bool-cases, is_ok,
}

-- A start and a width.
abbrev pub Span : Type 0
Span = ℕ × ℕ

pub data SpanError : Type 0 where
  overflows overlap : SpanError

-- `sort_by_key(|span| span.0)`, which is stable
unfoldable pub insert_by_key : Span → List Span → List Span
insert_by_key a [] = a ∷ []
insert_by_key a (b ∷ rest) = if leb a.0 b.0 then a ∷ b ∷ rest else b ∷ insert_by_key a rest

unfoldable pub sort_by_key : List Span → List Span
unfolding insert_by_key
sort_by_key [] = []
sort_by_key (a ∷ rest) = insert_by_key a (sort_by_key rest)

-- the loop over `windows(2)`
unfoldable pub check_windows : List Span → Result SpanError (Unit {0})
check_windows [] = ok tt
check_windows (a ∷ []) = ok tt
check_windows (a ∷ (b ∷ rest)) =
    let later = check_windows (b ∷ rest) in
    if ltb u64_max (a.0 + a.1)
    then err SpanError.overflows
    else if ltb b.0 (a.0 + a.1)
    then err SpanError.overlap
    else later

unfoldable pub check_spans : List Span → Result SpanError (Unit {0})
unfolding sort_by_key check_windows
check_spans spans = check_windows (sort_by_key spans)

-- Two spans share no place.
abbrev pub Disjoint : Span → Span → Type 0
Disjoint a b = (a.0 + a.1 ≤ b.0) ⊎ (b.0 + b.1 ≤ a.0)

abbrev pub AllDisjoint : List Span → Type 0
AllDisjoint [] = Unit
AllDisjoint (a ∷ rest) = All (Disjoint a) rest × AllDisjoint rest
