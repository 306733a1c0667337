-- ===== src/Session/Heads.antt =====
-- The heads that a session remembers: the highest of each chain, with the time it was first seen.
use qcore_rs.Prelude.{
  ℕ, ◌≤◌, ◌≡◌, ◌≢◌, refl, Bool, true, none, some, List, [], ◌∷◌, if◌then◌else◌, is_same, list_eq,
  nat_eq, Text, arith, beq_list_iff, ltb, any, All, ◌&&◌, ◌==◌,
}
use qcore_rs.Map
use qcore_rs.Session.{SigningSession, head_floor, note_head, raised_head}

-- The reports that a gateway makes of one chain, noted one after the other.
abbrev pub Report : Type 0
Report = ℕ × ℕ

abbrev pub note_all : SigningSession → Text → List Report → SigningSession
note_all s chain [] = s
note_all s chain (r ∷ rs) = note_all (note_head s chain r.0 r.1) chain rs

head_floor-note_head :
    (s : SigningSession) (chain other : Text) (height wall_secs : ℕ)
    → head_floor (note_head s chain height wall_secs) other ≡ (
        if is_same chain other
        then some (raised_head (head_floor s chain) height wall_secs)
        else head_floor s other)
unfolding note_head
head_floor-note_head s chain other height wall_secs =
    rw Map.get-insert (ground (arith, beq_list_iff chain other))

-- The first of the reports at the greatest height, from the one that stood before.
abbrev pub highest : Report → List Report → Report
highest best [] = best
highest best (r ∷ rs) = highest (if ltb best.0 r.0 then r else best) rs

highest-from :
    (s : SigningSession) (chain : Text) (best : Report) (rs : List Report)
    → head_floor s chain ≡ some best
    → head_floor (note_all s chain rs) chain ≡ some (highest best rs)
highest-from s chain best [] h = h
highest-from s chain best (r ∷ rs) h =
    highest-from (note_head s chain r.0 r.1) chain (if ltb best.0 r.0 then r else best) rs
      (ground (arith, head_floor-note_head s chain chain r.0 r.1, beq_list_iff chain chain))

highest_bounds :
    (best : Report) (rs : List Report)
    → (best.0 ≤ (highest best rs).0) × All (λ q. q.0 ≤ (highest best rs).0) rs
highest_bounds best [] = (omega arith, tt)
highest_bounds best (r ∷ rs) =
    let later = highest_bounds (if ltb best.0 r.0 then r else best) rs in
    (ground (arith, later.0), (ground (arith, later.0), later.1))

abbrev pub is_among : Report → List Report → Bool
is_among a = any (λ b. a.0 == b.0 && a.1 == b.1)

highest-is_among :
    (best : Report) (rs : List Report) → is_among (highest best rs) (best ∷ rs) ≡ true
highest-is_among best [] = ground arith
highest-is_among best (r ∷ rs) =
    ground (arith, highest-is_among (if ltb best.0 r.0 then r else best) rs)

unmoved :
    (s : SigningSession) (chain other : Text) (rs : List Report)
    → chain ≢ other
    → head_floor (note_all s chain rs) other ≡ head_floor s other
unmoved s chain other [] ne = refl
unmoved s chain other (r ∷ rs) ne = ground (
  arith,
  unmoved (note_head s chain r.0 r.1) chain other rs ne,
  head_floor-note_head s chain other r.0 r.1,
  beq_list_iff chain other,
)

-- After any reports of a chain that the session had not noted before, its floor is one of those
-- reports, at a height that none of them exceeds; another chain keeps the floor it had.
pub head_floor-note_all :
    (s : SigningSession) (chain other : Text) (r : Report) (rs : List Report)
    → head_floor s chain ≡ none
    → chain ≢ other
    → (best : Report) × (head_floor (note_all s chain (r ∷ rs)) chain ≡ some best)
      × (is_among best (r ∷ rs) ≡ true)
      × All (λ q. q.0 ≤ best.0) (r ∷ rs)
      × (head_floor (note_all s chain (r ∷ rs)) other ≡ head_floor s other)
head_floor-note_all s chain other r rs h ne = (
  highest r rs,
  highest-from (note_head s chain r.0 r.1) chain r rs
      (ground (arith, head_floor-note_head s chain chain r.0 r.1, beq_list_iff chain chain)),
  highest-is_among r rs,
  highest_bounds r rs,
  unmoved s chain other (r ∷ rs) ne,
)
