-- ===== src/Finality/Wire/ReadBack.antt =====
-- `parse_roster` of src/finality.rs, on rosters as a gateway writes them.
use qcore_rs.Prelude.{
  ◌≤◌, ◌<◌, ◌≡◌, refl, true, List, [], ◌∷◌, ok, ◌==◌, list_eq, nat_eq, length, codes, All, arith,
  u64_max,
}
use qcore_rs.Prelude.Decimal.{decimal}
use qcore_rs.Prelude.Decimal.ReadBack.{decimal-IsDigit}
use qcore_rs.Prelude.Utf8.{utf8_run}
use qcore_rs.Json.{
  Json, Items, no_items, item, no_fields, field, render, get, as_str, as_u64, as_array,
}
use qcore_rs.Json.Hex.{to_hex, to_hex-IsInk, from_hex-to_hex}
use qcore_rs.Json.RoundTrip.{parse-render}
use qcore_rs.Json.RoundTrip.Values.{IsWritable, AreWritable}
use qcore_rs.Gateway.ReadBack.{digits-utf8_run}
use qcore_rs.Contract.Answers.ReadBack.{ink-utf8_run, u64_of-decimal}
use qcore_rs.Finality.Quorum.{RosterMember, max_roster}
use qcore_rs.Finality.Wire.{parse_roster, members_of, member_of, digits, count_items}

-- A member: its numbers, but for its id, as decimal texts, and its bytes as hex.
abbrev member_json : RosterMember → Json
member_json m = Json.object (
    field (codes "id") (Json.int m.id) (
      field (codes "stake") (Json.str (decimal m.stake)) (
        field (codes "attest_pk") (Json.str (to_hex m.attest_pk)) (
          field (codes "root") (Json.str (to_hex m.root.digest))
            (field (codes "root_slots") (Json.str (decimal m.root.slots)) no_fields)))))

unfoldable pub member_items : List RosterMember → Items
member_items [] = no_items
member_items (m ∷ roster) = item (member_json m) (member_items roster)

-- A member whose numbers are u64 and whose root is of 32 bytes.
abbrev pub IsMember : RosterMember → Type 0
IsMember m =
    (m.id ≤ u64_max)
    × (m.stake ≤ u64_max)
    × (m.root.slots ≤ u64_max)
    × (length m.root.digest ≡ 32)
    × All (λ b. b < 256) m.root.digest
    × All (λ b. b < 256) m.attest_pk

member_items-AreWritable :
    (roster : List RosterMember) → All IsMember roster → AreWritable 127 (member_items roster)
unfolding member_items IsWritable utf8_run
member_items-AreWritable [] a = tt
member_items-AreWritable (m ∷ roster) a = (
  (
    refl,
    refl,
    a.0.0,
    (
      refl,
      refl,
      digits-utf8_run (decimal m.stake) (decimal-IsDigit m.stake),
      (
        refl,
        refl,
        ink-utf8_run (to_hex m.attest_pk) (to_hex-IsInk m.attest_pk a.0.5),
        (
          refl,
          refl,
          ink-utf8_run (to_hex m.root.digest) (to_hex-IsInk m.root.digest a.0.4),
          (refl, refl, digits-utf8_run (decimal m.root.slots) (decimal-IsDigit m.root.slots), tt),
        ),
      ),
    ),
  ),
  member_items-AreWritable roster a.1,
)

count_items-member_items :
    (roster : List RosterMember) → count_items (member_items roster) ≡ length roster
unfolding count_items member_items
count_items-member_items [] = refl
count_items-member_items (m ∷ roster) = omega (arith, count_items-member_items roster)

member_of-member_json : (m : RosterMember) → IsMember m → member_of (member_json m) ≡ ok m
unfolding member_of get as_str as_u64 digits
member_of-member_json m a =
    let wide : (length m.root.digest == 32) ≡ true = ground (arith, a.3) in
    rw
      (
        from_hex-to_hex m.attest_pk a.5,
        from_hex-to_hex m.root.digest a.4,
        wide,
        u64_of-decimal m.stake a.1,
        u64_of-decimal m.root.slots a.2,
      )
      refl

members_of-member_items :
    (roster : List RosterMember)
    → All IsMember roster
    → members_of (member_items roster) ≡ ok roster
unfolding members_of member_items
members_of-member_items [] a = refl
members_of-member_items (m ∷ roster) a =
    rw (member_of-member_json m a.0, members_of-member_items roster a.1) refl

-- A roster of at most 4096 members, written with ids as numbers, stakes and slots as decimal texts
-- and bytes as hex, is read as that roster, member by member and in order.
pub parse_roster-render :
    (roster : List RosterMember)
    → length roster ≤ max_roster
    → All IsMember roster
    → parse_roster (render (Json.array (member_items roster))) ≡ ok roster
unfolding parse_roster as_array IsWritable
parse_roster-render roster short a =
    let few = count_items-member_items roster in
    rw (parse-render (Json.array (member_items roster)) (member_items-AreWritable roster a))
      (ground (arith, few, short, members_of-member_items roster a))
