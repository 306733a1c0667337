-- ===== src/Finality/Wire/Fits.antt =====
-- `parse_roster` of src/finality.rs: what the members that it reads fit.
use qcore_rs.Prelude.{
  ℕ, suc, ◌≤◌, ◌≡◌, refl, sym, ap, ◌∙◌, Option-cases, inl, inr, map_err_ok, false, Option, some,
  none, List, [], ◌∷◌, ok, ok_or, ok_or_ok, bind_ok, refuse_ok, map_err, length, ltb, All, Text,
  Bytes, codes, arith, u64_max,
}
use qcore_rs.Json.{Json, Items, no_items, item, get, as_str, as_u64, as_array}
use qcore_rs.Json.Parser.{parse}
use qcore_rs.Json.Parser.Bounds.{
  IsBounded, AreBounded, parse-IsBounded, get-IsBounded, as_u64-bound, as_array-AreBounded,
}
use qcore_rs.Gateway.{canonical_decimal, and_then, at_most}
use qcore_rs.Contract.Answers.{u64_of}
use qcore_rs.Finality.Quorum.{RosterMember, max_roster}
use qcore_rs.Finality.Wire.{
  WireError, digits, hex_in, array_32, member_of, members_of, count_items, parse_roster,
}

-- The id, the stake and the slots are u64, and the root is of 32 bytes.
abbrev pub FitsWords : RosterMember → Type 0
FitsWords m =
    (m.id ≤ u64_max) × (m.stake ≤ u64_max) × (m.root.slots ≤ u64_max) × (length m.root.digest ≡ 32)

at_most_bound : (o : Option ℕ) (n : ℕ) → at_most u64_max o ≡ some n → n ≤ u64_max
at_most_bound none n h = absurd (cc)
at_most_bound (some m) n h = ground (arith, h)

digits_bound : (v : Json) (key : Text) (n : ℕ) → digits v key ≡ ok n → n ≤ u64_max
unfolding digits
digits_bound v key n h =
    let (text, e, read) =
      bind_ok (ok_or (and_then (get key v) as_str) (WireError.no_digits key)) _ n h in
    at_most_bound (canonical_decimal text) n
      (ok_or_ok (u64_of text) (WireError.not_canonical key) n read)

array_32-length :
    (bytes digest : Bytes) (e : WireError) → array_32 bytes e ≡ ok digest → length digest ≡ 32
array_32-length bytes digest e h = ground (arith, h)

id_bound :
    (v : Json) (id : ℕ)
    → IsBounded v
    → ok_or (and_then (get (codes "id") v) as_u64) WireError.no_id ≡ ok id
    → id ≤ u64_max
id_bound v id b h = elim (Option-cases (get (codes "id") v)) [
  | inl e ↦ absurd (cc)
  | inr (w, e) ↦
      let read : ok_or (as_u64 w) WireError.no_id ≡ ok id =
        ap (λ o. ok_or (and_then o as_u64) WireError.no_id) (sym e) ∙ h in
      as_u64-bound w id (get-IsBounded (codes "id") v w b e)
        (ok_or_ok (as_u64 w) WireError.no_id id read)
]

member_of-FitsWords : (v : Json) (m : RosterMember) → IsBounded v → member_of v ≡ ok m → FitsWords m
unfolding member_of
member_of-FitsWords v m b h =
    let (id, e1, h1) =
      bind_ok (ok_or (and_then (get (codes "id") v) as_u64) WireError.no_id) _ m h in
    let (attest_pk, e2, h2) =
      bind_ok (hex_in v (codes "attest_pk") WireError.no_attest_pk) _ m h1 in
    let (root, e3, h3) = bind_ok (hex_in v (codes "root") WireError.no_root) _ m h2 in
    let (digest, e4, h4) = bind_ok (array_32 root WireError.root_not_32_bytes) _ m h3 in
    let (stake, e5, h5) = bind_ok (digits v (codes "stake")) _ m h4 in
    let (slots, e6, h6) = bind_ok (digits v (codes "root_slots")) _ m h5 in
    let whole : record {
      id = id;
      stake = stake;
      attest_pk = attest_pk;
      root = record { digest = digest; slots = slots };
    }
        ≡ m =
      cc in
    rw (← whole) (
      id_bound v id b e1,
      digits_bound v (codes "stake") stake e5,
      digits_bound v (codes "root_slots") slots e6,
      array_32-length root digest WireError.root_not_32_bytes e4,
    )

members_of-FitsWords :
    (items : Items) (roster : List RosterMember)
    → AreBounded items
    → members_of items ≡ ok roster
    → (length roster ≡ count_items items) × All FitsWords roster
unfolding members_of count_items IsBounded
members_of-FitsWords no_items [] b h = (refl, tt)
members_of-FitsWords no_items (m ∷ roster) b h = absurd (cc)
members_of-FitsWords (item v rest) roster b h =
    let (member, e1, h1) = bind_ok (member_of v) _ roster h in
    let (later, e2, h2) = bind_ok (members_of rest) _ roster h1 in
    let (same, fits) = members_of-FitsWords rest later b.1 e2 in
    let whole : member ∷ later ≡ roster = cc in
    rw (← whole) (ap suc same, (member_of-FitsWords v member b.0 e1, fits))

within : (n m top : ℕ) → ltb top n ≡ false → m ≡ n → m ≤ top
within n m top h same = ground arith

-- Whatever text a gateway sends, the roster that is read from it has at most 4096 members, and each
-- has an id, a stake and slots that are u64 and a root of 32 bytes.
pub parse_roster-FitsWords :
    (text : Text) (roster : List RosterMember)
    → parse_roster text ≡ ok roster
    → (length roster ≤ max_roster) × All FitsWords roster
unfolding parse_roster
parse_roster-FitsWords text roster h =
    let (v, e1, h1) = bind_ok (map_err WireError.not_json (parse text)) _ roster h in
    let (items, e2, h2) = bind_ok (ok_or (as_array v) WireError.not_an_array) _ roster h1 in
    let (few, h3) =
      refuse_ok (ltb max_roster (count_items items)) WireError.roster_too_large (members_of items)
        roster h2 in
    let read = map_err_ok WireError.not_json (parse text) v e1 in
    let bounded =
      as_array-AreBounded v items (parse-IsBounded text v read)
        (ok_or_ok (as_array v) WireError.not_an_array items e2) in
    let (same, fits) = members_of-FitsWords items roster bounded h3 in
    (within (count_items items) (length roster) max_roster few same, fits)
