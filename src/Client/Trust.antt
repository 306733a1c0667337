-- ===== src/Client/Trust.antt =====
-- The rosters that the client of src/lib.rs trusts, and how it takes them from epoch to epoch.
pub mod Steps
pub mod Kept
pub mod Proven
pub mod Anchored
use qcore_rs.Prelude.{
  ℕ, zero, suc, ◌+◌, ◌-◌, Bool, true, false, not, ◌&&◌, ◌||◌, Option, none, some, List, [], ◌∷◌,
  Result, ok, err, refuse, ok_or, ltb, leb, ◌==◌, if◌then◌else◌, is_same, list_eq, nat_eq, length,
  map_err, Bytes, Text, codes,
}
use qcore_rs.Map.Ordered
use qcore_rs.Map.Ordered.{OrderedMap}
use qcore_rs.Json.{Json, no_fields, field, render, get, as_str, as_u64}
use qcore_rs.Json.Parser.{parse}
use qcore_rs.Json.Hex.{from_hex}
use qcore_rs.Gateway.{NodeInfo, and_then}
use qcore_rs.Chain.{ChainClock, network_clock, known_clock, bounded_valid_until_for, chain_clock}
use qcore_rs.Session.{SigningSession, head_floor, note_head}
use qcore_rs.Contract.OrderCall.{OrderCrates}
use qcore_rs.Finality.Crates.{Crates}
use qcore_rs.Finality.Quorum.{RosterMember}
use qcore_rs.Finality.Epochs.{
  VerifiedRoster, VerifiedAccount, header_height, epoch_of, roster_commitment_of,
  verify_finality_in_epoch, verify_next_roster, verify_account,
}
use qcore_rs.Finality.Wire.{parse_roster}
use qcore_rs.Client.{
  Setup, Client, TrustedRoster, ClientError, Act, give, pure, rpc, node_info, signing_genesis,
  on_shared, ◌>>=◌, ◌>>◌,
}
use qcore_rs.Client.Endpoint.{checked_chain_id, is_mainnet_chain, is_public_chain}

abbrev pub kept_rosters : ℕ
kept_rosters = 32

-- `range(..=epoch).next_back()`, for entries in the order of their keys
unfoldable pub last_upto {ℓ} : {V : Type ℓ} → ℕ → OrderedMap V → Option (ℕ × V)
last_upto epoch [] = none
last_upto epoch ((start, v) ∷ rest) =
    let later = last_upto epoch rest in
    if leb start epoch then elim later [ none ↦ some (start, v) | some x ↦ some x ] else none

-- `keys().nth(1)`
abbrev pub second_key {ℓ} : {V : Type ℓ} → OrderedMap V → Option ℕ
second_key (first ∷ ((key, v) ∷ rest)) = some key
second_key _ = none

-- the loop that drops the second roster while there are too many, with a round for each roster
unfoldable pub evict : ℕ → OrderedMap (List RosterMember) → OrderedMap (List RosterMember)
evict zero rosters = rosters
evict (suc rounds) rosters = elim (ltb kept_rosters (length rosters)) [
  | false ↦ rosters
  | true ↦ elim (second_key rosters) [
    | none ↦ rosters
    | some oldest ↦ evict rounds (Ordered.remove oldest rosters)
  ]
]

-- `rosters.insert(..)`, and what is dropped for it
unfoldable pub keep_roster : VerifiedRoster → Option TrustedRoster → Option TrustedRoster
unfolding evict
keep_roster current none = none
keep_roster current (some trusted) =
    let rosters = Ordered.insert current.epoch current.members trusted.rosters in
    some (record trusted { rosters = evict (length rosters) rosters })

abbrev pub epoch_body : ℕ → Text
epoch_body epoch = render (Json.object (field (codes "epoch") (Json.int epoch) no_fields))

abbrev pub number_in : Json → Text → Option ℕ
number_in answer key = and_then (get key answer) as_u64

abbrev pub is_number : ℕ → Option ℕ → Bool
is_number n none = false
is_number n (some m) = m == n

module _ {G : Type 0} (c : OrderCrates) (f : Crates) (setup : Setup G) where
  unfoldable pub ask : Text → Text → Act G Json
  unfolding rpc parse
  ask method body = do
    text ← rpc c setup method body
    give (map_err ClientError.not_json (parse text))

  -- the text at `key` of an answer, as hex
  unfoldable pub bytes_in : Json → Text → Act G Bytes
  unfolding get as_str from_hex
  bytes_in answer key = do
    text ← give (ok_or (and_then (get key answer) as_str) (ClientError.answer_without key))
    give (map_err ClientError.not_hex (from_hex text))

  unfoldable pub members_in : Json → Act G (List RosterMember)
  unfolding get parse_roster
  members_in answer = do
    members ←
        give (ok_or (get (codes "members") answer) (ClientError.answer_without (codes "members")))
    give (map_err ClientError.bad_wire (parse_roster (render members)))

  unfoldable pub trust_roster_at : Bytes → ℕ → List RosterMember → Act G (Unit {0})
  trust_roster_at genesis epoch roster = do
    give (refuse (length roster == 0) ClientError.empty_roster)
    (λ s. (
      ok tt,
      record s {
        trusted_roster = some (record { genesis = genesis; rosters = (epoch, roster) ∷ [] });
      },
    ))

  unfoldable pub trust_roster : Bytes → List RosterMember → Act G (Unit {0})
  unfolding trust_roster_at
  trust_roster genesis roster = trust_roster_at genesis 0 roster

  unfoldable pub anchor_at : Option TrustedRoster → Option Bytes → Option Bytes → Act G Bool
  unfolding roster_commitment_of trust_roster_at
  anchor_at (some trusted) genesis commitment = pure true
  anchor_at none (some genesis) (some commitment) = do
    answer ← ask (codes "get_roster_proof") (epoch_body 0)
    members ← members_in answer
    give (
        refuse (not (is_same (roster_commitment_of f 0 members) commitment))
          ClientError.other_pinned_roster)
    trust_roster_at genesis 0 members
    pure true
  anchor_at none _ _ = pure false

  unfoldable pub anchor_pinned_roster : Act G Bool
  unfolding anchor_at
  anchor_pinned_roster s = anchor_at s.trusted_roster setup.genesis_hash setup.roster_commitment s

  abbrev pub pinned_length : Option ℕ → Result ClientError ℕ
  pinned_length none = err ClientError.no_epoch_length
  pinned_length (some n) = if ltb 0 n then ok n else err ClientError.no_epoch_length

  unfoldable pub epoch_length : Act G ℕ
  epoch_length = give (pinned_length setup.epoch_length)

  unfoldable pub answers_epoch : ℕ → Json → Act G (Unit {0})
  unfolding get as_u64
  answers_epoch next answer = give (
      refuse (not (is_number next (number_in answer (codes "epoch"))))
        (ClientError.other_roster_epoch next))

  -- the body of the loop, up to the roster that is proven
  unfoldable pub next_roster : ℕ → Bytes → ℕ → VerifiedRoster → Act G VerifiedRoster
  next_roster chain_id genesis span current = do
    answer ← ask (codes "get_roster_proof") (epoch_body (current.epoch + 1))
    answers_epoch (current.epoch + 1) answer
    members ← members_in answer
    header ← bytes_in answer (codes "header_bytes")
    certificate ← bytes_in answer (codes "certificate")
    proof ← bytes_in answer (codes "proof")
    give (
        map_err ClientError.bad_epoch
          (verify_next_roster f chain_id genesis span current header certificate members proof))

  unfoldable pub keep : VerifiedRoster → Act G (Unit {0})
  unfolding keep_roster
  keep current s = (ok tt, record s { trusted_roster = keep_roster current s.trusted_roster })

  -- the loop, with a round for each epoch that is left
  unfoldable pub advance : ℕ → ℕ → Bytes → ℕ → ℕ → VerifiedRoster → Act G VerifiedRoster
  advance zero chain_id genesis span epoch current = pure current
  advance (suc rounds) chain_id genesis span epoch current = elim (ltb current.epoch epoch) [
    | false ↦ pure current
    | true ↦ next_roster chain_id genesis span current >>= λ next.
        keep next >> advance rounds chain_id genesis span epoch next
  ]

  -- from the last trusted roster on
  unfoldable pub advance_from :
      ℕ → ℕ → Bytes → Option (ℕ × List RosterMember) → Act G (Option (Bytes × List RosterMember))
  advance_from chain_id epoch genesis none = give (err (ClientError.roster_starts_after epoch))
  advance_from chain_id epoch genesis (some (start, members)) = do
    length ← epoch_length
    current ←
        advance (epoch - start) chain_id genesis length epoch
          (record { epoch = start; members = members })
    pure (some (genesis, current.members))

  abbrev pub advance_trusted :
      ℕ → ℕ → Option TrustedRoster → Act G (Option (Bytes × List RosterMember))
  advance_trusted chain_id epoch none = pure none
  advance_trusted chain_id epoch (some trusted) =
      advance_from chain_id epoch trusted.genesis (last_upto epoch trusted.rosters)

  unfoldable pub roster_for_epoch : ℕ → ℕ → Act G (Option (Bytes × List RosterMember))
  roster_for_epoch chain_id epoch = do
    anchored ← anchor_pinned_roster
    if anchored then (λ s. advance_trusted chain_id epoch s.trusted_roster s) else pure none
