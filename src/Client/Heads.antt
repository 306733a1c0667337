-- ===== src/Client/Heads.antt =====
-- The heads and deadlines that the client of src/lib.rs takes under the rosters it trusts.
pub mod Final
pub mod Deadline
use qcore_rs.Prelude.{
  ℕ, zero, suc, ◌+◌, ◌-◌, Bool, true, false, not, ◌&&◌, ◌||◌, Option, none, some, List, [], ◌∷◌,
  Result, ok, err, refuse, ok_or, ltb, leb, ◌==◌, if◌then◌else◌, is_same, list_eq, nat_eq, length,
  map_err, Bytes, Text, codes,
}
use qcore_rs.Map.Ordered
use qcore_rs.Map.Ordered.{OrderedMap}
use qcore_rs.Json.{Json, no_fields, field, render, get, as_str, as_u64}
use qcore_rs.Json.Parser.{parse}
use qcore_rs.Json.Hex.{from_hex}
use qcore_rs.Gateway.{NodeInfo, and_then}
use qcore_rs.Chain.{ChainClock, network_clock, known_clock, bounded_valid_until_for, chain_clock}
use qcore_rs.Session.{SigningSession, head_floor, note_head}
use qcore_rs.Contract.OrderCall.{OrderCrates}
use qcore_rs.Finality.Crates.{Crates}
use qcore_rs.Finality.Quorum.{RosterMember}
use qcore_rs.Finality.Epochs.{
  VerifiedRoster, VerifiedAccount, header_height, epoch_of, roster_commitment_of,
  verify_finality_in_epoch, verify_next_roster, verify_account,
}
use qcore_rs.Finality.Wire.{parse_roster}
use qcore_rs.Client.{
  Setup, Client, TrustedRoster, ClientError, Act, give, pure, rpc, node_info, signing_genesis,
  on_shared, ◌>>=◌, ◌>>◌,
}
use qcore_rs.Client.Trust.{
  ask, bytes_in, number_in, epoch_length, anchor_pinned_roster, roster_for_epoch,
}
use qcore_rs.Client.Endpoint.{checked_chain_id, is_mainnet_chain, is_public_chain}

abbrev pub height_body : ℕ → Text
height_body height = render (Json.object (field (codes "height") (Json.int height) no_fields))

-- whether a number is named, and another than `n`
abbrev pub is_other_number : ℕ → Option ℕ → Bool
is_other_number n none = false
is_other_number n (some m) = not (m == n)

abbrev pub or_known : Option ChainClock → Option ChainClock → Option ChainClock
or_known none known = known
or_known (some clock) known = some clock

abbrev pub floor_height : Option (ℕ × ℕ) → Option ℕ
floor_height none = none
floor_height (some (height, at)) = some height

abbrev pub floor_age : Option (ℕ × ℕ) → ℕ → ℕ
floor_age none wall = 0
floor_age (some (height, at)) wall = wall - at

module _ {G : Type 0} (c : OrderCrates) (f : Crates) (setup : Setup G) where
  unfoldable pub epoch_of_header : Bytes → Option ℕ → Act G ℕ
  unfolding header_height epoch_length epoch_of
  epoch_of_header header reported = do
    height ← give (map_err ClientError.bad_epoch (header_height f header))
    length ← epoch_length c f setup
    epoch ← give (map_err ClientError.bad_epoch (epoch_of height length))
    give (refuse (is_other_number epoch reported) (ClientError.other_epoch epoch height))
    pure epoch

  -- the epoch, the header and the certificate at a height
  unfoldable pub certified_at : ℕ → Act G (ℕ × Bytes × Bytes)
  unfolding get as_u64 header_height epoch_of_header
  certified_at height = do
    answer ← ask c f setup (codes "get_finality") (height_body height)
    header ← bytes_in c f setup answer (codes "header_bytes")
    certificate ← bytes_in c f setup answer (codes "certificate")
    found ← give (map_err ClientError.bad_epoch (header_height f header))
    give (refuse (not (found == height)) (ClientError.other_finality_height height))
    epoch ← epoch_of_header header (number_in answer (codes "epoch"))
    pure (epoch, header, certificate)

  -- mainnet by the network, or by the chain that the gateway reports
  abbrev pub wants_roster : NodeInfo → Bool
  wants_roster info =
      setup.is_mainnet
      || is_mainnet_chain c info.chain_id
      || (elim setup.chain_id [ none ↦ false | some name ↦ is_mainnet_chain c name ])

  -- under the roster of the epoch, if one is held
  unfoldable pub verify_under :
      ℕ → ℕ → ℕ → Bytes → Bytes → Option (Bytes × List RosterMember) → Act G Bool
  verify_under chain_id head epoch header certificate none = give (err ClientError.no_roster_held)
  verify_under chain_id head epoch header certificate (some (genesis, members)) = do
    length ← epoch_length c f setup
    verified ← give (
        map_err ClientError.bad_epoch (
          verify_finality_in_epoch f chain_id genesis length
            (record { epoch = epoch; members = members }) header certificate))
    give (refuse (not (verified.height == head)) (ClientError.other_height head verified.height))
    pure true

  unfoldable pub verify_certified : ℕ → NodeInfo → Act G Bool
  verify_certified chain_id info = do
    (epoch, header, certificate) ← certified_at info.head_height
    held ← roster_for_epoch c f setup chain_id epoch
    verify_under chain_id info.head_height epoch header certificate held

  unfoldable pub verify_head : NodeInfo → Act G Bool
  unfolding checked_chain_id is_mainnet_chain
  verify_head info = do
    chain_id ← give (map_err ClientError.endpoint (checked_chain_id c info.chain_id))
    anchored ← anchor_pinned_roster c f setup
    if anchored
        then verify_certified chain_id info
        else give (refuse (wants_roster info) ClientError.roster_needed) >> pure false

  abbrev pub deadline_at :
      Option ChainClock → Bool → NodeInfo → ℕ → SigningSession → Result ClientError ℕ
  deadline_at clock verified info wall s =
      let floor = head_floor s info.chain_id in
      map_err ClientError.bad_chain (
        bounded_valid_until_for clock verified info.head_height wall (floor_height floor)
          (floor_age floor wall))

  -- `wall` is the time of the system's clock, 0 where it stands before 1970
  unfoldable pub validity : ℕ → NodeInfo → Act G ℕ
  unfolding is_public_chain known_clock bounded_valid_until_for note_head chain_clock
  validity wall info = do
    genesis ← signing_genesis c setup info
    verified ← verify_head info
    give (
        refuse (not verified && (setup.is_mainnet || is_public_chain c info.chain_id))
          ClientError.head_not_verified)
    clock ← give (map_err ClientError.bad_chain (network_clock setup.network))
    deadline ← (λ s.
        (deadline_at (or_known clock (known_clock info.chain_id)) verified info wall s.shared, s))
    on_shared c setup (λ s. note_head s info.chain_id info.head_height wall)
    pure deadline
