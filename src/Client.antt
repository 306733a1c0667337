-- ===== src/Client.antt =====
-- The `Client` of src/lib.rs: its requests, the guards before a signature, and the submission of what
-- was signed. A method is a function from the client's state to its result and the state it leaves.
pub mod Endpoint
pub mod Reading
pub mod Acts
pub mod Quiet
pub mod Pinning
pub mod Sending
pub mod Freed
pub mod Trust
pub mod Heads
pub mod Confirm
use qcore_rs.Prelude.{
  ℕ, Bool, true, false, not, ◌&&◌, ◌||◌, Option, none, some, List, [], ◌∷◌, ◌++◌, Result, ok, err,
  refuse, ok_or, ltb, ◌==◌, if◌then◌else◌, is_same, list_eq, nat_eq, length, map_err, Bytes, Text,
  codes,
}
use qcore_rs.Json.{Json, no_fields, field, render}
use qcore_rs.Json.Hex.{HexError, to_hex}
use qcore_rs.Gateway.{
  NodeInfo, Account, Submit, ResponseError, parse_node_info, parse_account, parse_submit,
  parse_genesis,
}
use qcore_rs.Session.{SigningSession, SlotError, slot, release, signed, outcome}
use qcore_rs.Session.Known.{TargetError, remember_address, check_target}
use qcore_rs.Session.Saved.{export_state}
use qcore_rs.Address.{AddressError}
use qcore_rs.Contract.Answers.{AnswerError}
use qcore_rs.Contract.OrderCall.{OrderCrates}
use qcore_rs.Chain.{ChainError, Network}
use qcore_rs.Map.Ordered.{OrderedMap}
use qcore_rs.Json.Parser.{JsonError}
use qcore_rs.Finality.Quorum.{RosterMember}
use qcore_rs.Finality.Epochs.{EpochError}
use qcore_rs.Finality.Inclusion.{LeafError}
use qcore_rs.Finality.Wire.{WireError}
use qcore_rs.Signing.{SignedTransfer, SignError}
use qcore_rs.Client.Endpoint.{
  EndpointError, check_endpoint, response_cap, checked_chain_id, is_mainnet_info, is_public_chain,
}

-- The fields of `Network` and `Client` that no method changes, with the transport. `post` takes the
-- base, the path and the body; `G` is what lies behind it. `on_signed` may refuse what it is to save.
pub record Setup (G : Type 0) : Type 0 where
  pub base : Text
  pub chain_id : Option Text
  pub genesis_hash : Option Bytes
  pub is_mainnet : Bool
  pub roster_commitment : Option Bytes
  pub epoch_length : Option ℕ
  pub network : Network
  pub acknowledge_mainnet : Bool
  pub post : Text → Text → Text → G → Result Text (ℕ × Text) × G
  pub on_signed : Option (Text → Result Text (Unit {0}))

-- The genesis and the rosters by epoch of `trusted_roster`.
pub record TrustedRoster : Type 0 where
  pub genesis : Bytes
  pub rosters : OrderedMap (List RosterMember)

-- What the methods change: the session of the process, the client's own (its known addresses), the
-- first chain of an unnamed network, the genesis and the rosters it trusts, and the gateway.
pub record Client (G : Type 0) : Type 0 where
  pub shared : SigningSession
  pub session : SigningSession
  pub pinned_chain : Option Text
  pub trusted_roster : Option TrustedRoster
  pub gateway : G

pub data ClientError : Type 0 where
  endpoint : EndpointError → ClientError
  transport : Text → ClientError
  answer_too_long : ℕ → ClientError
  returned : ℕ → Text → ClientError
  response : ResponseError → ClientError
  answer : AnswerError → ClientError
  bad_contract : AddressError → ClientError
  answered_for_another : Text → ClientError
  other_trusted_genesis other_pinned_genesis genesis_not_pinned mainnet_not_acknowledged
        mainnet_reported public_chain_unnamed chain_not_reported not_an_address slot_not_reported :
      ClientError
  empty_roster no_roster_held other_pinned_roster no_epoch_length roster_needed head_not_verified
        trusted_roster_needed status_needs_roster not_included :
      ClientError
  roster_starts_after other_roster_epoch other_finality_height position_out_of_reach :
      ℕ → ClientError
  other_epoch other_height : ℕ → ℕ → ClientError
  call_not_settled event_not_proven : Text → ClientError
  other_chain other_configured_chain : Text → ClientError
  bad_target : TargetError → ClientError
  slot_refused : SlotError → ClientError
  not_saved : Text → ClientError
  sign : SignError → ClientError
  not_json : JsonError → ClientError
  not_hex : HexError → ClientError
  bad_chain : ChainError → ClientError
  bad_wire : WireError → ClientError
  bad_epoch : EpochError → ClientError
  bad_leaf : LeafError → ClientError
  answer_without : Text → ClientError
  fee_above_maximum : ℕ → ℕ → ClientError

abbrev pub Act : Type 0 → Type 0 → Type 0
Act G A = Client G → Result ClientError A × Client G

abbrev pub after :
    {G A B : Type 0}
    → Result ClientError A × Client G
    → (A → Act G B)
    → Result ClientError B × Client G
after (err e, s) rest = (err e, s)
after (ok a, s) rest = rest a s

infixl 5 ◌>>=◌ ◌>>◌
abbrev pub ◌>>=◌ : {G A B : Type 0} → Act G A → (A → Act G B) → Act G B
(first >>= rest) s = after (first s) rest

abbrev pub ◌>>◌ : {G B : Type 0} → Act G (Unit {0}) → Act G B → Act G B
first >> rest = first >>= λ _. rest

abbrev pub give : {G A : Type 0} → Result ClientError A → Act G A
give r s = (r, s)

abbrev pub pure : {G A : Type 0} → A → Act G A
pure a s = (ok a, s)

-- keys with a nonce each; `Reserved` keeps them
abbrev pub Slots : Type 0
Slots = List (Text × ℕ)

abbrev pub submit_body : Bytes → Text
submit_body tx_bytes =
    render (Json.object (field (codes "tx") (Json.str (to_hex tx_bytes)) no_fields))

abbrev pub account_body : Text → Text
account_body address = render (Json.object (field (codes "address") (Json.str address) no_fields))

abbrev pub account_slot_key : Text → Text → Text
account_slot_key chain account = chain ++ (b'/' ∷ account)

-- `accepted`
abbrev pub is_accepted : Submit → Bool
is_accepted (Submit.accepted state tx_id) = true
is_accepted (Submit.rejected reason expected got) = false

module _ {G : Type 0} (c : OrderCrates) (setup : Setup G) where
  abbrev pub posted : Text → Text → Act G (ℕ × Text)
  posted method body s =
      let reply = setup.post setup.base (codes "/v1/" ++ method) body s.gateway in
      (map_err ClientError.transport reply.0, record s { gateway = reply.1 })

  abbrev pub read_answer : Text → ℕ × Text → Result ClientError Text
  read_answer method (status, text) =
      if ltb (response_cap method) (length text)
      then err (ClientError.answer_too_long (length text))
      else if status == 200
      then ok text
      else err (ClientError.returned status text)

  unfoldable pub rpc : Text → Text → Act G Text
  unfolding check_endpoint response_cap
  rpc method body = do
    give (map_err ClientError.endpoint (check_endpoint setup.base))
    reply ← posted method body
    give (read_answer method reply)

  unfoldable pub node_info : Act G NodeInfo
  unfolding rpc
  node_info = do
    text ← rpc (codes "node_info") (codes "{}")
    give (map_err ClientError.response (parse_node_info text))

  unfoldable pub account : Text → Act G Account
  unfolding rpc
  account address = do
    text ← rpc (codes "get_account") (account_body address)
    account ← give (map_err ClientError.response (parse_account text))
    give (
        refuse (not (is_same account.address address))
          (ClientError.answered_for_another account.address))
    pure account

  unfoldable pub submit : Bytes → Act G Submit
  unfolding rpc
  submit tx_bytes = do
    text ← rpc (codes "submit_transaction") (submit_body tx_bytes)
    give (map_err ClientError.response (parse_submit text))

  abbrev pub is_other : Option TrustedRoster → Bytes → Bool
  is_other none reported = false
  is_other (some trusted) reported = not (is_same trusted.genesis reported)

  abbrev pub genesis_for : Option Bytes → NodeInfo → Bytes → Result ClientError Bytes
  genesis_for (some pinned) info reported =
      if is_same pinned reported then ok pinned else err ClientError.other_pinned_genesis
  genesis_for none info reported =
      if is_public_chain c info.chain_id then err ClientError.genesis_not_pinned else ok reported

  unfoldable pub signing_genesis : NodeInfo → Act G Bytes
  unfolding parse_genesis is_public_chain
  signing_genesis info s =
      ((do
        reported ← give (map_err ClientError.response (parse_genesis info))
        give (refuse (is_other s.trusted_roster reported) ClientError.other_trusted_genesis)
        give (genesis_for setup.genesis_hash info reported))
        s)

  unfoldable pub guard_mainnet : Result ClientError (Unit {0})
  guard_mainnet =
      refuse (setup.is_mainnet && not setup.acknowledge_mainnet)
        ClientError.mainnet_not_acknowledged

  -- the chain that an unnamed network saw first
  abbrev pub pin_at : Option Text → Text → Act G (Unit {0})
  pin_at none name s = (ok tt, record s { pinned_chain = some name })
  pin_at (some first) name s =
      (if is_same first name then ok tt else err (ClientError.other_chain first), s)

  abbrev pub pin_chain : Text → Act G (Unit {0})
  pin_chain name s = pin_at s.pinned_chain name s

  abbrev pub admit_chain : Option Text → Text → Bool → Act G (Unit {0})
  admit_chain (some configured) name mainnet =
      give (refuse (not (is_same name configured)) (ClientError.other_configured_chain name))
  admit_chain none name mainnet = do
    give (
        refuse ((is_public_chain c name || mainnet) && not (mainnet && setup.acknowledge_mainnet))
          ClientError.public_chain_unnamed)
    pin_chain name

  unfoldable pub signing_chain_id : NodeInfo → Act G ℕ
  unfolding checked_chain_id is_mainnet_info is_public_chain
  signing_chain_id info = do
    give (refuse (length info.chain_id == 0) ClientError.chain_not_reported)
    id ← give (map_err ClientError.endpoint (checked_chain_id c info.chain_id))
    admit_chain setup.chain_id info.chain_id (is_mainnet_info c info)
    give (
        refuse (is_mainnet_info c info && not setup.acknowledge_mainnet)
          ClientError.mainnet_reported)
    pure id

  abbrev pub fee_within : ℕ → ℕ → Result ClientError ℕ
  fee_within fee max_fee =
      if ltb max_fee fee then err (ClientError.fee_above_maximum fee max_fee) else ok fee

  unfoldable pub check_targets : SigningSession → List Text → Result TargetError (Unit {0})
  check_targets s [] = ok tt
  check_targets s (target ∷ rest) = elim (check_target c.parse_address s target) [
    | err e ↦ err e
    | ok u ↦ check_targets s rest
  ]

  unfoldable pub vet_target : Text → List Text → Act G (Unit {0})
  unfolding check_targets
  vet_target sender targets s =
      let known = remember_address c.parse_address s.session sender in
      (map_err ClientError.bad_target (check_targets known targets), record s { session = known })

  unfoldable pub remember_all : SigningSession → List Text → SigningSession
  remember_all s [] = s
  remember_all s (target ∷ rest) = remember_all (remember_address c.parse_address s target) rest

  unfoldable pub remember_targets : List Text → Act G (Unit {0})
  unfolding remember_all
  remember_targets targets s = (ok tt, record s { session = remember_all s.session targets })

  -- the drop of `Reserved`

  unfoldable pub release_all : Slots → SigningSession → SigningSession
  release_all [] s = s
  release_all ((key, n) ∷ rest) s = release_all rest (release s key n)

  abbrev pub dropping : {A : Type 0} → Slots → Act G A → Act G A
  dropping reserved act s =
      ((act s).0, record (act s).1 { shared = release_all reserved (act s).1.shared })

  abbrev pub slot_of : Text → ℕ → Option ℕ → Bool → Act G ℕ
  slot_of key reported expected order s =
      let granted = slot s.shared key reported expected order in
      (map_err ClientError.slot_refused granted.0, record s { shared = granted.1 })

  -- the key and the nonce; the reservation is those two
  unfoldable pub checked_nonce : NodeInfo → Text → Option ℕ → Act G (Text × ℕ)
  unfolding account
  checked_nonce info sender expected = do
    reported ← account sender
    let key = account_slot_key info.chain_id sender
    nonce ← slot_of key reported.nonce expected false
    pure (key, nonce)

  unfoldable pub sign_all : Slots → SigningSession → SigningSession
  sign_all [] s = s
  sign_all ((key, n) ∷ rest) s = sign_all rest (signed s key n)

  unfoldable pub settle_all : Slots → Bool → SigningSession → SigningSession
  settle_all [] accepted s = s
  settle_all ((key, n) ∷ rest) accepted s = settle_all rest accepted (outcome s key n accepted)

  abbrev pub call_hook :
      Option (Text → Result Text (Unit {0})) → SigningSession → Result ClientError (Unit {0})
  call_hook none s = ok tt
  call_hook (some hook) s = map_err ClientError.not_saved (hook (export_state s))

  abbrev pub on_shared : (SigningSession → SigningSession) → Act G (Unit {0})
  on_shared f s = (ok tt, record s { shared = f s.shared })

  abbrev pub settle : Slots → Submit → Act G Submit
  settle slots verdict s =
      (ok verdict, record s { shared = settle_all slots (is_accepted verdict) s.shared })

  unfoldable pub submit_held : Slots → SignedTransfer → Act G Submit
  unfolding submit sign_all settle_all
  submit_held slots tx = do
    on_shared (sign_all slots)
    (λ s. (call_hook setup.on_signed s.shared, s))
    verdict ← submit tx.tx_bytes
    settle slots verdict

  -- the end of `transfer_expecting` and of the calls: `signing` is what is signed, for the genesis
  unfoldable pub signing_part :
      NodeInfo
      → Slots
      → List Text
      → (Bytes → Result SignError SignedTransfer)
      → Act G (SignedTransfer × Submit)
  unfolding signing_genesis submit_held remember_targets
  signing_part info slots targets signing = do
    genesis ← signing_genesis info
    tx ← give (map_err ClientError.sign (signing genesis))
    remember_targets targets
    verdict ← submit_held slots tx
    pure (tx, verdict)

  -- the same from the nonce on, with the reservation dropped however it ends
  unfoldable pub sign_and_submit :
      NodeInfo
      → Text
      → Option ℕ
      → List Text
      → (ℕ → Bytes → Result SignError SignedTransfer)
      → Act G (SignedTransfer × Submit)
  unfolding checked_nonce signing_part
  sign_and_submit info sender expected targets signing = do
    (key, nonce) ← checked_nonce info sender expected
    dropping ((key, nonce) ∷ []) (signing_part info ((key, nonce) ∷ []) targets (signing nonce))
