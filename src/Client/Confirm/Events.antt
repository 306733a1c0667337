-- ===== src/Client/Confirm/Events.antt =====
-- `confirm_call_event` of src/lib.rs.
use qcore_rs.Prelude.{
  ℕ, ◌+◌, Bool, true, false, ◌&&◌, Option, none, some, List, [], ◌∷◌, Result, ok, err,
  if◌then◌else◌, is_same, list_eq, nat_eq, Bytes, Text, codes,
}
use qcore_rs.Address.{same_address}
use qcore_rs.Json.{Json, no_fields, field, render}
use qcore_rs.Contract.OrderCall.{OrderCrates}
use qcore_rs.Contract.Answers.{ContractEvent}
use qcore_rs.Finality.Crates.{Crates}
use qcore_rs.Finality.Inclusion.{InclusionCrates, TxOutcome, ConfirmedTransaction, verify_event}
use qcore_rs.Finality.Wire.{ChainEvent, decode_event}
use qcore_rs.Client.{Setup, ClientError, Act, give, pure, ◌>>=◌}
use qcore_rs.Client.Reading.{events}
use qcore_rs.Client.Trust.{ask, bytes_in}
use qcore_rs.Client.Confirm.{steps_in, confirm_inclusion_trusted}

abbrev pub position_body : ℕ → ℕ → Text
position_body height index = render (
    Json.object
      (field (codes "height") (Json.int height) (field (codes "index") (Json.int index) no_fields)))

-- `data.is_none_or(|data| data == bytes)`
abbrev pub wants_data : Option Bytes → Bytes → Bool
wants_data none bytes = true
wants_data (some wanted) bytes = is_same wanted bytes

-- `render_address` is that of `qtv_idfmt`.
module _ {G : Type 0} (c : OrderCrates) (f : Crates) (i : InclusionCrates) (setup : Setup G)
    (render_address : Bytes → Option Text) where
  abbrev pub is_wanted : Text → Bytes → Option Bytes → Text → Bytes → Bytes → Bool
  is_wanted contract selector wanted named found bytes =
      same_address c.parse_address named contract
      && is_same found selector
      && wants_data wanted bytes

  -- whether an event leaf, once proven, is the event of that transaction
  abbrev pub is_proven_event : Text → Text → Bytes → Option Bytes → ChainEvent → Bool
  is_proven_event tx_id contract selector wanted e =
      is_same e.tx tx_id && is_wanted contract selector wanted e.contract e.selector e.data_bytes

  -- `none` where the event at the position is passed over
  abbrev pub event_shown :
      ConfirmedTransaction
      → Text
      → Bytes
      → Option Bytes
      → ℕ
      → Bytes
      → List (Bytes × Bool)
      → Result ClientError (Option ConfirmedTransaction)
  event_shown confirmed contract selector wanted position leaf steps =
      if verify_event i confirmed.header.event_root leaf steps
      then elim (decode_event i leaf) [
        | err e ↦ err (ClientError.bad_wire e)
        | ok e ↦
            if is_proven_event confirmed.tx_id contract selector wanted e
            then ok (some (record confirmed { outcome = TxOutcome.event_proven position }))
            else ok none
      ]
      else ok none

  unfoldable pub try_event :
      ConfirmedTransaction → Text → Bytes → Option Bytes → ℕ → Act G (Option ConfirmedTransaction)
  unfolding verify_event decode_event same_address
  try_event confirmed contract selector wanted position = do
    answer ←
        ask c f setup (codes "get_event_proof") (position_body confirmed.header.height position)
    leaf ← bytes_in c f setup answer (codes "leaf")
    steps ← steps_in c f i setup answer
    give (event_shown confirmed contract selector wanted position leaf steps)

  -- the loop over the events, from the position on
  unfoldable pub first_event :
      ConfirmedTransaction
      → Text
      → Bytes
      → Option Bytes
      → ℕ
      → List ContractEvent
      → Act G ConfirmedTransaction
  unfolding same_address
  first_event confirmed contract selector wanted position [] =
      give (err (ClientError.event_not_proven confirmed.tx_id))
  first_event confirmed contract selector wanted position (e ∷ rest) =
      elim (is_wanted contract selector wanted e.contract e.selector e.data_bytes) [
        | false ↦ first_event confirmed contract selector wanted (position + 1) rest
        | true ↦ try_event confirmed contract selector wanted position >>= λ shown. elim shown [
          | some proven ↦ pure proven
          | none ↦ first_event confirmed contract selector wanted (position + 1) rest
        ]
      ]

  unfoldable pub confirm_call_event :
      Text → Text → Bytes → Option Bytes → Act G ConfirmedTransaction
  confirm_call_event tx_id contract selector wanted = do
    confirmed ← confirm_inclusion_trusted c f i setup tx_id
    found ← events c setup render_address confirmed.header.height
    first_event confirmed contract selector wanted 0 found
