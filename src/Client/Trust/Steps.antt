-- ===== src/Client/Trust/Steps.antt =====
-- `next_roster` of the client's loop over epochs: what it leaves, and what it gives.
use qcore_rs.Prelude.{ℕ, ◌+◌, ◌≡◌, refl, List, Bytes, Text, codes, map_err, map_err_ok, ok_or, ok}
use qcore_rs.Json.{Json, render, get, as_str}
use qcore_rs.Json.Parser.{parse}
use qcore_rs.Json.Hex.{from_hex}
use qcore_rs.Gateway.{and_then}
use qcore_rs.Contract.OrderCall.{OrderCrates}
use qcore_rs.Finality.Crates.{Crates}
use qcore_rs.Finality.Quorum.{RosterMember}
use qcore_rs.Finality.Epochs.{VerifiedRoster, verify_next_roster}
use qcore_rs.Finality.Wire.{parse_roster}
use qcore_rs.Client.{Setup, Client, ClientError, give, rpc}
use qcore_rs.Client.Acts.{Keeps, Ensures, bind-Keeps, give-Keeps, rpc-Keeps, bind-Ensures}
use qcore_rs.Client.Trust.{ask, bytes_in, members_in, answers_epoch, next_roster, epoch_body}

-- The roster that follows one, with what proves it.
pub record Follows (f : Crates) (chain_id : ℕ) (genesis : Bytes) (span : ℕ)
    (current next : VerifiedRoster) : Type 0 where
  pub header : Bytes
  pub certificate : Bytes
  pub members : List RosterMember
  pub proof : Bytes
  pub proven :
      verify_next_roster f chain_id genesis span current header certificate members proof ≡ ok next

module _ {G X : Type 0} (view : Client G → X) (c : OrderCrates) (f : Crates) (setup : Setup G)
    (ignores : (s : Client G) (g : G) → view (record s { gateway = g }) ≡ view s) where
  pub ask-Keeps : (method body : Text) → Keeps view (ask c f setup method body)
  unfolding ask
  ask-Keeps method body =
      bind-Keeps view (rpc c setup method body) _ (rpc-Keeps view c setup method body ignores)
        (λ text. give-Keeps view (map_err ClientError.not_json (parse text)))

  pub bytes_in-Keeps : (answer : Json) (key : Text) → Keeps view (bytes_in c f setup answer key)
  unfolding bytes_in
  bytes_in-Keeps answer key =
      bind-Keeps view
        (give (ok_or (and_then (get key answer) as_str) (ClientError.answer_without key))) _
        (λ _. refl) (λ text. give-Keeps view (map_err ClientError.not_hex (from_hex text)))

  pub members_in-Keeps : (answer : Json) → Keeps view (members_in c f setup answer)
  unfolding members_in
  members_in-Keeps answer =
      bind-Keeps view
        (give (ok_or (get (codes "members") answer) (ClientError.answer_without (codes "members"))))
        _ (λ _. refl)
        (λ members. give-Keeps view (map_err ClientError.bad_wire (parse_roster (render members))))

  answers_epoch-Keeps :
      (next : ℕ) (answer : Json) → Keeps view (answers_epoch c f setup next answer)
  unfolding answers_epoch
  answers_epoch-Keeps next answer s = refl

  pub next_roster-Keeps :
      (chain_id : ℕ) (genesis : Bytes) (span : ℕ) (current : VerifiedRoster)
      → Keeps view (next_roster c f setup chain_id genesis span current)
  unfolding next_roster
  next_roster-Keeps chain_id genesis span current =
      bind-Keeps view (ask c f setup (codes "get_roster_proof") (epoch_body (current.epoch + 1))) _
        (ask-Keeps (codes "get_roster_proof") (epoch_body (current.epoch + 1)))
        (λ answer.
          bind-Keeps view (answers_epoch c f setup (current.epoch + 1) answer) _
            (answers_epoch-Keeps (current.epoch + 1) answer)
            (λ _.
              bind-Keeps view (members_in c f setup answer) _ (members_in-Keeps answer) (λ members.
                bind-Keeps view (bytes_in c f setup answer (codes "header_bytes")) _
                  (bytes_in-Keeps answer (codes "header_bytes"))
                  (λ header.
                    bind-Keeps view (bytes_in c f setup answer (codes "certificate")) _
                      (bytes_in-Keeps answer (codes "certificate"))
                      (λ certificate.
                        bind-Keeps view (bytes_in c f setup answer (codes "proof")) _
                          (bytes_in-Keeps answer (codes "proof")) (λ proof s. refl))))))

module _ {G : Type 0} (c : OrderCrates) (f : Crates) (setup : Setup G) where
  pub next_roster-Follows :
      (chain_id : ℕ) (genesis : Bytes) (span : ℕ) (current : VerifiedRoster)
      → Ensures
          (Follows f chain_id genesis span current)
          (next_roster c f setup chain_id genesis span current)
  unfolding next_roster
  next_roster-Follows chain_id genesis span current =
      let P = Follows f chain_id genesis span current in
      bind-Ensures P (ask c f setup (codes "get_roster_proof") (epoch_body (current.epoch + 1))) _
        (λ answer. bind-Ensures P (answers_epoch c f setup (current.epoch + 1) answer) _ (λ _.
          bind-Ensures P (members_in c f setup answer) _ (λ members.
            bind-Ensures P (bytes_in c f setup answer (codes "header_bytes")) _ (λ header.
              bind-Ensures P (bytes_in c f setup answer (codes "certificate")) _ (λ certificate.
                bind-Ensures P (bytes_in c f setup answer (codes "proof")) _ (λ proof s next h.
                  record {
                    header = header;
                    certificate = certificate;
                    members = members;
                    proof = proof;
                    proven = map_err_ok ClientError.bad_epoch _ next h;
                  }))))))
