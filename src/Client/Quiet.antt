-- ===== src/Client/Quiet.antt =====
-- The requests of the client of src/lib.rs: which of its state they touch.
use qcore_rs.Prelude.{◌≡◌, refl, Text, Bytes, codes, map_err, refuse, not, is_same, list_eq, nat_eq}
use qcore_rs.Session.{SigningSession}
use qcore_rs.Contract.OrderCall.{OrderCrates}
use qcore_rs.Gateway.{NodeInfo, parse_account, parse_submit, parse_genesis}
use qcore_rs.Client.{
  Setup, Client, ClientError, rpc, account, account_body, submit, submit_body, signing_genesis,
  genesis_for, is_other, give,
}
use qcore_rs.Client.Acts.{Keeps, bind-Keeps, give-Keeps, rpc-Keeps}

module _ {G X : Type 0} (view : Client G → X) (c : OrderCrates) (setup : Setup G)
    (ignores : (s : Client G) (g : G) → view (record s { gateway = g }) ≡ view s) where
  pub submit-Keeps : (bytes : Bytes) → Keeps view (submit c setup bytes)
  unfolding submit
  submit-Keeps bytes =
      bind-Keeps view (rpc c setup (codes "submit_transaction") (submit_body bytes)) _
        (rpc-Keeps view c setup (codes "submit_transaction") (submit_body bytes) ignores)
        (λ text. give-Keeps view (map_err ClientError.response (parse_submit text)))

  pub account-Keeps : (address : Text) → Keeps view (account c setup address)
  unfolding account
  account-Keeps address =
      bind-Keeps view (rpc c setup (codes "get_account") (account_body address)) _
        (rpc-Keeps view c setup (codes "get_account") (account_body address) ignores)
        (λ text.
          bind-Keeps view (give (map_err ClientError.response (parse_account text))) _ (λ _. refl)
            (λ a.
              bind-Keeps view
                (give (
                  refuse (not (is_same a.address address))
                    (ClientError.answered_for_another a.address)))
                _ (λ _. refl) (λ _ _. refl)))

  pub signing_genesis-Keeps : (info : NodeInfo) → Keeps view (signing_genesis c setup info)
  unfolding signing_genesis
  signing_genesis-Keeps info s =
      bind-Keeps view (give (map_err ClientError.response (parse_genesis info))) _ (λ _. refl)
        (λ r.
          bind-Keeps view
            (give (refuse (is_other c setup s.trusted_roster r) ClientError.other_trusted_genesis))
            _ (λ _. refl) (λ _. give-Keeps view (genesis_for c setup setup.genesis_hash info r)))
        s

-- The session of the process stays as it was.
module _ {G : Type 0} (c : OrderCrates) (setup : Setup G) where
  abbrev shared_view : Client G → SigningSession
  shared_view s = s.shared

  pub submit-shared : (bytes : Bytes) (s : Client G) → (submit c setup bytes s).1.shared ≡ s.shared
  submit-shared = submit-Keeps shared_view c setup (λ s g. refl)

  pub account-shared :
      (address : Text) (s : Client G) → (account c setup address s).1.shared ≡ s.shared
  account-shared = account-Keeps shared_view c setup (λ s g. refl)

  pub signing_genesis-shared :
      (info : NodeInfo) (s : Client G) → (signing_genesis c setup info s).1.shared ≡ s.shared
  signing_genesis-shared = signing_genesis-Keeps shared_view c setup (λ s g. refl)
