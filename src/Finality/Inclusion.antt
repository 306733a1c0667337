-- ===== src/Finality/Inclusion.antt =====
-- `verify_event`, `verify_transaction` and `transaction_kind` of src/finality.rs.
use qcore_rs.Prelude.{
  ℕ, ◌≤◌, ◌≡◌, ◌↔◌, sym, ap, ◌∙◌, inl, inr, Bool, true, false, ◌||◌, Option, none, some, List,
  Result, ok, err, ◌>>=◌, ◌>>◌, refuse, ok_or, ltb, ◌==◌, not, if◌then◌else◌, length, is_same,
  beq_list_iff, list_eq, nat_eq, Bytes, Text, arith, Option-cases,
}
use qcore_rs.Address.{address_payload, AddressError}
use qcore_rs.Finality.Quorum.{FinalizedHeader}

-- what these functions take from the codec, the hash, the ids and the tree
pub record InclusionCrates : Type 1 where
  pub Decoder : Type 0
  pub decoder : Bytes → Decoder
  pub get_u8 : Decoder → Option (ℕ × Decoder)
  pub get_u64 : Decoder → Option (ℕ × Decoder)
  pub get_u128 : Decoder → Option (ℕ × Decoder)
  pub get_bytes : Decoder → Option (Bytes × Decoder)
  pub finish : Decoder → Bool
  pub remaining : Decoder → ℕ
  pub verify_inclusion : Bytes → Bytes → List (Bytes × Bool) → Bool
  pub sha3_256 : Bytes → Bytes
  pub render_tx : Bytes → Option Text
  pub parse_address : Text → Option Bytes
  pub vm_deploy_address : Text
  pub kind_call : ℕ

abbrev pub max_proof_steps : ℕ
max_proof_steps = 64

pub data TxKind : Type 0 where
  transfer call : TxKind

pub data TxOutcome : Type 0 where
  applied included_outcome_unproven : TxOutcome
  event_proven : ℕ → TxOutcome

pub record ConfirmedTransaction : Type 0 where
  pub tx_id : Text
  pub index : ℕ
  pub header : FinalizedHeader
  pub kind : TxKind
  pub outcome : TxOutcome

pub data LeafError : Type 0 where
  malformed : LeafError

module _ (c : InclusionCrates) where
  -- the steps as the siblings and the sides on which they stand
  unfoldable pub verify_event : Bytes → Bytes → List (Bytes × Bool) → Bool
  verify_event event_root leaf steps =
      if ltb max_proof_steps (length steps) then false else c.verify_inclusion event_root leaf steps

  abbrev pub is_id : Option Text → Text → Bool
  is_id none tx_id = false
  is_id (some id) tx_id = is_same id tx_id

  unfoldable pub verify_transaction : Bytes → Text → Bytes → List (Bytes × Bool) → Bool
  unfolding verify_event
  verify_transaction transaction_root tx_id leaf steps =
      if is_id (c.render_tx (c.sha3_256 leaf)) tx_id
      then verify_event transaction_root leaf steps
      else false

  -- `.map_err(|_| malformed())`
  abbrev pub part {ℓ} : {A : Type ℓ} → Option A → Result LeafError A
  part o = ok_or o LeafError.malformed

  abbrev pub is_deploy : Result AddressError Bytes → Bytes → Bool
  is_deploy (ok payload) target = is_same payload target
  is_deploy (err e) target = false

  abbrev pub kind_of : ℕ → Bytes → ℕ → TxKind
  kind_of kind target in_asset =
      if kind == c.kind_call
        || is_deploy (address_payload c.parse_address c.vm_deploy_address) target
        || not (in_asset == 0)
      then TxKind.call
      else TxKind.transfer

  unfoldable pub transaction_kind : Bytes → Result LeafError TxKind
  transaction_kind leaf = do
    (sender, d) ← part (c.get_bytes (c.decoder leaf))
    (nonce, d) ← part (c.get_u64 d)
    (chain, d) ← part (c.get_u64 d)
    (fee, d) ← part (c.get_u128 d)
    (target, d) ← part (c.get_bytes d)
    (args, d) ← part (c.get_bytes d)
    (meter, d) ← part (c.get_u64 d)
    (valid_until, d) ← part (c.get_u64 d)
    (in_asset, d) ← part (c.get_bytes d)
    (value, d) ← part (c.get_u64 d)
    (kind, d) ← part (c.get_u8 d)
    (scheme, d) ← part (c.get_u8 d)
    (key, d) ← part (c.get_bytes d)
    refuse (not (c.finish d)) LeafError.malformed
    ok (kind_of kind target (length in_asset))

  -- A transaction is included exactly when its id is that of the hash of the leaf, its proof has at
  -- most 64 steps, and the proof leads from the leaf to the root.
  pub verify_transaction_iff :
      (transaction_root : Bytes) (tx_id : Text) (leaf : Bytes) (steps : List (Bytes × Bool))
      → (verify_transaction transaction_root tx_id leaf steps ≡ true) ↔ (
          (c.render_tx (c.sha3_256 leaf) ≡ some tx_id)
          × (length steps ≤ max_proof_steps)
          × (c.verify_inclusion transaction_root leaf steps ≡ true))
  unfolding verify_transaction
  verify_transaction_iff transaction_root tx_id leaf steps =
      elim (Option-cases (c.render_tx (c.sha3_256 leaf))) [
        | inl missing ↦
            (λ h. absurd (ground (arith, missing)), λ h. absurd (ground (arith, missing, h.0)))
        | inr (id, at) ↦ (
          λ h.
              let same : is_same id tx_id ≡ true = ground (arith, at) in
              (
                at ∙ ap some ((beq_list_iff id tx_id).0 same),
                ground (arith, at, same),
                ground (arith, at, same),
              ),
          λ h.
              let e : some id ≡ some tx_id = sym at ∙ h.0 in
              let same : is_same id tx_id ≡ true = (beq_list_iff id tx_id).1 (ground (arith, e)) in
              ground (arith, at, same, h.1, h.2),
        )
      ]
