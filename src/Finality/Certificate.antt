-- ===== src/Finality/Certificate.antt =====
-- `decode_certificate` of src/finality.rs and the decoders of its parts.
use qcore_rs.Prelude.{
  ℕ, zero, suc, Bool, false, ◌&&◌, ◌||◌, Option, none, some, List, [], ◌∷◌, Result, ok, err, ◌>>=◌,
  ◌>>◌, refuse, ok_or, ltb, ◌==◌, not, if◌then◌else◌, length, is_same, list_eq, nat_eq, Bytes,
}
use qcore_rs.Finality.Crates.{Crates, Credential, Parent, Block, Envelope, Attestation}
use qcore_rs.Contract.Field.{zeroes}

abbrev pub parent_genesis : ℕ
parent_genesis = 0

abbrev pub parent_value : ℕ
parent_value = 1

abbrev pub stage_one : ℕ
stage_one = 1

abbrev pub max_attestations : ℕ
max_attestations = 4096

abbrev pub max_credential_siblings : ℕ
max_credential_siblings = 64

abbrev pub max_committee_reveals : ℕ
max_committee_reveals = 4096

pub data CertificateError : Type 0 where
  malformed wrong_length unknown_parent path_too_long unknown_stage too_many_attestations
        attestations_out_of_order too_many_reveals reveals_out_of_order :
      CertificateError

-- What a decoder of a part returns: the part and the decoder after it.
abbrev pub Read : Crates → Type 0 → Type 0
Read c A = c.Decoder → Result CertificateError (A × c.Decoder)

module _ (c : Crates) where
  unfoldable pub read_u8 : Read c ℕ
  read_u8 d = ok_or (c.get_u8 d) CertificateError.malformed

  unfoldable pub read_u64 : Read c ℕ
  read_u64 d = ok_or (c.get_u64 d) CertificateError.malformed

  unfoldable pub read_array : ℕ → Read c Bytes
  read_array size d = do
    (bytes, d) ← ok_or (c.get_bytes d) CertificateError.malformed
    refuse (not (length bytes == size)) CertificateError.wrong_length
    ok (bytes, d)

  -- the loop of `read_value`, over the bytes that are left to read
  unfoldable pub read_bytes : ℕ → Read c Bytes
  unfolding read_u8
  read_bytes zero d = ok ([], d)
  read_bytes (suc left) d = do
    (byte, d) ← read_u8 d
    (bytes, d) ← read_bytes left d
    ok (byte ∷ bytes, d)

  unfoldable pub read_value : Read c Bytes
  unfolding read_bytes
  read_value = read_bytes 32

  -- `match parent_tag`
  unfoldable pub parent_of : ℕ → Bytes → Result CertificateError Parent
  parent_of tag value =
      if tag == parent_genesis && is_same value (zeroes 32)
      then ok Parent.genesis
      else if tag == parent_value
      then ok (Parent.value value)
      else err CertificateError.unknown_parent

  unfoldable pub decode_block : Read c Block
  unfolding read_u64 read_value parent_of
  decode_block d = do
    (height, d) ← read_u64 d
    (val, d) ← read_value d
    (tag, d) ← read_u8 d
    (value, d) ← read_value d
    parent ← parent_of tag value
    (cost, d) ← read_u64 d
    ok (record { height = height; val = val; parent = parent; cost = cost }, d)

  unfoldable pub decode_envelope : Read c Envelope
  unfolding decode_block read_array
  decode_envelope d = do
    (height, d) ← read_u64 d
    (slot, d) ← read_u64 d
    (block, d) ← decode_block d
    (committee, d) ← read_array 32 d
    ok (record { height = height; slot = slot; block = block; committee = committee }, d)

  unfoldable pub read_siblings : ℕ → Read c (List Bytes)
  unfolding read_array
  read_siblings zero d = ok ([], d)
  read_siblings (suc left) d = do
    (sibling, d) ← read_array c.node_bytes d
    (siblings, d) ← read_siblings left d
    ok (sibling ∷ siblings, d)

  unfoldable pub decode_credential : Read c Credential
  unfolding read_siblings read_array
  decode_credential d = do
    (position, d) ← read_u64 d
    (preimage, d) ← read_array c.preimage_bytes d
    (count, d) ← read_u64 d
    refuse (ltb max_credential_siblings count) CertificateError.path_too_long
    (siblings, d) ← read_siblings count d
    ok (record { position = position; preimage = preimage; siblings = siblings }, d)

  unfoldable pub decode_attestation : Read c Attestation
  unfolding decode_credential read_array
  decode_attestation d = do
    (from, d) ← read_u64 d
    (height, d) ← read_u64 d
    (slot, d) ← read_u64 d
    (view, d) ← read_u64 d
    (committee, d) ← read_array 32 d
    (block, d) ← decode_block d
    (membership, d) ← decode_credential d
    (sig, d) ← read_array c.signature_bytes d
    ok (
      record {
        from = from;
        height = height;
        slot = slot;
        view = view;
        committee = committee;
        block = block;
        membership = membership;
        sig = sig;
      },
      d,
    )

  unfoldable pub read_attestations : ℕ → Read c (List Attestation)
  unfolding decode_attestation
  read_attestations zero d = ok ([], d)
  read_attestations (suc left) d = do
    (attestation, d) ← decode_attestation d
    (attestations, d) ← read_attestations left d
    ok (attestation ∷ attestations, d)

  -- `windows(2)` with a pair out of order
  unfoldable pub out_of_order : List Attestation → Bool
  out_of_order [] = false
  out_of_order (a ∷ []) = false
  out_of_order (a ∷ (b ∷ rest)) = ltb b.from a.from || out_of_order (b ∷ rest)

  abbrev below_last : Option ℕ → ℕ → Bool
  below_last none id = false
  below_last (some last) id = ltb id last

  -- the loop over the reveals, with `last_reveal`
  unfoldable pub read_reveals : ℕ → Option ℕ → Read c (List (ℕ × Credential))
  unfolding decode_credential read_array
  read_reveals zero last d = ok ([], d)
  read_reveals (suc left) last d = do
    (id, d) ← read_u64 d
    refuse (below_last last id) CertificateError.reveals_out_of_order
    (credential, d) ← decode_credential d
    (revealed, d) ← read_reveals left (some id) d
    ok ((id, credential) ∷ revealed, d)

  unfoldable pub decode_certificate :
      Bytes → Result CertificateError (Envelope × List Attestation × List (ℕ × Credential))
  unfolding decode_envelope read_attestations out_of_order read_reveals
  decode_certificate bytes = do
    (envelope, d) ← decode_envelope (c.decoder bytes)
    (stage, d) ← read_u8 d
    refuse (not (stage == stage_one)) CertificateError.unknown_stage
    (count, d) ← read_u64 d
    refuse (ltb max_attestations count) CertificateError.too_many_attestations
    (attestations, d) ← read_attestations count d
    refuse (out_of_order attestations) CertificateError.attestations_out_of_order
    (reveals, d) ← read_u64 d
    refuse (ltb max_committee_reveals reveals) CertificateError.too_many_reveals
    (revealed, d) ← read_reveals reveals none d
    refuse (not (c.finish d)) CertificateError.malformed
    ok (envelope, attestations, revealed)
