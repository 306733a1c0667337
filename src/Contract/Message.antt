-- ===== src/Contract/Message.antt =====
-- `canonical_order_message_typed` of src/contract.rs, the bytes that the owner of an order signs.
pub mod Values
pub mod Injective
use qcore_rs.Prelude.{ℕ, List, [], ◌∷◌, ◌++◌, map, Bytes, codes}
use qcore_rs.Contract.Word.{be_bytes, from_be_bytes}
use qcore_rs.Contract.Field.{FieldValue, bytes}

abbrev pub signed_msg_tag : Bytes
signed_msg_tag = codes "QTVSGN04"

-- the arguments of `canonical_order_message_typed`
pub record Order : Type 0 where
  pub chain_id : ℕ
  pub genesis : Bytes
  pub contract_id : Bytes
  pub selector : Bytes
  pub signer : Bytes
  pub nonce : ℕ
  pub expiry : ℕ
  pub layout_hash : Bytes
  pub fields : List FieldValue

-- the loop over the fields
unfoldable pub field_bytes : List FieldValue → Bytes
unfolding bytes
field_bytes [] = []
field_bytes (f ∷ rest) = bytes f ++ field_bytes rest

unfoldable pub canonical_order_message_typed : Order → Bytes
unfolding field_bytes be_bytes from_be_bytes
canonical_order_message_typed o =
    signed_msg_tag
    ++ (be_bytes 8 o.chain_id
        ++ (o.genesis
            ++ (o.contract_id
                ++ (be_bytes 8 (from_be_bytes o.selector)
                    ++ (o.signer
                        ++ (be_bytes 8 o.nonce
                            ++ (be_bytes 8 o.expiry
                                ++ (o.layout_hash ++ field_bytes o.fields))))))))

-- `canonical_order_message`, whose fields are words
unfoldable pub canonical_order_message : Order → List ℕ → Bytes
unfolding canonical_order_message_typed
canonical_order_message o words = canonical_order_message_typed record {
  chain_id = o.chain_id;
  genesis = o.genesis;
  contract_id = o.contract_id;
  selector = o.selector;
  signer = o.signer;
  nonce = o.nonce;
  expiry = o.expiry;
  layout_hash = o.layout_hash;
  fields = map FieldValue.word words;
}
