-- ===== src/Contract/OrderCall/Words.antt =====
-- `OrderLayout` and `build_signed_order_call` of src/contract.rs, whose fields are words.
use qcore_rs.Prelude.{
  ℕ, List, [], ◌∷◌, Result, err, if◌then◌else◌, ◌==◌, length, Bytes, Text, Option, map_err,
}
use qcore_rs.Contract.Field.{FieldArg, FieldValue}
use qcore_rs.Contract.OrderCall.{
  OrderCrates, OrderSpec, OrderError, SignedOrderCall, build_typed_order_call,
  default_region_offset,
}

pub record OrderLayout : Type 0 where
  pub scheme_off : ℕ
  pub ptr_off : ℕ
  pub expiry_off : ℕ
  pub field_offs : List ℕ
  pub region_off : ℕ
  pub expiry : ℕ
  pub layout_hash : Bytes

-- `OrderLayout::new`
unfoldable pub order_layout : ℕ → ℕ → ℕ → List ℕ → ℕ → Bytes → OrderLayout
order_layout scheme_off ptr_off expiry_off field_offs expiry layout_hash = record {
  scheme_off = scheme_off;
  ptr_off = ptr_off;
  expiry_off = expiry_off;
  field_offs = field_offs;
  region_off = default_region_offset;
  expiry = expiry;
  layout_hash = layout_hash;
}

pub data WordsError : Type 0 where
  field_count : ℕ → ℕ → WordsError
  order : OrderError → WordsError

-- `zip`, which stops with the shorter list
unfoldable pub word_fields : List ℕ → List ℕ → List FieldArg
word_fields (off ∷ offs) (value ∷ values) =
    record { offset = off; value = FieldValue.word value } ∷ word_fields offs values
word_fields _ _ = []

-- the arguments that `build_signed_order_call` passes on
pub record WordOrder : Type 0 where
  pub chain_id : ℕ
  pub genesis : Bytes
  pub contract : Text
  pub selector : Bytes
  pub layout : OrderLayout
  pub fields : List ℕ
  pub owner_seed : Bytes
  pub owner_index : ℕ
  pub nonce : ℕ

unfoldable pub spec_of : WordOrder → OrderSpec
unfolding word_fields
spec_of w = record {
  chain_id = w.chain_id;
  genesis = w.genesis;
  contract = w.contract;
  selector = w.selector;
  layout_hash = w.layout.layout_hash;
  scheme_off = w.layout.scheme_off;
  ptr_off = w.layout.ptr_off;
  expiry_off = w.layout.expiry_off;
  region_off = w.layout.region_off;
  fields = word_fields w.layout.field_offs w.fields;
  owner_seed = w.owner_seed;
  owner_index = w.owner_index;
  nonce = w.nonce;
  expiry = w.layout.expiry;
}

unfoldable pub build_signed_order_call :
    OrderCrates → Option Bytes → WordOrder → Result WordsError SignedOrderCall
unfolding spec_of build_typed_order_call
build_signed_order_call c drawn w =
    if length w.fields == length w.layout.field_offs
    then map_err WordsError.order (build_typed_order_call c drawn (spec_of w))
    else err (WordsError.field_count (length w.fields) (length w.layout.field_offs))
