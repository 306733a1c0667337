-- ===== src/Examples/Contract.antt =====
-- Call arguments at concrete values.
use qcore_rs.Prelude.{◌≡◌, ◌↔◌, ◌++◌, refl, true, List, [], ◌∷◌, ok, is_ok, Bytes, All, arith}
use qcore_rs.Contract.Field.{FieldArg, FieldValue, IsTyped, zeroes}
use qcore_rs.Contract.Spans.{Span, AllDisjoint, check_spans}
use qcore_rs.Contract.Spans.Check.{check_spans_iff}
use qcore_rs.Contract.Place.{spans_of}
use qcore_rs.Contract.CallArgs.{build_call_args}
use qcore_rs.Contract.CallArgs.Ends.{IsAdmitted}
use qcore_rs.Contract.CallArgs.Built.{IsImage, build_call_args_iff, build_call_args-IsImage}
use qcore_rs.Prelude.{codes, take, length, some}
use qcore_rs.Contract.Keys.{OrderLayoutField, order_layout_pre-injective}
use qcore_rs.Contract.Deploy.{params_region, build_deploy_call-injective}
use qcore_rs.Contract.Message.{Order, signed_msg_tag}
use qcore_rs.Contract.Message.Injective.{IsSized, canonical_order_message_typed-injective}
use qcore_rs.Contract.OrderCall.{
  OrderCrates, OrderSpec, SignedOrderCall, order_of, signer_address, build_typed_order_call,
}
use qcore_rs.Contract.OrderCall.Signed.{IsSignedOrder, build_typed_order_call-IsSignedOrder}

abbrev three_spans : List Span
three_spans = (160, 8) ∷ (152, 8) ∷ (168, 40) ∷ []

check_spans_iff_example : (check_spans three_spans ≡ ok tt) ↔ AllDisjoint three_spans
check_spans_iff_example =
    check_spans_iff three_spans
      ((omega arith, omega arith), ((omega arith, omega arith), ((omega arith, omega arith), tt)))

abbrev selector : Bytes
selector = 1 ∷ 2 ∷ 3 ∷ 4 ∷ []

abbrev two_args : List FieldArg
two_args =
    record { offset = 160; value = FieldValue.word 7 }
    ∷ record { offset = 152; value = FieldValue.word 9 }
    ∷ []

two_args-IsTyped : All (λ f. IsTyped f.value) two_args
two_args-IsTyped = (omega arith, (omega arith, tt))

build_call_args_iff_example :
    (is_ok (build_call_args selector two_args) ≡ true)
    ↔ (All IsAdmitted two_args × AllDisjoint (spans_of two_args))
build_call_args_iff_example = build_call_args_iff selector two_args two_args-IsTyped

abbrev two_args_call : Bytes
two_args_call = selector ++ zeroes 159 ++ (9 ∷ zeroes 7) ++ (7 ∷ [])

two_args_build : build_call_args selector two_args ≡ ok two_args_call
unfolding build_call_args
two_args_build = refl

build_call_args-IsImage_example :
    (memory : Bytes) × (two_args_call ≡ selector ++ memory) × IsImage two_args memory
build_call_args-IsImage_example =
    build_call_args-IsImage selector two_args two_args_call two_args-IsTyped two_args_build

build_deploy_call-injective_example : (selector ≡ selector) × (params_region [] ≡ params_region [])
build_deploy_call-injective_example =
    build_deploy_call-injective selector selector [] [] (omega arith) (omega arith) refl

-- An order with one word field, signed under a scheme whose signature is the secret and two bytes.
abbrev pub toy : OrderCrates
toy = record {
  sha3_256 = λ bytes. take 32 (bytes ++ zeroes 32);
  account_seed = λ seed scheme index. index ∷ seed;
  keygen = λ seed. (9 ∷ seed, 8 ∷ seed);
  sign = λ secret message rnd. some (secret ++ take 2 rnd);
  scheme_lattice = 2;
  parse_address = λ text. some text;
  chain_id_from_name = length;
  mainnet_chain_id = 1;
}

abbrev order_spec : OrderSpec
order_spec = record {
  chain_id = 77;
  genesis = zeroes 32;
  contract = zeroes 32;
  selector = selector;
  layout_hash = zeroes 32;
  scheme_off = 152;
  ptr_off = 160;
  expiry_off = 168;
  region_off = 184;
  fields = record { offset = 176; value = FieldValue.word 5 } ∷ [];
  owner_seed = 6 ∷ [];
  owner_index = 3;
  nonce = 4;
  expiry = 1_000;
}

abbrev order_example : Order
order_example = order_of toy order_spec (zeroes 32)

order_example-IsSized : IsSized order_example
unfolding signer_address
order_example-IsSized = record {
  chain_id = omega arith;
  genesis = refl;
  contract_id = refl;
  selector = refl;
  selector_bytes = (omega arith, (omega arith, (omega arith, (omega arith, tt))));
  signer = refl;
  nonce = omega arith;
  expiry = omega arith;
  layout_hash = refl;
  fields = (omega arith, tt);
}

canonical_order_message_typed-injective_example : order_example ≡ order_example
canonical_order_message_typed-injective_example =
    canonical_order_message_typed-injective order_example order_example order_example-IsSized
      order_example-IsSized (refl, tt) refl

abbrev order_message : Bytes
order_message =
    signed_msg_tag
    ++ 0 ∷ 0 ∷ 0 ∷ 0 ∷ 0 ∷ 0 ∷ 0 ∷ 77 ∷ zeroes 64
    ++ 0 ∷ 0 ∷ 0 ∷ 0 ∷ selector
    ++ 2 ∷ 9 ∷ 3 ∷ 6 ∷ zeroes 28
    ++ 0 ∷ 0 ∷ 0 ∷ 0 ∷ 0 ∷ 0 ∷ 0 ∷ 4 ∷ zeroes 6
    ++ 3 ∷ 232 ∷ zeroes 39
    ++ 5 ∷ []

abbrev order_memory_bytes : Bytes
order_memory_bytes =
    zeroes 159
    ++ 2 ∷ zeroes 7
    ++ 184 ∷ zeroes 6
    ++ 3 ∷ 232 ∷ zeroes 7
    ++ 5 ∷ 9 ∷ 3 ∷ 6 ∷ 8 ∷ 3 ∷ 6 ∷ 1 ∷ 2 ∷ order_message

abbrev signed_call : SignedOrderCall
signed_call = record {
  call_args = selector ++ order_memory_bytes;
  user_memory = order_memory_bytes;
  message = order_message;
  signature = 8 ∷ 3 ∷ 6 ∷ 1 ∷ 2 ∷ [];
  public_key = 9 ∷ 3 ∷ 6 ∷ [];
  signer = 2 ∷ 9 ∷ 3 ∷ 6 ∷ zeroes 28;
  nonce = 4;
  expiry = 1_000;
}

signs : build_typed_order_call toy (some selector) order_spec ≡ ok signed_call
unfolding build_typed_order_call
signs = refl

build_typed_order_call-IsSignedOrder_example : IsSignedOrder toy order_spec signed_call
build_typed_order_call-IsSignedOrder_example =
    build_typed_order_call-IsSignedOrder toy (some selector) order_spec signed_call
      (omega arith, (omega arith, (omega arith, (omega arith, tt)))) signs

abbrev two_fields : List OrderLayoutField
two_fields =
    record { name = codes "amount"; ty = codes "u128"; width = 16 }
    ∷ record { name = codes "to"; ty = codes "address"; width = 32 }
    ∷ []

order_layout_pre-injective_example : (selector ≡ selector) × (two_fields ≡ two_fields)
order_layout_pre-injective_example =
    order_layout_pre-injective selector selector two_fields two_fields refl refl (omega arith)
      (omega arith)
      ((omega arith, omega arith, omega arith), ((omega arith, omega arith, omega arith), tt))
      ((omega arith, omega arith, omega arith), ((omega arith, omega arith, omega arith), tt)) refl
