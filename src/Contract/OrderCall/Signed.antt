-- ===== src/Contract/OrderCall/Signed.antt =====
-- What `build_typed_order_call` returns.
use qcore_rs.Prelude.{
  ℕ, ◌<◌, ◌≡◌, refl, ap, ◌∙◌, false, Option, none, some, ◌++◌, ok, length, Bytes, All, arith, inl,
  inr, result-cases, Option-cases, list_eq, nat_eq,
}
use qcore_rs.Contract.Field.{IsTyped}
use qcore_rs.Contract.Message.{canonical_order_message_typed, Order}
use qcore_rs.Contract.OrderCall.Layout.{Region, order_memory}
use qcore_rs.Contract.OrderCall.Image.{order_args}
use qcore_rs.Contract.OrderCall.Written.{IsOrderImage, order_memory-IsOrderImage}
use qcore_rs.Contract.OrderCall.{
  OrderCrates, OrderSpec, SignedOrderCall, offsets_of, order_keys, order_of, admit_order,
  check_fields, fresh_randomness, degenerate_randomness, build_typed_order_call, is_retired,
  contract_id, check_genesis, signer_address,
}

-- A signed order: its contract has a canonical id, its chain is no retired one, its expiry is set,
-- and the signature is the owner's over the message of the order; the call is the selector and a
-- memory that holds the order and what verifies it.
pub record IsSignedOrder (c : OrderCrates) (s : OrderSpec) (call : SignedOrderCall) : Type 0 where
  pub contract : Bytes
  pub randomness : Bytes
  pub parsed : c.parse_address s.contract ≡ some contract
  pub canonical : length contract ≡ 32
  pub expires : 0 < s.expiry
  pub current : is_retired c s.chain_id ≡ false
  pub random : degenerate_randomness randomness ≡ false
  pub message : call.message ≡ canonical_order_message_typed (order_of c s contract)
  pub signature : c.sign (order_keys c s).1 call.message randomness ≡ some call.signature
  pub public_key : call.public_key ≡ (order_keys c s).0
  pub call_args : call.call_args ≡ s.selector ++ call.user_memory
  pub image :
      IsOrderImage
        (offsets_of s)
        c.scheme_lattice
        s.expiry
        s.fields
        (record {
          public_key = call.public_key;
          signature = call.signature;
          message = call.message;
        })
        call.user_memory

message_pos : (o : Order) → 0 < length (canonical_order_message_typed o)
unfolding canonical_order_message_typed
message_pos o = omega arith

contract_id_ok :
    (c : OrderCrates) (text contract : Bytes)
    → contract_id c text ≡ ok contract
    → (c.parse_address text ≡ some contract) × (length contract ≡ 32)
unfolding contract_id
contract_id_ok c text contract h = elim (Option-cases (c.parse_address text)) [
  | inl missing ↦ absurd (ground (arith, missing))
  | inr (payload, at) ↦
      let size : length payload ≡ 32 = ground (arith, at) in
      let same : payload ≡ contract = ground (arith, at) in (at ∙ ap some same, rw same at size)
]

check_genesis_ok :
    (c : OrderCrates) (chain_id : ℕ) (genesis : Bytes)
    → check_genesis c chain_id genesis ≡ ok tt
    → is_retired c chain_id ≡ false
unfolding check_genesis
check_genesis_ok c chain_id genesis h = ground arith

admit_order_ok :
    (c : OrderCrates) (s : OrderSpec) (contract : Bytes)
    → admit_order c s ≡ ok contract
    → (contract_id c s.contract ≡ ok contract)
      × (0 < s.expiry)
      × (check_genesis c s.chain_id s.genesis ≡ ok tt)
unfolding admit_order
admit_order_ok c s contract h = elim (result-cases (contract_id c s.contract)) [
  | inl failed ↦ absurd (ground (arith, failed.1))
  | inr (id, at) ↦ elim (result-cases (check_genesis c s.chain_id s.genesis)) [
    | inl failed ↦ absurd (ground (arith, at, failed.1))
    | inr (passed, checked) ↦ elim (result-cases (check_fields s.fields)) [
      | inl failed ↦ absurd (ground (arith, at, checked, failed.1))
      | inr (all, fields) ↦
          let same : id ≡ contract = ground (arith, at, checked, fields) in
          (at ∙ ap ok same, ground (arith, at, checked, fields), checked)
    ]
  ]
]

fresh_randomness_ok :
    (drawn : Option Bytes) (rnd : Bytes)
    → fresh_randomness drawn ≡ ok rnd
    → degenerate_randomness rnd ≡ false
unfolding fresh_randomness
fresh_randomness_ok none rnd h = absurd (ground arith)
fresh_randomness_ok (some bytes) rnd h =
    let d : degenerate_randomness bytes ≡ false = ground arith in
    let same : bytes ≡ rnd = ground (arith, d) in rw same at d

-- What is built from offsets, words and fields of the source's sizes is a signed order, whatever the
-- keys, the codec and the entropy are.
pub build_typed_order_call-IsSignedOrder :
    (c : OrderCrates) (drawn : Option Bytes) (s : OrderSpec) (call : SignedOrderCall)
    → All (λ f. IsTyped f.value) (order_args (offsets_of s) c.scheme_lattice s.expiry s.fields)
    → build_typed_order_call c drawn s ≡ ok call
    → IsSignedOrder c s call
unfolding build_typed_order_call
build_typed_order_call-IsSignedOrder c drawn s call t h = elim (result-cases (admit_order c s)) [
  | inl failed ↦ absurd (ground (arith, failed.1))
  | inr (contract, admitted) ↦ elim (result-cases (fresh_randomness drawn)) [
    | inl failed ↦ absurd (ground (arith, admitted, failed.1))
    | inr (rnd, fresh) ↦
        let message = canonical_order_message_typed (order_of c s contract) in
        elim (Option-cases (c.sign (order_keys c s).1 message rnd)) [
          | inl missing ↦ absurd (ground (arith, admitted, fresh, missing))
          | inr (signature, signed) ↦
              let r : Region = record {
                public_key = (order_keys c s).0;
                signature = signature;
                message = message;
              } in
              elim (result-cases
                (order_memory (offsets_of s) c.scheme_lattice s.expiry s.fields r)) [
                  | inl failed ↦ absurd (ground (arith, admitted, fresh, signed, failed.1))
                  | inr (memory, built) ↦
                      let (id, expires, checked) = admit_order_ok c s contract admitted in
                      let (parsed, canonical) = contract_id_ok c s.contract contract id in
                      let pos = message_pos (order_of c s contract) in
                      let image =
                        order_memory-IsOrderImage (offsets_of s) c.scheme_lattice s.expiry s.fields
                          r memory (omega (arith, pos)) t built in
                      let out : SignedOrderCall = record {
                        call_args = s.selector ++ memory;
                        user_memory = memory;
                        message = message;
                        signature = signature;
                        public_key = (order_keys c s).0;
                        signer = signer_address c c.scheme_lattice (order_keys c s).0;
                        nonce = s.nonce;
                        expiry = s.expiry;
                      } in
                      let same : out ≡ call = ground (arith, admitted, fresh, signed, built) in
                      let result : IsSignedOrder c s out = record {
                        contract = contract;
                        randomness = rnd;
                        parsed = parsed;
                        canonical = canonical;
                        expires = expires;
                        current = check_genesis_ok c s.chain_id s.genesis checked;
                        random = fresh_randomness_ok drawn rnd fresh;
                        message = refl;
                        signature = signed;
                        public_key = refl;
                        call_args = refl;
                        image = image;
                      } in
                      rw same at result
                ]
        ]
  ]
]
