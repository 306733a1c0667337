-- ===== src/Examples/Signing.antt =====
-- Transactions signed with keys, a body and a signature that keep what they are given.
use qcore_rs.Prelude.{◌≡◌, refl, false, some, [], ◌∷◌, ◌++◌, err, Bytes, codes}
use qcore_rs.Address.{valid_address, address_payload}
use qcore_rs.Chain.{check_valid_until}
use qcore_rs.Contract.Field.{zeroes}
use qcore_rs.Contract.OrderCall.{check_genesis}
use qcore_rs.Signing.{SigningCrates, SignError, SignedTransfer, Native, sign_native, sign_transfer}
use qcore_rs.Examples.Contract.{toy}

abbrev keeping : SigningCrates
keeping = record {
  shared = toy;
  address = λ seed index. seed;
  public_key = λ seed index. index ∷ seed;
  render_address = λ bytes. bytes;
  put_u64 = λ n. n ∷ [];
  Body = Bytes;
  with_context = λ sender nonce meter fee target args value chain.
      nonce ∷ meter ∷ fee ∷ value ∷ chain ∷ target ++ args;
  with_kind = λ kind body. kind ∷ body;
  calling = λ body. 1 ∷ body;
  carrying = λ issuer body. issuer ++ body;
  until = λ height body. height ∷ body;
  kind_call = 1;
  kind_transfer = 0;
  Wrapper = Bytes;
  try_sign_hedged = λ seed index body genesis rnd. some (body ++ rnd);
  id = λ wrapper. codes "tx";
  to_bytes = λ wrapper. wrapper;
}

abbrev to_bob : Native
to_bob = record {
  seed = 5 ∷ zeroes 31;
  index = 0;
  target = 7 ∷ zeroes 31;
  args = 250 ∷ [];
  value = 0;
  nonce = 4;
  meter_limit = 1_210;
  fee = 500;
  chain_id = 77;
  valid_until = 1_300;
  calls_code = false;
  head = 1_000;
  genesis = zeroes 32;
}

abbrev bob_paid : SignedTransfer
bob_paid = record {
  from = 5 ∷ zeroes 31;
  tx_id = codes "tx";
  tx_bytes = 1_300 ∷ 0 ∷ 4 ∷ 1_210 ∷ 500 ∷ 0 ∷ 77 ∷ 7 ∷ zeroes 31 ++ (250 ∷ (1 ∷ 2 ∷ []));
}

self_refused :
    sign_native keeping (some (1 ∷ 2 ∷ [])) (record to_bob { target = 5 ∷ zeroes 31 })
    ≡ err SignError.self_transfer
unfolding sign_native valid_address address_payload check_valid_until check_genesis
self_refused = refl

nothing_refused : sign_transfer keeping (some (1 ∷ 2 ∷ [])) to_bob 0 ≡ err SignError.zero_transfer
unfolding sign_transfer
nothing_refused = refl
