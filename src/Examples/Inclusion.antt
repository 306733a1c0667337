-- ===== src/Examples/Inclusion.antt =====
-- A transaction and its proof, with a hash that keeps the leaf and a tree of one leaf.
use qcore_rs.Prelude.{
  ℕ, ◌≡◌, refl, true, Option, none, some, [], ◌∷◌, ok, Bytes, length, take, drop, leb, is_same,
  list_eq, nat_eq, ◌==◌, if◌then◌else◌,
}
use qcore_rs.Address.{address_payload}
use qcore_rs.Finality.Inclusion.{InclusionCrates, TxKind, verify_transaction, transaction_kind}

abbrev pub one : Bytes → Option (ℕ × Bytes)
one [] = none
one (x ∷ xs) = some (x, xs)

abbrev pub several : Bytes → Option (Bytes × Bytes)
several [] = none
several (n ∷ xs) = if leb n (length xs) then some (take n xs, drop n xs) else none

abbrev pub toy : InclusionCrates
toy = record {
  Decoder = Bytes;
  decoder = λ bytes. bytes;
  get_u8 = one;
  get_u64 = one;
  get_u128 = one;
  get_bytes = several;
  finish = λ d. length d == 0;
  remaining = λ d. length d;
  verify_inclusion = λ root leaf steps. is_same root leaf;
  sha3_256 = λ bytes. bytes;
  render_tx = λ bytes. some (7 ∷ bytes);
  parse_address = λ text. some text;
  vm_deploy_address = [];
  kind_call = 1;
}

abbrev leaf : Bytes
leaf = 1 ∷ 5 ∷ 0 ∷ 77 ∷ 700 ∷ 1 ∷ 6 ∷ 0 ∷ 1_210 ∷ 900 ∷ 0 ∷ 0 ∷ 0 ∷ 2 ∷ 0 ∷ []

included : verify_transaction toy leaf (7 ∷ leaf) leaf [] ≡ true
unfolding verify_transaction
included = refl

a_transfer : transaction_kind toy leaf ≡ ok TxKind.transfer
unfolding transaction_kind address_payload
a_transfer = refl
