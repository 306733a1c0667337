-- ===== src/Contract/Message/Injective.antt =====
-- No two orders share a message.
use native.Mathlib.Nat.{mul-add-div_right, div-eq_of_lt, pow-suc}
use qcore_rs.Prelude.{
  ℕ, zero, suc, ◌+◌, ◌*◌, ◌/◌, ◌^◌, ◌≤◌, ◌<◌, ◌≡◌, refl, sym, ap, ◌∙◌, [], ◌∷◌, ◌++◌, Bytes, length,
  All, arith,
}
use qcore_rs.Contract.Word.{be_bytes, from_be_bytes, length-be_bytes, be_bytes-injective}
use qcore_rs.Contract.Message.Values.{split, IsExact, SameWidths, field_bytes-injective}
use qcore_rs.Contract.Message.{Order, canonical_order_message_typed, signed_msg_tag}

abbrev pub IsByte : ℕ → Type 0
IsByte b = b < 256

from_be_bytes-lt : (bs : Bytes) → All IsByte bs → from_be_bytes bs < 256 ^ length bs
unfolding from_be_bytes
from_be_bytes-lt [] a = omega arith
from_be_bytes-lt (b ∷ bs) a =
    let rest = from_be_bytes-lt bs a.1 in
    let top : b * 256 ^ length bs + 256 ^ length bs ≤ 256 * 256 ^ length bs =
      scaled b (256 ^ length bs) a.0 in
    rw (pow-suc) (omega (arith, rest, top))
  where
    scaled : (x p : ℕ) → x < 256 → x * p + p ≤ 256 * p
    scaled x p h = grind arith

-- Bytes of one length are told apart by their number.
from_be_bytes-injective :
    (xs ys : Bytes)
    → length xs ≡ length ys
    → All IsByte xs
    → All IsByte ys
    → from_be_bytes xs ≡ from_be_bytes ys
    → xs ≡ ys
unfolding from_be_bytes
from_be_bytes-injective [] [] n a b h = refl
from_be_bytes-injective [] (y ∷ ys) n a b h = absurd (omega (arith, n))
from_be_bytes-injective (x ∷ xs) [] n a b h = absurd (omega (arith, n))
from_be_bytes-injective (x ∷ xs) (y ∷ ys) n a b h =
    let same : length xs ≡ length ys = omega (arith, n) in
    let p : 0 < 256 ^ length ys = pow_pos (length ys) in
    let lx : from_be_bytes xs < 256 ^ length ys = rw same at (from_be_bytes-lt xs a.1) in
    let ly = from_be_bytes-lt ys b.1 in
    let h' : x * 256 ^ length ys + from_be_bytes xs ≡ y * 256 ^ length ys + from_be_bytes ys =
      rw same at h in
    let top : x ≡ y =
      sym (quotient x (from_be_bytes xs) (256 ^ length ys) p lx)
      ∙ ap (λ (t : ℕ). t / 256 ^ length ys) h'
      ∙ quotient y (from_be_bytes ys) (256 ^ length ys) p ly in
    let low : from_be_bytes xs ≡ from_be_bytes ys =
      omega (arith, ap (λ (t : ℕ). t * 256 ^ length ys) top, h') in
    let rest = from_be_bytes-injective xs ys same a.1 b.1 low in cc
  where
    pow_pos : (k : ℕ) → 0 < 256 ^ k
    pow_pos zero = omega arith
    pow_pos (suc k) = rw (pow-suc) (omega (arith, pow_pos k))

    quotient : (x r p : ℕ) → 0 < p → r < p → (x * p + r) / p ≡ x
    quotient x r p h lt = mul-add-div_right h x r ∙ omega (arith, div-eq_of_lt {n = r} {m = p} lt)

-- The sizes of the arguments: u64 numbers, hashes and addresses of 32 bytes, a selector of 4.
pub record IsSized (o : Order) : Type 0 where
  pub chain_id : o.chain_id < 2 ^ 64
  pub genesis : length o.genesis ≡ 32
  pub contract_id : length o.contract_id ≡ 32
  pub selector : length o.selector ≡ 4
  pub selector_bytes : All IsByte o.selector
  pub signer : length o.signer ≡ 32
  pub nonce : o.nonce < 2 ^ 64
  pub expiry : o.expiry < 2 ^ 64
  pub layout_hash : length o.layout_hash ≡ 32
  pub fields : All IsExact o.fields

word_split :
    (a b : ℕ) {x y : Bytes}
    → be_bytes 8 a ++ x ≡ be_bytes 8 b ++ y
    → (be_bytes 8 a ≡ be_bytes 8 b) × (x ≡ y)
word_split a b h =
    split (be_bytes 8 a) (be_bytes 8 b) (length-be_bytes 8 a ∙ sym (length-be_bytes 8 b)) h

word_eq : (a b : ℕ) → a < 2 ^ 64 → b < 2 ^ 64 → be_bytes 8 a ≡ be_bytes 8 b → a ≡ b
word_eq a b x y h = be_bytes-injective 8 a b (omega (arith, x)) (omega (arith, y)) h

selector_lt : (bs : Bytes) → length bs ≡ 4 → All IsByte bs → from_be_bytes bs < 2 ^ 64
selector_lt bs n a =
    let below : from_be_bytes bs < 256 ^ 4 = rw n at (from_be_bytes-lt bs a) in omega (arith, below)

-- Two orders of the source's sizes, whose fields have the same widths, have different messages
-- unless they are one order.
pub canonical_order_message_typed-injective :
    (o p : Order)
    → IsSized o
    → IsSized p
    → SameWidths o.fields p.fields
    → canonical_order_message_typed o ≡ canonical_order_message_typed p
    → o ≡ p
unfolding canonical_order_message_typed
canonical_order_message_typed-injective o p x y n h =
    let h1 = (split signed_msg_tag signed_msg_tag refl h).1 in
    let (chain, h2) = word_split o.chain_id p.chain_id h1 in
    let (genesis, h3) = split o.genesis p.genesis (x.genesis ∙ sym y.genesis) h2 in
    let (contract, h4) = split o.contract_id p.contract_id (x.contract_id ∙ sym y.contract_id) h3 in
    let (selector, h5) = word_split (from_be_bytes o.selector) (from_be_bytes p.selector) h4 in
    let (signer, h6) = split o.signer p.signer (x.signer ∙ sym y.signer) h5 in
    let (nonce, h7) = word_split o.nonce p.nonce h6 in
    let (expiry, h8) = word_split o.expiry p.expiry h7 in
    let (layout, h9) = split o.layout_hash p.layout_hash (x.layout_hash ∙ sym y.layout_hash) h8 in
    let chain_id = word_eq o.chain_id p.chain_id x.chain_id y.chain_id chain in
    let nonces = word_eq o.nonce p.nonce x.nonce y.nonce nonce in
    let expiries = word_eq o.expiry p.expiry x.expiry y.expiry expiry in
    let number =
      word_eq (from_be_bytes o.selector) (from_be_bytes p.selector)
        (selector_lt o.selector x.selector x.selector_bytes)
        (selector_lt p.selector y.selector y.selector_bytes) selector in
    let selectors =
      from_be_bytes-injective o.selector p.selector (x.selector ∙ sym y.selector) x.selector_bytes
        y.selector_bytes number in
    let fields = field_bytes-injective o.fields p.fields x.fields y.fields n h9 in cc
