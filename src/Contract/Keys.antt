-- ===== src/Contract/Keys.antt =====
-- The storage keys and the layout hash of src/contract.rs: what is hashed for each of them.
use qcore_rs.Prelude.{
  ℕ, ◌%◌, ◌^◌, ◌-◌, ◌<◌, ◌≡◌, refl, sym, ◌∙◌, List, [], ◌∷◌, ◌++◌, length, Bytes, Text, codes, All,
  arith,
}
use qcore_rs.Contract.Word.{be_bytes, length-be_bytes, be_bytes-injective}
use qcore_rs.Contract.Field.{word_bytes, zeroes}
use qcore_rs.Contract.Message.Values.{split}

abbrev pub nonce_tag : Bytes
nonce_tag = codes "QTVNONCE"

abbrev pub name_key_tag : Bytes
name_key_tag = codes "QTVNAME1"

abbrev pub order_layout_tag : Bytes
order_layout_tag = codes "QTVLAYT1"

pub record OrderLayoutField : Type 0 where
  pub name : Text
  pub ty : Text
  pub width : ℕ

-- the loop over the fields of a layout
unfoldable pub layout_fields : List OrderLayoutField → Bytes
unfolding be_bytes
layout_fields [] = []
layout_fields (f ∷ rest) =
    be_bytes 4 (length f.name % 2 ^ 32)
    ++ (f.name
        ++ (be_bytes 4 (length f.ty % 2 ^ 32)
            ++ (f.ty ++ (be_bytes 8 f.width ++ layout_fields rest))))

-- `pre`, the bytes that `order_layout_hash` hashes
unfoldable pub order_layout_pre : Bytes → List OrderLayoutField → Bytes
unfolding layout_fields
order_layout_pre selector fields =
    order_layout_tag ++ (selector ++ (be_bytes 4 (length fields % 2 ^ 32) ++ layout_fields fields))

-- `id_key`
unfoldable pub id_key : ℕ → Bytes
unfolding be_bytes
id_key id = be_bytes 8 id ++ zeroes (32 - word_bytes)

module _ (sha3_256 : Bytes → Bytes) where
  unfoldable pub nonce_slot_key : Bytes → Bytes
  nonce_slot_key signer = sha3_256 (nonce_tag ++ signer)

  unfoldable pub map_slot_key : ℕ → Bytes → Bytes
  map_slot_key map_domain_tag key_address = sha3_256 (be_bytes 8 map_domain_tag ++ key_address)

  unfoldable pub map_addr_word_key : ℕ → Bytes → ℕ → Bytes
  map_addr_word_key map_domain_tag key_address word =
      sha3_256 (be_bytes 8 map_domain_tag ++ (key_address ++ be_bytes 8 word))

  unfoldable pub name_key : Text → Bytes
  name_key label = sha3_256 (name_key_tag ++ (be_bytes 8 (length label) ++ label))

  unfoldable pub order_layout_hash : Bytes → List OrderLayoutField → Bytes
  unfolding order_layout_pre
  order_layout_hash selector fields = sha3_256 (order_layout_pre selector fields)

-- Names and types shorter than 4 GiB, widths of a u64.
abbrev pub IsLayoutField : OrderLayoutField → Type 0
IsLayoutField f = (length f.name < 2 ^ 32) × (length f.ty < 2 ^ 32) × (f.width < 2 ^ 64)

-- A text after its length is read back.
sized_split :
    (a b : Bytes) {x y : Bytes}
    → length a < 2 ^ 32
    → length b < 2 ^ 32
    → be_bytes 4 (length a % 2 ^ 32) ++ (a ++ x) ≡ be_bytes 4 (length b % 2 ^ 32) ++ (b ++ y)
    → (a ≡ b) × (x ≡ y)
sized_split a b la lb h =
    let n = length a % 2 ^ 32 in
    let m = length b % 2 ^ 32 in
    let (sizes, rest) =
      split (be_bytes 4 n) (be_bytes 4 m) (length-be_bytes 4 n ∙ sym (length-be_bytes 4 m)) h in
    let e = be_bytes-injective 4 n m (omega arith) (omega arith) sizes in
    split a b (omega (arith, e)) rest

layout_fields-injective :
    (fs gs : List OrderLayoutField)
    → All IsLayoutField fs
    → All IsLayoutField gs
    → length fs ≡ length gs
    → layout_fields fs ≡ layout_fields gs
    → fs ≡ gs
unfolding layout_fields
layout_fields-injective [] [] x y n h = refl
layout_fields-injective [] (g ∷ gs) x y n h = absurd (omega (arith, n))
layout_fields-injective (f ∷ fs) [] x y n h = absurd (omega (arith, n))
layout_fields-injective (f ∷ fs) (g ∷ gs) x y n h =
    let (names, h1) = sized_split f.name g.name x.0.0 y.0.0 h in
    let (types, h2) = sized_split f.ty g.ty x.0.1 y.0.1 h1 in
    let (words, h3) =
      split (be_bytes 8 f.width) (be_bytes 8 g.width)
        (length-be_bytes 8 f.width ∙ sym (length-be_bytes 8 g.width)) h2 in
    let widths =
      be_bytes-injective 8 f.width g.width (omega (arith, x.0.2)) (omega (arith, y.0.2)) words in
    let rest = layout_fields-injective fs gs x.1 y.1 (omega (arith, n)) h3 in cc

-- What is hashed for a layout determines it: for selectors of 4 bytes and fewer than 2 ^ 32 fields
-- of the source's sizes, two layouts are hashed from the same bytes only if they are one layout.
pub order_layout_pre-injective :
    (s t : Bytes) (fs gs : List OrderLayoutField)
    → length s ≡ 4
    → length t ≡ 4
    → length fs < 2 ^ 32
    → length gs < 2 ^ 32
    → All IsLayoutField fs
    → All IsLayoutField gs
    → order_layout_pre s fs ≡ order_layout_pre t gs
    → (s ≡ t) × (fs ≡ gs)
unfolding order_layout_pre
order_layout_pre-injective s t fs gs ls lt lf lg x y h =
    let n = length fs % 2 ^ 32 in
    let m = length gs % 2 ^ 32 in
    let h1 = (split order_layout_tag order_layout_tag refl h).1 in
    let (selectors, h2) = split s t (ls ∙ sym lt) h1 in
    let (sizes, h3) =
      split (be_bytes 4 n) (be_bytes 4 m) (length-be_bytes 4 n ∙ sym (length-be_bytes 4 m)) h2 in
    let e = be_bytes-injective 4 n m (omega arith) (omega arith) sizes in
    (selectors, layout_fields-injective fs gs x y (omega (arith, e)) h3)
