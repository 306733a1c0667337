-- ===== src/Session/Saved/Reading.antt =====
-- How the parts of an exported session are read by the import, and that the wire can carry them.
use qcore_rs.Prelude.{
  ℕ, ◌≤◌, ◌≡◌, refl, Bool, true, false, Option, none, some, List, [], ◌∷◌, ◌++◌, ok, is_same,
  list_eq, nat_eq, Text, codes, arith, if◌then◌else◌, All, u64_max,
}
use qcore_rs.Prelude.Decimal.{decimal}
use qcore_rs.Prelude.Decimal.ReadBack.{decimal-IsDigit}
use qcore_rs.Prelude.Utf8.{utf8_run}
use qcore_rs.Map
use qcore_rs.Map.{Map}
use qcore_rs.Map.Ordered
use qcore_rs.Map.Ordered.{OrderedMap, IsSorted}
use qcore_rs.Json.{Json, field, get, as_str}
use qcore_rs.Json.RoundTrip.Values.{IsWritable, AreWritable}
use qcore_rs.Gateway.ReadBack.{IsText, digits-utf8_run, canonical_decimal-decimal}
use qcore_rs.Session.{SigningSession, next_nonce, held_of, or_default}
use qcore_rs.Session.Saved.{
  Head, number_of, held_json, next_field, keys_json, heads_json, read_slots, read_held, read_next,
  read_keys, read_heads, extend, keep_slots, add_key, sorted_keys, add_head, sorted_heads, keys_of,
}
use qcore_rs.Session.Saved.Restored.{add_next, nexts_of, helds_of}

number_of-decimal :
    (n : ℕ) (what : Text) → n ≤ u64_max → number_of (some (Json.str (decimal n))) what ≡ ok n
unfolding number_of as_str
number_of-decimal n what h = rw (canonical_decimal-decimal n (omega (arith, h))) (ground (arith, h))

-- Every slot is a u64.
abbrev pub AreSlots : OrderedMap Bool → Type 0
AreSlots slots = All (λ e. e.0 ≤ u64_max) slots

read_slots-held_json :
    (slots read : OrderedMap Bool)
    → AreSlots slots
    → read_slots (held_json slots) read ≡ ok (extend slots read)
unfolding read_slots held_json extend get
read_slots-held_json [] read a = refl
read_slots-held_json ((slot, accepted) ∷ slots) read a =
    rw (number_of-decimal slot (codes "slot") a.0)
      (read_slots-held_json slots (Ordered.insert slot accepted read) a.1)

abbrev IsNext : Option ℕ → Type 0
IsNext none = Unit
IsNext (some n) = n ≤ u64_max

abbrev entry : Text → OrderedMap Bool → Option ℕ → Json
entry key slots next = Json.object (
    field (codes "key") (Json.str key)
      (field (codes "held") (Json.array (held_json slots)) (next_field next)))

entry_read :
    (key : Text) (slots : OrderedMap Bool) (o : Option ℕ) (next : Map Text ℕ)
    → AreSlots slots
    → IsNext o
    → (get (codes "key") (entry key slots o) ≡ some (Json.str key))
      × (read_next key (get (codes "next") (entry key slots o)) next ≡ ok (add_next key o next))
      × (read_held (get (codes "held") (entry key slots o)) ≡ ok (extend slots []))
unfolding get
entry_read key slots none next a h = (refl, refl, read_slots-held_json slots [] a)
entry_read key slots (some n) next a h =
    (refl, rw (number_of-decimal n (codes "next nonce") h) refl, read_slots-held_json slots [] a)

-- What the types of the fields say of a session: UTF-8 texts, u64 numbers, maps in order.
pub record IsStorable (s : SigningSession) : Type 0 where
  pub keys : All IsText (keys_of s.next ++ keys_of s.held)
  pub next : All (λ e. e.1 ≤ u64_max) s.next
  pub slots : All (λ e. AreSlots e.1) s.held
  pub sorted : (key : Text) → IsSorted (held_of s key)
  pub heads : All (λ h. IsText h.0 × (h.1.0 ≤ u64_max) × (h.1.1 ≤ u64_max)) s.heads

either :
    {A : Type 0} (P : A → Type 0) (test : Bool) (x y : A) → P x → P y → P (if test then x else y)
either P true x y p q = p
either P false x y p q = q

get-IsNext : (key : Text) (m : Map Text ℕ) → All (λ e. e.1 ≤ u64_max) m → IsNext (Map.get key m)
unfolding Map.get
get-IsNext key [] a = tt
get-IsNext key ((k, n) ∷ m) a =
    either IsNext (is_same k key) (some n) (Map.get key m) a.0 (get-IsNext key m a.1)

abbrev IsHeld : Option (OrderedMap Bool) → Type 0
IsHeld slots = AreSlots (or_default slots [])

get-AreSlots :
    (key : Text) (m : Map Text (OrderedMap Bool))
    → All (λ e. AreSlots e.1) m
    → IsHeld (Map.get key m)
unfolding Map.get
get-AreSlots key [] a = tt
get-AreSlots key ((k, slots) ∷ m) a =
    either IsHeld (is_same k key) (some slots) (Map.get key m) a.0 (get-AreSlots key m a.1)

pub read_keys-keys_json :
    (s : SigningSession) (keys : List Text) (next : Map Text ℕ) (held : Map Text (OrderedMap Bool))
    → IsStorable s
    → read_keys (keys_json s keys) next held ≡ ok (nexts_of s keys next, helds_of s keys held)
unfolding read_keys keys_json nexts_of helds_of as_str
read_keys-keys_json s [] next held a = refl
read_keys-keys_json s (key ∷ keys) next held a =
    let (named, raised, slots) =
      entry_read key (held_of s key) (next_nonce s key) next (get-AreSlots key s.held a.slots)
        (get-IsNext key s.next a.next) in
    rw (named, raised, slots)
      (read_keys-keys_json s keys (add_next key (next_nonce s key) next)
        (keep_slots key (extend (held_of s key) []) held) a)

abbrev pub IsHead : Head → Type 0
IsHead h = IsText h.0 × (h.1 ≤ u64_max) × (h.2 ≤ u64_max)

pub read_heads-heads_json :
    (heads : List Head) → All IsHead heads → read_heads (heads_json heads) ≡ ok heads
unfolding read_heads heads_json get as_str
read_heads-heads_json [] a = refl
read_heads-heads_json ((chain, height, at) ∷ heads) a =
    rw
      (
        number_of-decimal height (codes "head height") a.0.1,
        number_of-decimal at (codes "head time") a.0.2,
        read_heads-heads_json heads a.1,
      )
      refl

add_head-All :
    (h : Head) (heads : List Head) → IsHead h → All IsHead heads → All IsHead (add_head h heads)
unfolding add_head
add_head-All h [] a b = (a, tt)
add_head-All h (x ∷ heads) a b = ground (arith, a, b.0, add_head-All h heads a b.1)

pub sorted_heads-All :
    (m : Map Text (ℕ × ℕ))
    → All (λ h. IsText h.0 × (h.1.0 ≤ u64_max) × (h.1.1 ≤ u64_max)) m
    → All IsHead (sorted_heads m)
unfolding sorted_heads
sorted_heads-All [] a = tt
sorted_heads-All ((chain, (height, at)) ∷ m) a =
    add_head-All (chain, height, at) (sorted_heads m) a.0 (sorted_heads-All m a.1)

add_key-All :
    (key : Text) (keys : List Text) → IsText key → All IsText keys → All IsText (add_key key keys)
unfolding add_key
add_key-All key [] a b = (a, tt)
add_key-All key (k ∷ keys) a b = ground (arith, a, b.0, add_key-All key keys a b.1)

pub sorted_keys-All : (keys : List Text) → All IsText keys → All IsText (sorted_keys keys)
unfolding sorted_keys
sorted_keys-All [] a = tt
sorted_keys-All (k ∷ keys) a = add_key-All k (sorted_keys keys) a.0 (sorted_keys-All keys a.1)

decimal-IsText : (n : ℕ) → IsText (decimal n)
decimal-IsText n = digits-utf8_run (decimal n) (decimal-IsDigit n)

held_json-AreWritable : (slots : OrderedMap Bool) → AreWritable 124 (held_json slots)
unfolding held_json IsWritable utf8_run
held_json-AreWritable [] = tt
held_json-AreWritable ((slot, accepted) ∷ slots) =
    ((refl, refl, decimal-IsText slot, (refl, refl, tt, tt)), held_json-AreWritable slots)

entry-IsWritable :
    (key : Text) (slots : OrderedMap Bool) (o : Option ℕ)
    → IsText key
    → IsWritable 126 (entry key slots o)
unfolding IsWritable utf8_run
entry-IsWritable key slots none k = (refl, refl, k, (refl, refl, held_json-AreWritable slots, tt))
entry-IsWritable key slots (some n) k =
    (refl, refl, k, (refl, refl, held_json-AreWritable slots, (refl, refl, decimal-IsText n, tt)))

pub keys_json-AreWritable :
    (s : SigningSession) (keys : List Text) → All IsText keys → AreWritable 126 (keys_json s keys)
unfolding keys_json IsWritable
keys_json-AreWritable s [] a = tt
keys_json-AreWritable s (key ∷ keys) a =
    (entry-IsWritable key (held_of s key) (next_nonce s key) a.0, keys_json-AreWritable s keys a.1)

pub heads_json-AreWritable :
    (heads : List Head) → All IsHead heads → AreWritable 126 (heads_json heads)
unfolding heads_json IsWritable utf8_run
heads_json-AreWritable [] a = tt
heads_json-AreWritable ((chain, height, at) ∷ heads) a = (
  (refl, refl, a.0.0, (refl, refl, decimal-IsText height, (refl, refl, decimal-IsText at, tt))),
  heads_json-AreWritable heads a.1,
)
