-- ===== src/Session/Saved/Restored.antt =====
-- `import_state` of src/lib.rs, on what `export_state` writes.
use qcore_rs.Prelude.{
  ℕ, max, ◌≤◌, ◌≡◌, refl, ap, ◌∙◌, Bool, true, ◌||◌, Option, none, some, List, [], ◌∷◌, ◌++◌,
  is_same, list_eq, nat_eq, Text, arith, inl, inr, beq_list_iff, if◌then◌else◌, Bool-cases, any,
  ◌==◌,
}
use qcore_rs.Map
use qcore_rs.Map.{Map}
use qcore_rs.Map.Ordered
use qcore_rs.Map.Ordered.{OrderedMap}
use qcore_rs.Session.{
  SigningSession, next_nonce, held_of, is_held, note_head, or_default, head_floor, raised_head,
}
use qcore_rs.Session.Saved.{
  Head, raise_next, raise_all, extend, hold_slots, hold_all, note_heads, add_key, sorted_keys,
  keys_of, keep_slots,
}
use qcore_rs.Session.Saved.Kept.{raise_all-Keeps, hold_all-Keeps, get-extend}

abbrev pub is_in : Text → List Text → Bool
is_in key keys = any (λ k. is_same k key) keys

add_key-is_in :
    (key other : Text) (keys : List Text)
    → is_in key (add_key other keys) ≡ (is_same other key || is_in key keys)
unfolding add_key
add_key-is_in key other [] = refl
add_key-is_in key other (k ∷ keys) = ground (
  arith,
  add_key-is_in key other keys,
  beq_list_iff other k,
  beq_list_iff other key,
  beq_list_iff k key,
)

pub sorted_keys-is_in :
    (key : Text) (keys : List Text) → is_in key (sorted_keys keys) ≡ is_in key keys
unfolding sorted_keys
sorted_keys-is_in key [] = refl
sorted_keys-is_in key (k ∷ keys) =
    add_key-is_in key k (sorted_keys keys)
    ∙ ap (λ b. is_same k key || b) (sorted_keys-is_in key keys)

pub get-is_in {κ} :
    {V : Type κ} (key : Text) (v : V) (m : Map Text V)
    → Map.get key m ≡ some v
    → is_in key (keys_of m) ≡ true
unfolding Map.get
get-is_in key v [] h = absurd (cc)
get-is_in key v ((k, w) ∷ m) h = ground (arith, get-is_in key v m)

pub append-is_in :
    (key : Text) (front back : List Text)
    → is_in key (front ++ back) ≡ (is_in key front || is_in key back)
append-is_in key [] back = refl
append-is_in key (k ∷ front) back = ground (arith, append-is_in key front back)

-- What the import collects of the keys of a session.
abbrev pub add_next : Text → Option ℕ → Map Text ℕ → Map Text ℕ
add_next key none next = next
add_next key (some n) next = Map.insert key n next

unfoldable pub nexts_of : SigningSession → List Text → Map Text ℕ → Map Text ℕ
nexts_of s [] next = next
nexts_of s (key ∷ keys) next = nexts_of s keys (add_next key (next_nonce s key) next)

unfoldable pub helds_of :
    SigningSession → List Text → Map Text (OrderedMap Bool) → Map Text (OrderedMap Bool)
helds_of s [] held = held
helds_of s (key ∷ keys) held = helds_of s keys (keep_slots key (extend (held_of s key) []) held)

get-add_next :
    (k key : Text) (o : Option ℕ) (n : ℕ) (next : Map Text ℕ)
    → (is_same k key ≡ true → o ≡ some n)
    → Map.get key (add_next k o next) ≡ (if is_same k key then some n else Map.get key next)
get-add_next k key none n next h = ground (arith, h)
get-add_next k key (some m) n next h = ground (arith, h, Map.get-insert k key m next)

get-keep_slots :
    (k key : Text) (new all : OrderedMap Bool) (slot : ℕ × Bool) (slots : OrderedMap Bool)
    (held : Map Text (OrderedMap Bool))
    → all ≡ slot ∷ slots
    → (is_same k key ≡ true → new ≡ all)
    → Map.get key (keep_slots k new held) ≡ (if is_same k key then some all else Map.get key held)
get-keep_slots k key [] all slot slots held a h = ground (arith, h, a)
get-keep_slots k key (x ∷ new) all slot slots held a h =
    ground (arith, h, Map.get-insert k key (x ∷ new) held)

pub get-nexts_of :
    (s : SigningSession) (key : Text) (n : ℕ) (keys : List Text) (next : Map Text ℕ)
    → next_nonce s key ≡ some n
    → Map.get key (nexts_of s keys next) ≡ (if is_in key keys then some n else Map.get key next)
unfolding nexts_of
get-nexts_of s key n [] next h = refl
get-nexts_of s key n (k ∷ keys) next h =
    let added = add_next k (next_nonce s k) next in
    let own = λ (e : is_same k key ≡ true). ap (next_nonce s) ((beq_list_iff k key).0 e) ∙ h in
    get-nexts_of s key n keys added h
    ∙ ground (arith, get-add_next k key (next_nonce s k) n next own)

pub get-helds_of :
    (s : SigningSession) (key : Text) (slot : ℕ × Bool) (slots : OrderedMap Bool) (keys : List Text)
    (held : Map Text (OrderedMap Bool))
    → extend (held_of s key) [] ≡ slot ∷ slots
    → Map.get key (helds_of s keys held)
      ≡ (if is_in key keys then some (extend (held_of s key) []) else Map.get key held)
unfolding helds_of
get-helds_of s key slot slots [] held h = refl
get-helds_of s key slot slots (k ∷ keys) held h =
    let new = extend (held_of s k) [] in
    let own =
      λ (e : is_same k key ≡ true). ap (λ j. extend (held_of s j) []) ((beq_list_iff k key).0 e) in
    get-helds_of s key slot slots keys (keep_slots k new held) h
    ∙ ground (arith, get-keep_slots k key new (extend (held_of s key) []) slot slots held h own)

pub contains-extend :
    (slots held : OrderedMap Bool) (n : ℕ)
    → Ordered.contains_key n slots ≡ true
    → Ordered.contains_key n (extend slots held) ≡ true
unfolding extend Ordered.contains_key Ordered.get
contains-extend [] held n h = absurd (cc)
contains-extend ((slot, accepted) ∷ slots) held n h = elim (Bool-cases (slot == n)) [
  | inl e ↦
      get-extend slots (Ordered.insert slot accepted held) n
        (ground (arith, Ordered.get-insert slot n accepted held, e))
  | inr e ↦ contains-extend slots (Ordered.insert slot accepted held) n (ground (arith, h, e))
]

hold_slots-holds :
    (key k : Text) (n : ℕ) (slots new : OrderedMap Bool) (s : SigningSession)
    → is_same k key ≡ true
    → new ≡ slots
    → Ordered.contains_key n slots ≡ true
    → is_held (hold_slots s k new) key n ≡ true
unfolding is_held
hold_slots-holds key k n slots new s e same c =
    let there = contains-extend new (held_of s k) n (ap (Ordered.contains_key n) same ∙ c) in
    ground (arith, Map.get-insert k key (extend new (held_of s k)) s.held, e, there)

pub holds :
    (key : Text) (n : ℕ) (slots : OrderedMap Bool) (held : Map Text (OrderedMap Bool))
    (s : SigningSession)
    → Map.get key held ≡ some slots
    → Ordered.contains_key n slots ≡ true
    → is_held (hold_all held s) key n ≡ true
unfolding hold_all Map.get
holds key n slots [] s h c = absurd (cc)
holds key n slots ((k, new) ∷ held) s h c = elim (Bool-cases (is_same k key)) [
  | inl e ↦
      (hold_all-Keeps held (hold_slots s k new)).holds key n
        (hold_slots-holds key k n slots new s e (ground (arith, h, e)) c)
  | inr e ↦ holds key n slots held (hold_slots s k new) (ground (arith, h, e)) c
]

pub raises :
    (key : Text) (n : ℕ) (next : Map Text ℕ) (s : SigningSession)
    → Map.get key next ≡ some n
    → (m : ℕ) × (next_nonce (raise_all next s) key ≡ some m) × (n ≤ m)
unfolding raise_all Map.get
raises key n [] s h = absurd (cc)
raises key n ((k, v) ∷ next) s h = elim (Bool-cases (is_same k key)) [
  | inl e ↦
      let raised = max (or_default (Map.get k s.next) v) v in
      let at : next_nonce (raise_next s k v) key ≡ some raised =
        ground (arith, Map.get-insert k key raised s.next, e) in
      let (m, later, le) = (raise_all-Keeps next (raise_next s k v)).tracks key raised at in
      (m, later, ground (arith, h, e, le))
  | inr e ↦ raises key n next (raise_next s k v) (ground (arith, h, e))
]

-- The floor of a chain after the heads are noted: at least each of them.
pub floor_kept :
    (s : SigningSession) (heads : List Head) (chain : Text) (floor : ℕ × ℕ)
    → head_floor s chain ≡ some floor
    → (later : ℕ × ℕ) × (head_floor (note_heads heads s) chain ≡ some later) × (floor.0 ≤ later.0)
unfolding note_heads note_head
floor_kept s [] chain floor h = (floor, h, omega arith)
floor_kept s ((c, height, at) ∷ heads) chain floor h =
    let now = if is_same c chain then raised_head (head_floor s c) height at else floor in
    let noted : head_floor (note_head s c height at) chain ≡ some now = ground (
      arith,
      Map.get-insert c chain (raised_head (head_floor s c) height at) s.heads,
      beq_list_iff c chain,
      h,
    ) in
    let (later, e, le) = floor_kept (note_head s c height at) heads chain now noted in
    let same = λ (e : is_same c chain ≡ true). ap (head_floor s) ((beq_list_iff c chain).0 e) ∙ h in
    (later, e, ground (arith, le, same))
