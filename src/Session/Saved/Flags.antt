-- ===== src/Session/Saved/Flags.antt =====
-- `import_state` of src/lib.rs on what `export_state` writes: whether a held nonce was accepted.
use qcore_rs.Prelude.{
  ℕ, ◌≡◌, refl, sym, ap, ◌∙◌, Bool, Bool-cases, none, some, List, [], ◌∷◌, ◌==◌, is_same, list_eq,
  nat_eq, Text, arith, beq_list_iff, inl, inr,
}
use qcore_rs.Map
use qcore_rs.Map.{Map}
use qcore_rs.Map.Ordered
use qcore_rs.Map.Ordered.{OrderedMap, IsSorted}
use qcore_rs.Session.{SigningSession, held_of, note_head}
use qcore_rs.Session.Saved.{Head, extend, hold_slots, hold_all, note_heads, keep_slots}
use qcore_rs.Session.Saved.Restored.{helds_of}

pub extend-IsSorted : (slots held : OrderedMap Bool) → IsSorted held → IsSorted (extend slots held)
unfolding extend
extend-IsSorted [] held h = h
extend-IsSorted ((slot, accepted) ∷ slots) held h =
    extend-IsSorted slots (Ordered.insert slot accepted held)
      (Ordered.insert-IsSorted slot accepted held h)

get-extend-none :
    (slots held : OrderedMap Bool) (n : ℕ)
    → Ordered.get n slots ≡ none
    → Ordered.get n (extend slots held) ≡ Ordered.get n held
unfolding extend Ordered.get
get-extend-none [] held n h = refl
get-extend-none ((slot, accepted) ∷ slots) held n h =
    let later : Ordered.get n slots ≡ none = ground (arith, h) in
    get-extend-none slots (Ordered.insert slot accepted held) n later
    ∙ ground (arith, h, Ordered.get-insert slot n accepted held)

-- The flag of a map in order wins over the one that was there.
pub get-extend-some :
    (slots held : OrderedMap Bool) (n : ℕ) (accepted : Bool)
    → IsSorted slots
    → Ordered.get n slots ≡ some accepted
    → Ordered.get n (extend slots held) ≡ some accepted
unfolding extend Ordered.get
get-extend-some [] held n accepted o h = absurd (cc)
get-extend-some ((slot, own) ∷ slots) held n accepted o h = elim (Bool-cases (slot == n)) [
  | inl e ↦
      let none_later : Ordered.get n slots ≡ none =
        ground (arith, e, Ordered.get-Above slot slots o.0) in
      get-extend-none slots (Ordered.insert slot own held) n none_later
      ∙ ground (arith, e, h, Ordered.get-insert slot n own held)
  | inr e ↦
      get-extend-some slots (Ordered.insert slot own held) n accepted o.1 (ground (arith, h, e))
]

-- No key stands twice.
abbrev pub AreApart : Map Text (OrderedMap Bool) → Type 0
AreApart [] = Unit
AreApart ((key, slots) ∷ held) = (Map.get key held ≡ none) × AreApart held

insert-AreApart :
    (key : Text) (slots : OrderedMap Bool) (held : Map Text (OrderedMap Bool))
    → AreApart held
    → AreApart (Map.insert key slots held)
unfolding Map.insert Map.get
insert-AreApart key slots [] a = (refl, tt)
insert-AreApart key slots ((k, own) ∷ held) a = elim (Bool-cases (is_same k key)) [
  | inl e ↦
      let same : k ≡ key = (beq_list_iff k key).0 e in
      rw e (ap (λ j. Map.get j held) (sym same) ∙ a.0, a.1)
  | inr e ↦
      let there : Map.get k (Map.insert key slots held) ≡ none =
        Map.get-insert key k slots held
        ∙ ground (arith, e, beq_list_iff k key, beq_list_iff key k, a.0) in
      rw e (there, insert-AreApart key slots held a.1)
]

keep_slots-AreApart :
    (key : Text) (slots : OrderedMap Bool) (held : Map Text (OrderedMap Bool))
    → AreApart held
    → AreApart (keep_slots key slots held)
keep_slots-AreApart key [] held a = a
keep_slots-AreApart key (s ∷ slots) held a = insert-AreApart key (s ∷ slots) held a

pub helds_of-AreApart :
    (s : SigningSession) (keys : List Text) (held : Map Text (OrderedMap Bool))
    → AreApart held
    → AreApart (helds_of s keys held)
unfolding helds_of
helds_of-AreApart s [] held a = a
helds_of-AreApart s (key ∷ keys) held a =
    let own = extend (held_of s key) [] in
    helds_of-AreApart s keys (keep_slots key own held) (keep_slots-AreApart key own held a)

hold_all-none :
    (key : Text) (held : Map Text (OrderedMap Bool)) (s : SigningSession)
    → Map.get key held ≡ none
    → held_of (hold_all held s) key ≡ held_of s key
unfolding hold_all Map.get
hold_all-none key [] s h = refl
hold_all-none key ((k, slots) ∷ held) s h =
    let later : Map.get key held ≡ none = ground (arith, h) in
    hold_all-none key held (hold_slots s k slots) later
    ∙ ground (arith, h, Map.get-insert k key (extend slots (held_of s k)) s.held)

-- What is collected for a key is held for it afterwards, with its flags.
pub hold_all-flags :
    (key : Text) (n : ℕ) (accepted : Bool) (slots : OrderedMap Bool)
    (held : Map Text (OrderedMap Bool)) (s : SigningSession)
    → AreApart held
    → Map.get key held ≡ some slots
    → IsSorted slots
    → Ordered.get n slots ≡ some accepted
    → Ordered.get n (held_of (hold_all held s) key) ≡ some accepted
unfolding hold_all Map.get
hold_all-flags key n accepted slots [] s a h o g = absurd (cc)
hold_all-flags key n accepted slots ((k, own) ∷ held) s a h o g =
    elim (Bool-cases (is_same k key)) [
      | inl e ↦
          let same : k ≡ key = (beq_list_iff k key).0 e in
          let here : own ≡ slots = ground (arith, h, e) in
          ap (Ordered.get n) (
            hold_all-none key held (hold_slots s k own) (ap (λ j. Map.get j held) (sym same) ∙ a.0))
          ∙ ground (
            arith,
            e,
            here,
            Map.get-insert k key (extend own (held_of s k)) s.held,
            get-extend-some slots (held_of s k) n accepted o g,
          )
      | inr e ↦
          hold_all-flags key n accepted slots held (hold_slots s k own) a.1 (ground (arith, h, e)) o
            g
    ]

pub held_of-note_heads :
    (heads : List Head) (s : SigningSession) (key : Text)
    → held_of (note_heads heads s) key ≡ held_of s key
unfolding note_heads note_head
held_of-note_heads [] s key = refl
held_of-note_heads ((chain, height, at) ∷ heads) s key =
    held_of-note_heads heads (note_head s chain height at) key
