-- ===== src/Session/Targets.antt =====
-- The addresses that a session remembers, and the refusal of lookalikes.
use qcore_rs.Prelude.{
  ◌≤◌, ◌≡◌, refl, Bool, Bool-cases, true, false, Option, none, List, [], ◌∷◌, ◌++◌, Result, ok, err,
  leb, list_eq, nat_eq, Text, Bytes, arith, beq_list_iff, length, any, find, drop, length-append,
  All, All-append, inl, inr, Option-cases, ◌||◌,
}
use qcore_rs.Address.{
  AddressError, valid_address, address_payload, same_address, lookalike_of, first_lookalike,
  lookalike, lookalike_among,
}
use qcore_rs.Session.{SigningSession}
use qcore_rs.Session.Known.{
  known, push_seen, session_remembered_addresses, remember_address, check_target, is_near,
  near_result,
}

module _ (parse : Text → Option Bytes) where
  near-eq-lookalike :
      (target : Bytes) (address entry : Text)
      → address_payload parse address ≡ ok target
      → is_near parse address entry
        ≡ lookalike parse target address entry (address_payload parse entry)
  unfolding same_address valid_address address_payload
  near-eq-lookalike target address entry h = ground arith

  not_near :
      (e : AddressError) (address entry : Text)
      → address_payload parse address ≡ err e
      → is_near parse address entry ≡ false
  unfolding same_address valid_address address_payload
  not_near e address entry h = ground arith

  find-eq-first_lookalike :
      (target : Bytes) (address : Text) (entries : List Text)
      → address_payload parse address ≡ ok target
      → find (is_near parse address) entries ≡ first_lookalike parse target address entries
  unfolding first_lookalike
  find-eq-first_lookalike target address [] h = refl
  find-eq-first_lookalike target address (entry ∷ entries) h = ground (
    arith,
    near-eq-lookalike target address entry h,
    find-eq-first_lookalike target address entries h,
  )

  find-near-none :
      (e : AddressError) (address : Text) (entries : List Text)
      → address_payload parse address ≡ err e
      → find (is_near parse address) entries ≡ none
  find-near-none e address [] h = refl
  find-near-none e address (entry ∷ entries) h =
      ground (arith, not_near e address entry h, find-near-none e address entries h)

  near-eq-among :
      (address : Text) (entries : List Text) (r : Result AddressError Bytes)
      → address_payload parse address ≡ r
      → find (is_near parse address) entries ≡ lookalike_among parse address entries r
  near-eq-among address entries (ok target) h = find-eq-first_lookalike target address entries h
  near-eq-among address entries (err e) h = find-near-none e address entries h

  -- The two lookalike tests are one: `check_target` refuses an address with the very address that
  -- `lookalike_of` finds among those the session knows, and passes where that finds none.
  pub check_target-eq-lookalike_of :
      (s : SigningSession) (address : Text)
      → check_target parse s address
        ≡ near_result parse address (lookalike_of parse address (known s))
  unfolding check_target lookalike_of
  check_target-eq-lookalike_of s address =
      rw (near-eq-among address (known s) (address_payload parse address) refl)

module _ (parse : Text → Option Bytes) where
  -- Each address differs from those after it.
  abbrev pub Differ : List Text → Type 0
  Differ [] = Unit
  Differ (a ∷ later) = All (λ b. same_address parse a b ≡ false) later × Differ later

  -- The remembered addresses: at most 1024, all valid, none another spelling of one after it or of
  -- an entry of the book.
  pub record IsTidy (s : SigningSession) : Type 0 where
    pub few : length s.seen ≤ session_remembered_addresses
    pub valid : All (λ a. valid_address parse a ≡ true) s.seen
    pub differ : Differ s.seen
    pub unlisted : All (λ a. any (λ entry. same_address parse entry a) s.book ≡ false) s.seen

  length-push_seen :
      (seen : List Text) (a : Text)
      → length seen ≤ session_remembered_addresses
      → length (push_seen seen a) ≤ session_remembered_addresses
  length-push_seen [] a h = omega arith
  length-push_seen (x ∷ seen) a h =
      ground (arith, length-append seen (a ∷ []), length-append (x ∷ seen) (a ∷ []))

  All-drop {ℓ} : (P : Text → Type ℓ) (l : List Text) → All P l → All P (drop 1 l)
  All-drop P [] h = tt
  All-drop P (x ∷ l) h = h.1

  All-push_seen {ℓ} :
      (P : Text → Type ℓ) (l : List Text) (a : Text) → All P l → P a → All P (push_seen l a)
  All-push_seen P l a h p = elim (Bool-cases (leb session_remembered_addresses (length l))) [
    | inl full ↦ rw full (All-append P (drop 1 l) (a ∷ []) (All-drop P l h) (p, tt))
    | inr room ↦ rw room (All-append P l (a ∷ []) h (p, tt))
  ]

  Differ-append :
      (l : List Text) (a : Text)
      → Differ l
      → any (λ entry. same_address parse entry a) l ≡ false
      → Differ (l ++ a ∷ [])
  Differ-append [] a d h = (tt, tt)
  Differ-append (x ∷ l) a d h = (
    All-append (λ b. same_address parse x b ≡ false) l (a ∷ []) d.0 (ground arith, tt),
    Differ-append l a d.1 (ground arith),
  )

  Differ-drop : (l : List Text) → Differ l → Differ (drop 1 l)
  Differ-drop [] d = tt
  Differ-drop (x ∷ l) d = d.1

  any-drop : (p : Text → Bool) (l : List Text) → any p l ≡ false → any p (drop 1 l) ≡ false
  any-drop p [] h = refl
  any-drop p (x ∷ l) h = ground arith

  Differ-push_seen :
      (l : List Text) (a : Text)
      → Differ l
      → any (λ entry. same_address parse entry a) l ≡ false
      → Differ (push_seen l a)
  Differ-push_seen l a d h = elim (Bool-cases (leb session_remembered_addresses (length l))) [
    | inl full ↦ rw full (Differ-append (drop 1 l) a (Differ-drop l d) (any-drop _ l h))
    | inr room ↦ rw room (Differ-append l a d h)
  ]

  any-append : (p : Text → Bool) (xs ys : List Text) → any p (xs ++ ys) ≡ (any p xs || any p ys)
  any-append p [] ys = refl
  any-append p (x ∷ xs) ys = ground (arith, any-append p xs ys)

  push-IsTidy :
      (s : SigningSession) (a : Text)
      → IsTidy s
      → valid_address parse a ≡ true
      → any (λ entry. same_address parse entry a) s.book ≡ false
      → any (λ entry. same_address parse entry a) s.seen ≡ false
      → IsTidy (record s { seen = push_seen s.seen a })
  push-IsTidy s a t good book seen = record {
    few = length-push_seen s.seen a t.few;
    valid = All-push_seen _ s.seen a t.valid good;
    differ = Differ-push_seen s.seen a t.differ seen;
    unlisted = All-push_seen _ s.seen a t.unlisted book;
  }

  -- `remember_address` keeps the remembered addresses few, valid and apart, whatever it is given.
  pub remember_address-IsTidy :
      (s : SigningSession) (a : Text) → IsTidy s → IsTidy (remember_address parse s a)
  unfolding remember_address
  remember_address-IsTidy s a t =
      ground (
        arith,
        t,
        any-append (λ entry. same_address parse entry a) s.book s.seen,
        push-IsTidy s a t,
      )

  same_address_refl : (a : Text) → valid_address parse a ≡ true → same_address parse a a ≡ true
  unfolding valid_address same_address address_payload
  same_address_refl a h = elim (Option-cases (parse a)) [
    | inl nothing ↦ ground arith
    | inr (payload, e) ↦ ground (arith, beq_list_iff payload payload)
  ]

  -- A valid address is known once it was remembered, in this spelling or in another.
  pub remember_address-known :
      (s : SigningSession) (a : Text)
      → valid_address parse a ≡ true
      → any (λ entry. same_address parse entry a) (known (remember_address parse s a)) ≡ true
  unfolding remember_address
  remember_address-known s a h = ground (
    arith,
    any-append (λ entry. same_address parse entry a) s.book s.seen,
    any-append (λ entry. same_address parse entry a) s.book (push_seen s.seen a),
    any-append (λ entry. same_address parse entry a) s.seen (a ∷ []),
    any-append (λ entry. same_address parse entry a) (drop 1 s.seen) (a ∷ []),
    same_address_refl a h,
  )
