-- ===== src/Session/Signing/Tickets.antt =====
-- Lists of tickets: a nonce among them, and what is left when one is discarded.
use qcore_rs.Prelude.{
  ℕ, ◌≡◌, refl, Bool-cases, true, false, List, [], ◌∷◌, list_eq, nat_eq, Text, All, arith,
  beq_list_iff, inl, inr,
}
use qcore_rs.Session.Signing.{Ticket, matches, holds, discard, Distinct}

pub matches-eq :
    (key : Text) (n : ℕ) (t : Ticket) → matches key n t ≡ true → (key ≡ t.0) × (n ≡ t.1)
matches-eq key n t h = (ground (arith, beq_list_iff key t.0), ground arith)

pub matches_self : (key : Text) (n : ℕ) → matches key n (key, n) ≡ true
matches_self key n = ground (arith, beq_list_iff key key)

-- What holds of every ticket holds of one that is among them.
pub All-holds :
    (P : Text → ℕ → Type 0) (key : Text) (n : ℕ) (ts : List Ticket)
    → All (λ t. P t.0 t.1) ts
    → holds key n ts ≡ true
    → P key n
All-holds P key n [] a h = cc
All-holds P key n (t ∷ ts) a h = elim (Bool-cases (matches key n t)) [
  | inl same ↦ let e = matches-eq key n t same in rw (e.0, e.1) (a.0)
  | inr other ↦ All-holds P key n ts a.1 (rw other at h)
]

pub All-discard {ℓ} :
    (P : Ticket → Type ℓ) (key : Text) (n : ℕ) (ts : List Ticket)
    → All P ts
    → All (λ t. P t × (matches key n t ≡ false)) (discard key n ts)
All-discard P key n [] a = tt
All-discard P key n (t ∷ ts) a = elim (Bool-cases (matches key n t)) [
  | inl same ↦ rw same (All-discard P key n ts a.1)
  | inr other ↦ rw other ((a.0, other), All-discard P key n ts a.1)
]

pub holds-discard :
    (k : Text) (m : ℕ) (key : Text) (n : ℕ) (ts : List Ticket)
    → holds k m ts ≡ false
    → holds k m (discard key n ts) ≡ false
holds-discard k m key n [] h = refl
holds-discard k m key n (t ∷ ts) h = ground (arith, holds-discard k m key n ts)

pub Distinct-discard :
    (key : Text) (n : ℕ) (ts : List Ticket) → Distinct ts → Distinct (discard key n ts)
Distinct-discard key n [] d = tt
Distinct-discard key n (t ∷ ts) d = elim (Bool-cases (matches key n t)) [
  | inl same ↦ rw same (Distinct-discard key n ts d.1)
  | inr other ↦ rw other (holds-discard t.0 t.1 key n ts d.0, Distinct-discard key n ts d.1)
]

-- A ticket other than `(key, n)` is not found once `(key, n)` is put before a list without it.
pub holds-cons_ne :
    (key : Text) (n : ℕ) (t : Ticket) (ts : List Ticket)
    → matches key n t ≡ false
    → holds t.0 t.1 ts ≡ false
    → holds t.0 t.1 ((key, n) ∷ ts) ≡ false
holds-cons_ne key n t ts h a = ground (arith, beq_list_iff key t.0, beq_list_iff t.0 key)

pub All-both :
    {P Q R : Ticket → Type 0}
    → ((t : Ticket) → P t → Q t → R t)
    → (ts : List Ticket) → All P ts
    → All Q ts
    → All R ts
All-both f [] p q = tt
All-both f (t ∷ ts) p q = (f t p.0 q.0, All-both f ts p.1 q.1)

pub All-every : {P : Ticket → Type 0} → ((t : Ticket) → P t) → (ts : List Ticket) → All P ts
All-every f [] = tt
All-every f (t ∷ ts) = (f t, All-every f ts)

pub All-not_holds :
    (key : Text) (n : ℕ) (ts : List Ticket)
    → holds key n ts ≡ false
    → All (λ t. matches key n t ≡ false) ts
All-not_holds key n [] h = tt
All-not_holds key n (t ∷ ts) h = ground (arith, h, All-not_holds key n ts)
