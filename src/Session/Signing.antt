-- ===== src/Session/Signing.antt =====
-- Clients that share one session. A client reserves a nonce with `slot`, and then signs at it
-- (`signed`) or gives it up (the drop of `Reserved`, which calls `release`); the steps of several
-- clients come in any order. It takes the nonce that the gateway reports, or names one that no client
-- has reserved or signed at: to name a nonce that was signed at is how the source lets a caller sign
-- there again. No step is `release_pending`, which forgets the reservations that clients still hold.
mod Tickets
mod Reserved
pub mod Once
use qcore_rs.Prelude.{
  ℕ, ◌≤◌, ◌≡◌, Bool, true, false, ◌&&◌, Option, none, some, List, [], ◌∷◌, any, is_ok, ◌==◌,
  if◌then◌else◌, is_same, list_eq, nat_eq, Text, Bytes, u64_max,
}
use qcore_rs.Session
use qcore_rs.Session.{SigningSession}
use qcore_rs.Session.Known
use qcore_rs.Session.Saved
use qcore_rs.Session.Saved.Covered.{covers}

abbrev pub Ticket : Type 0
Ticket = Text × ℕ

abbrev pub matches : Text → ℕ → Ticket → Bool
matches key n t = is_same key t.0 && n == t.1

abbrev pub holds : Text → ℕ → List Ticket → Bool
holds key n = any (matches key n)

abbrev pub discard : Text → ℕ → List Ticket → List Ticket
discard key n [] = []
discard key n (t ∷ ts) = let rest = discard key n ts in if matches key n t then rest else t ∷ rest

-- No ticket stands twice.
abbrev pub Distinct : List Ticket → Type 0
Distinct [] = Unit
Distinct (t ∷ ts) = (holds t.0 t.1 ts ≡ false) × Distinct ts

-- The session, the nonces reserved by a signing in progress, and all the signatures made so far.
pub record World : Type 0 where
  pub session : SigningSession
  pub tickets : List Ticket
  pub signatures : List Ticket

abbrev pub begin : SigningSession → World
begin s = record { session = s; tickets = []; signatures = [] }

pub data Step (parse : Text → Option Bytes) (w : World) : World → Type 0 where
  reserve :
      (key : Text) (n : ℕ) (order : Bool)
      → n ≤ u64_max
      → is_ok (Session.slot w.session key n none order).0 ≡ true
      → Step parse w (record w {
        session = (Session.slot w.session key n none order).1;
        tickets = (key, n) ∷ w.tickets;
      })
  refused :
      (key : Text) (n : ℕ) (order : Bool)
      → n ≤ u64_max
      → is_ok (Session.slot w.session key n none order).0 ≡ false
      → Step parse w (record w { session = (Session.slot w.session key n none order).1 })
  named :
      (key : Text) (n : ℕ) (order : Bool)
      → n ≤ u64_max
      → holds key n w.tickets ≡ false
      → holds key n w.signatures ≡ false
      → Step parse w (record w {
        session = (Session.slot w.session key n (some n) order).1;
        tickets = (key, n) ∷ w.tickets;
      })
  sign :
      (key : Text) (n : ℕ)
      → holds key n w.tickets ≡ true
      → Step parse w (record {
        session = Session.signed w.session key n;
        tickets = discard key n w.tickets;
        signatures = (key, n) ∷ w.signatures;
      })
  give_up :
      (key : Text) (n : ℕ)
      → Step parse w (record w {
        session = Session.release w.session key n;
        tickets = discard key n w.tickets;
      })
  settle :
      (key : Text) (n : ℕ) (accepted : Bool)
      → n ≤ u64_max
      → Step parse w (record w { session = Session.outcome w.session key n accepted })
  note_head :
      (chain : Text) (height wall_secs : ℕ)
      → Step parse w (record w { session = Session.note_head w.session chain height wall_secs })
  remember :
      (address : Text)
      → Step parse w (record w { session = Known.remember_address parse w.session address })
  import_state :
      (state : Text)
      → covers state ≡ true
      → Step parse w (record w { session = (Saved.import_state w.session state).1 })

pub data Reach (parse : Text → Option Bytes) (w : World) : World → Type 0 where
  here : Reach parse w w
  next : {u v : World} → Reach parse w u → Step parse u v → Reach parse w v
