-- ===== src/Session/Known.antt =====
-- The addresses that `SigningSession` knows: the address book and the targets remembered.
use qcore_rs.Prelude.{
  ℕ, Bool, not, ◌&&◌, Option, none, some, List, [], ◌∷◌, ◌++◌, Result, ok, err, leb, if◌then◌else◌,
  length, any, find, drop, Text, Bytes,
}
use qcore_rs.Address.{valid_address, same_address, shares_edges}
use qcore_rs.Session.{SigningSession, new}

-- `SESSION_REMEMBERED_ADDRESSES`
abbrev pub session_remembered_addresses : ℕ
session_remembered_addresses = 1024

pub data TargetError : Type 0 where
  book_entry_invalid : Text → TargetError
  lookalike : Text → Text → TargetError

abbrev pub known : SigningSession → List Text
known s = s.book ++ s.seen

-- `pop_front` when the queue is full, then `push_back`
abbrev pub push_seen : List Text → Text → List Text
push_seen seen address =
    (if leb session_remembered_addresses (length seen) then drop 1 seen else seen) ++ address ∷ []

module _ (parse_address : Text → Option Bytes) where
  push_book : List Text → SigningSession → Result TargetError SigningSession
  push_book [] s = ok s
  push_book (address ∷ book) s =
      if not (valid_address parse_address address)
      then err (TargetError.book_entry_invalid address)
      else push_book book (record s { book = s.book ++ address ∷ [] })

  unfoldable pub with_address_book : List Text → Result TargetError SigningSession
  unfolding push_book
  with_address_book book = push_book book new

  unfoldable pub remember_address : SigningSession → Text → SigningSession
  remember_address s address =
      if not (valid_address parse_address address)
      then s
      else if any (λ entry. same_address parse_address entry address) (known s)
      then s
      else record s { seen = push_seen s.seen address }

  abbrev pub is_near : Text → Text → Bool
  is_near address entry =
      not (same_address parse_address entry address)
      && valid_address parse_address entry
      && valid_address parse_address address
      && shares_edges address entry

  abbrev pub near_result : Text → Option Text → Result TargetError (Unit {0})
  near_result address none = ok tt
  near_result address (some near) = err (TargetError.lookalike address near)

  unfoldable pub check_target : SigningSession → Text → Result TargetError (Unit {0})
  check_target s address = near_result address (find (is_near address) (known s))
