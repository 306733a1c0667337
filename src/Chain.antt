-- ===== src/Chain.antt =====
-- The checks of src/lib.rs on the chain's clock, its head and the deadline of a transaction.
pub mod Fee
pub mod Deadline
use qcore_rs.Prelude.{
  ℕ, ◌+◌, ◌-◌, ◌*◌, ◌/◌, ◌^◌, Bool, true, false, ◌&&◌, ◌||◌, Option, none, some, Result, ok, err,
  ◌>>=◌, ◌>>◌, refuse, ltb, leb, ◌==◌, if◌then◌else◌, Text, codes, is_same, list_eq, nat_eq,
  saturating_add, saturating_mul, u64_max, ok_or, not,
}

abbrev pub max_plausible_head : ℕ
max_plausible_head = 2 ^ 40

abbrev pub head_blocks_per_sec : ℕ
head_blocks_per_sec = 20

abbrev pub head_slack_blocks : ℕ
head_slack_blocks = 240

abbrev pub genesis_floor_secs : ℕ
genesis_floor_secs = 1_735_689_600

abbrev pub testnet_genesis_secs : ℕ
testnet_genesis_secs = 1_793_761_285

abbrev pub testnet_blocks_per_sec : ℕ
testnet_blocks_per_sec = 10

abbrev pub max_validity_blocks : ℕ
max_validity_blocks = 3_600

abbrev pub default_validity_blocks : ℕ
default_validity_blocks = 300

abbrev pub max_blocks_per_sec : ℕ
max_blocks_per_sec = 1_000

abbrev pub testnet_chain_name : Text
testnet_chain_name = codes "Q-testNet-1.1"

pub record ChainClock : Type 0 where
  pub genesis_secs : ℕ
  pub blocks_per_sec : ℕ

pub data ChainError : Type 0 where
  block_rate_out_of_range : ℕ → ChainError
  half_a_clock : Text → ChainError
  deadline_never_expires : ChainError
  deadline_past_any_height : ℕ → ChainError
  deadline_expired deadline_too_far : ℕ → ℕ → ChainError
  unknown_clock : Text → ChainError
  implausible_head head_ahead_of_clock : ℕ → ChainError
  head_unbounded : ChainError
  head_below_floor head_leapt : ℕ → ℕ → ChainError

-- `ChainClock::new`
unfoldable pub chain_clock : ℕ → ℕ → Result ChainError ChainClock
chain_clock genesis_secs blocks_per_sec =
    if blocks_per_sec == 0 || ltb max_blocks_per_sec blocks_per_sec
    then err (ChainError.block_rate_out_of_range blocks_per_sec)
    else ok (record { genesis_secs = genesis_secs; blocks_per_sec = blocks_per_sec })

-- `ChainClock::head_ceiling`
unfoldable pub clock_ceiling : ChainClock → ℕ → ℕ
clock_ceiling clock wall_secs =
    saturating_add u64_max
      (saturating_mul u64_max (wall_secs - clock.genesis_secs) clock.blocks_per_sec)
      head_slack_blocks

-- The fields of `Network` that `clock` reads.
pub record Network : Type 0 where
  pub name : Text
  pub genesis_secs : Option ℕ
  pub blocks_per_sec : Option ℕ

abbrev pub some_clock : Result ChainError ChainClock → Result ChainError (Option ChainClock)
some_clock r = r >>= λ clock. ok (some clock)

abbrev pub clock_of : Text → Option ℕ → Option ℕ → Result ChainError (Option ChainClock)
clock_of name (some genesis) (some rate) = some_clock (chain_clock genesis rate)
clock_of name none none = ok none
clock_of name _ _ = err (ChainError.half_a_clock name)

-- `Network::clock`
abbrev pub network_clock : Network → Result ChainError (Option ChainClock)
network_clock network = clock_of network.name network.genesis_secs network.blocks_per_sec

abbrev pub testnet_clock : ChainClock
testnet_clock = record {
  genesis_secs = testnet_genesis_secs;
  blocks_per_sec = testnet_blocks_per_sec;
}

unfoldable pub known_clock : Text → Option ChainClock
known_clock chain_name = if is_same chain_name testnet_chain_name then some testnet_clock else none

abbrev pub clock_or_fastest : Option ChainClock → ChainClock
clock_or_fastest (some clock) = clock
clock_or_fastest none = record {
  genesis_secs = genesis_floor_secs;
  blocks_per_sec = head_blocks_per_sec;
}

unfoldable pub head_ceiling : Text → ℕ → ℕ
unfolding known_clock clock_ceiling
head_ceiling chain_name wall_secs =
    clock_ceiling (clock_or_fastest (known_clock chain_name)) wall_secs

unfoldable pub check_deadline : ℕ → Result ChainError (Unit {0})
check_deadline valid_until =
    if valid_until == 0
    then err ChainError.deadline_never_expires
    else if ltb (saturating_add u64_max max_plausible_head max_validity_blocks) valid_until
    then err (ChainError.deadline_past_any_height valid_until)
    else ok tt

unfoldable pub check_valid_until : ℕ → ℕ → Result ChainError (Unit {0})
unfolding check_deadline
check_valid_until valid_until head = do
  check_deadline valid_until
  refuse (leb valid_until head) (ChainError.deadline_expired valid_until head)
  refuse (ltb max_validity_blocks (valid_until - head))
      (ChainError.deadline_too_far valid_until head)

-- The clock that bounds the head: none for a verified head, and an error where there is none.
abbrev pub bounding_clock : Bool → Option ChainClock → Result ChainError (Option ChainClock)
bounding_clock true clock = ok none
bounding_clock false (some clock) = ok (some clock)
bounding_clock false none = err ChainError.head_unbounded

abbrev pub check_ceiling : Option ChainClock → ℕ → ℕ → Result ChainError (Unit {0})
check_ceiling none head wall_secs = ok tt
check_ceiling (some clock) head wall_secs =
    refuse (ltb (clock_ceiling clock wall_secs) head) (ChainError.head_ahead_of_clock head)

abbrev pub check_leap : Option ChainClock → ℕ → ℕ → ℕ → Result ChainError (Unit {0})
check_leap none head floor floor_age_secs = ok tt
check_leap (some clock) head floor floor_age_secs =
    let allowed =
      saturating_add u64_max (saturating_mul u64_max floor_age_secs clock.blocks_per_sec)
        head_slack_blocks in
    refuse (ltb (saturating_add u64_max floor allowed) head) (ChainError.head_leapt floor head)

abbrev pub check_floor : Option ChainClock → ℕ → Option ℕ → ℕ → Result ChainError (Unit {0})
check_floor clock head none floor_age_secs = ok tt
check_floor clock head (some floor) floor_age_secs = do
  refuse (ltb head floor) (ChainError.head_below_floor floor head)
  check_leap clock head floor floor_age_secs

unfoldable pub bounded_valid_until_for :
    Option ChainClock → Bool → ℕ → ℕ → Option ℕ → ℕ → Result ChainError ℕ
unfolding clock_ceiling check_valid_until
bounded_valid_until_for clock verified head wall_secs floor floor_age_secs = do
  refuse (ltb max_plausible_head head) (ChainError.implausible_head head)
  bounding ← bounding_clock verified clock
  check_ceiling bounding head wall_secs
  check_floor bounding head floor floor_age_secs
  let valid_until = saturating_add u64_max head default_validity_blocks
  check_valid_until valid_until head
  ok valid_until

unfoldable pub bounded_valid_until : Text → ℕ → ℕ → Option ℕ → ℕ → Result ChainError ℕ
unfolding known_clock bounded_valid_until_for
bounded_valid_until chain_name head wall_secs floor floor_age_secs = do
  clock ← ok_or (known_clock chain_name) (ChainError.unknown_clock chain_name)
  bounded_valid_until_for (some clock) false head wall_secs floor floor_age_secs
