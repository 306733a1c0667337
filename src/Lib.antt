-- ===== src/Lib.antt =====
-- The client core of QCore.rs: what a wallet checks before it signs, the session that keeps one
-- nonce from carrying two signatures, the bytes of contract calls and signed orders, and the check
-- that a header is final.
--
-- The program is one crate. src/lib.rs holds the checks on fees, heads and deadlines, the address
-- rules, the refusals of retired chains and of degenerate entropy, and the `SigningSession` that
-- every client of a process shares. src/contract.rs builds the argument memory of calls and orders,
-- with the refusals of src/lib.rs. src/finality.rs decides which headers are final under a roster,
-- and takes rosters from one epoch to the next. src/json.rs is the wire format that gateway and
-- client share.
--
-- Which file models which part:
--
-- Prelude      shared names, tests on numbers, lists, results, u64 and u128 bounds, texts as bytes,
--              and what the code uses of the standard library: decimals, UTF-8, white space
-- Json         src/json.rs: `Json`, `render` and `get`; Json/Parser is `parse` and its `Parser`,
--              Json/Hex is `to_hex` and `from_hex`, Json/RoundTrip that what is written is read
--              back, Json/Parser/Bounds that the numbers read are u64
-- Map          `HashMap` as an association list; Map/Ordered is `BTreeMap` with integer keys
-- Address      src/lib.rs `valid_address`, `address_payload`, `same_address`, `shares_edges`,
--              `lookalike_of`
-- Session      src/lib.rs `SigningSession`: the record with its fields of the source's names, and
--              `slot`, `signed`, `outcome`, `release`, `release_pending`, `note_head`, `is_held`;
--              Session/Known is its addresses (`remember_address`, `check_target`,
--              `with_address_book`), Session/Run a run of its operations, Session/Signing the
--              clients that share it, as a step relation; Session/Saved is `export_state` and
--              `import_state`, with Session/Saved/Covered for the saved texts whose accepted
--              nonces lie below the tracked ones and Session/Saved/Exported for those that are
--              written
-- Gateway      src/lib.rs `NodeInfo`, `Account`, `Submit`, `TxStatus` and their parsers;
--              Gateway/ReadBack that the answers of a gateway are read as what they report
-- Signing      src/lib.rs `sign_native` and `sign_transfer`, `sign_payable_call`, `sign_call`,
--              `sign_register`, `sign_asset_call`; Signing/Guards their guards, Signing/Admission when they
--              sign
-- Client       src/lib.rs `Client`: `rpc`, `node_info`, `account`, `submit`, `signing_genesis`,
--              `signing_chain_id`, `vet_target`, `checked_nonce`, `submit_held`, and the end of
--              `transfer_expecting`; Client/Endpoint is `check_endpoint`, `checked_chain_id` and
--              `response_cap`, Client/Reading `storage_at`, `asset_balance`, `order_nonce`;
--              Client/Pinning, Client/Sending and Client/Freed are what they keep; Client/Trust is
--              `trust_roster_at`, `anchor_pinned_roster` and `roster_for_epoch`, Client/Heads is
--              `certified_at`, `verify_head` and `validity`, Client/Confirm is `inclusion` and
--              `confirm_transaction`, with Client/Confirm/Events for `confirm_call_event` and
--              Client/Confirm/Status for `transaction` and `verified_account`; their children are
--              what these rest on
-- Chain        src/lib.rs `ChainClock`, `check_valid_until`, `bounded_valid_until_for`; Chain/Fee
--              is `check_call_under`, `check_call_to`, `deploy_fee_of`
-- Contract     src/contract.rs: Contract/Word and Contract/Memory are big endian words and the
--              argument memory, Contract/Field is `FieldValue` and `FieldArg`, Contract/Spans the
--              overlap check, Contract/CallArgs is `build_call_args`, Contract/Message the message
--              of an order, Contract/OrderCall is `build_typed_order_call` (with `check_genesis`
--              and `fresh_randomness` of src/lib.rs) and `build_signed_order_call`, Contract/Deploy
--              is `build_deploy_call`, Contract/Keys the storage keys and `order_layout_hash`,
--              Contract/Answers the requests and answers on storage and events, and
--              `build_order_from_typed`
-- Finality     src/finality.rs: Finality/Crates is what it takes from the other crates,
--              Finality/Certificate is `decode_certificate`, Finality/Quorum is `active_set` and
--              `verify_finality`, Finality/Epochs the epochs, `verify_next_roster` and
--              `verify_account`, Finality/Inclusion `verify_transaction` and `transaction_kind`,
--              Finality/Wire `parse_roster`, `parse_steps`, `decode_event` and `index_fits_path`
-- Http         src/http.rs: `parse_response`, `dechunk`, `split_hostport`; Http/Sizes is the size
--              lines of chunks, Http/Chunks that chunks are read back
-- Examples     concrete inputs and tests
--
-- A method that mutates is a function from the old session to the new one. A message that the
-- source formats is a constructor of an error type that carries the values shown. Saturating
-- arithmetic is written out with its bound. Texts are lists of their UTF-8 bytes; a usize has 64
-- bits. A set that a loop fills is the list of what was put into it. An argument list of the source
-- that is long is a record. A lock is held around each operation of the shared session, so the
-- clients of one process interleave by whole operations; that is what the step relation of
-- Session/Signing says.
--
-- What the source takes from other crates is a parameter: the address codec, the hash, the
-- signature schemes, the keys and bodies of transactions, the certificate codec, the sampler and
-- the state tree. A counted loop over parts of a certificate recurses on its count. The loops of
-- the JSON parser have fuel, one round more than there is input; each round reads at least a byte,
-- so they never run out. So has the loop over the chunks of a response. The loop of
-- `roster_for_epoch` has a round for each epoch between the roster it starts from and the one asked
-- for; each round goes on by one epoch, so it ends at that epoch. The loop that drops rosters has a
-- round for each roster.
--
-- A method of the client is a function from its state to a result and the state it leaves, which an
-- error does not undo; the transport is a function over a state of its own, so a gateway may answer
-- anything.
--
-- Not modelled: the recovery phrase, which the client does not use; of the client, its constructors
-- and how the transfers and calls join the steps modelled here, but for the end of
-- `transfer_expecting`; `post` of src/http.rs, which is its socket, and the command line; input and
-- output, the clock of the operating system, which is an argument, and the wiping of secrets from
-- memory, which changes no result.
pub mod Prelude
pub mod Map
pub mod Address
pub mod Session
pub mod Chain
mod Examples
pub mod Contract
pub mod Json
pub mod Gateway
pub mod Signing
pub mod Client
pub mod Http
pub mod Finality
