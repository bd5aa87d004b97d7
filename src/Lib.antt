-- ===== src/Lib.antt =====
-- A model of sawtooth-pbft, the PBFT consensus engine of Hyperledger Sawtooth, and the theorems that
-- make it correct.
--
-- The engine (engine.rs) receives updates of the validator and hands them to the node (node.rs),
-- which keeps a state (state.rs) and a message log (message_log.rs), uses the handlers (handlers.rs)
-- for the message types, and calls the validator to check, commit and publish blocks. A node sends
-- each message to its peers and to itself.
--
--   Common, Outcome   lists, equality tests and 64-bit words; results, which are a value, an error of
--                     error.rs, a panic, or that the fuel of the model ran out
--   Protos            protos/pbft_message.proto, the equality of src/message_extensions.rs
--   MessageType, ParsedMessage    src/message_type.rs, and src/hash.rs
--   Hashes            the Hash instances of src/message_extensions.rs and src/message_type.rs
--   Error, Timing, Config         src/error.rs, src/timing.rs, src/config.rs
--   Codec, Service    what protobuf, the hash and signature libraries and the validator do: parameters
--   State             src/state.rs: PbftState and its methods
--   Log               src/message_log.rs: PbftLog and its methods
--   Handlers          src/handlers.rs
--   Node              src/node.rs: the monad that the methods run in, and in its child modules Peer
--                     (on_peer_message), Broadcast (_broadcast_pbft_message, propose_view_change),
--                     Votes and Seal (verify_consensus_seal, build_seal), Blocks (on_block_commit,
--                     on_block_valid), NewBlock (on_block_new, catchup), Publish (try_publish and what
--                     the tickers call)
--   Storage           src/storage/mod.rs: the trait, and in its child modules Memory (storage/memory.rs),
--                     Disk (storage/disk.rs) and Locations (get_storage)
--   Engine            src/engine.rs: handle_update and one round of the event loop; Start has start itself,
--                     with the state in a storage that is written at the end of each round
--   Executable        src/main.rs: the command line, the logging and the start of the driver
--   Display           what the Display instances of src/state.rs, src/error.rs, src/message_log.rs and
--                     src/message_type.rs write
--   Examples          concrete data on which the theorems are applied
--
-- A method is a function of the node's state, its log, the calls made to the validator so far and the
-- number of clock readings; a method that fails or panics keeps what it has written until then. The
-- names are those of the source. A property of the log that all methods keep is proved once for each
-- part of a `do` block (Node/Preserves) and once for the whole handling of a message (Node/Handling);
-- what a method leaves alone is proved by the rules of Node/Frame. That a method sends no `Commit`
-- message is proved by the rules of Node/Voting.
-- Parts of a long function have names of their own and are composed
-- as the function composes them.
--
-- Bounds: a u64 is a natural number and its arithmetic is taken modulo 2 ^ 64, as release builds do.
-- The one recursion that does not end by itself is that a node handles the messages which it sends
-- while it handles one. `on_peer_message` takes fuel for the depth of this; two levels are enough.
--
-- A HashSet is the list of its entries in the order in which it is iterated, which Rust leaves open:
-- the theorems are about every list. The answer of the validator to a call is a function of all calls
-- before it; the clock is a sequence of readings.
--
-- Not modelled: the texts of log lines and their slices of block IDs, so that `reported` prints
-- nothing; the generated protobuf code; the digests of openssl; the unknown
-- fields of a protobuf message and the difference of an absent field from its default, both of which
-- the generated equality compares; what a program that panics leaves in its files. The file system
-- and serde_json are parameters of Storage, clap, log4rs and the driver of the SDK of Executable,
-- the crate hex of Display; the channel of updates is the list of what it gives.
pub mod Common
pub mod Protos
pub mod MessageType
pub mod Error
pub mod Timing
pub mod Outcome
pub mod Codec
pub mod ParsedMessage
pub mod Hashes
pub mod Config
pub mod State
pub mod Log
pub mod Service
pub mod Node
pub mod Handlers
pub mod Storage
pub mod Engine
pub mod Executable
pub mod Display
pub mod Examples
