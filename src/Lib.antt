-- ===== src/Lib.antt =====
-- The HotStuff replica, verified: its state machine as definitions that run, and their theorems.
--
-- A replica receives blocks and votes, votes for proposals by the HotStuff rule, forms
-- certificates from a quorum of votes, and commits a block once a chain of three certified blocks
-- stands on it. Committed blocks are written to disk, logged, and handed to a virtual machine,
-- which runs its own proposals ahead of their commitment. The parts, by file:
--
--   Wire, Config, Certs     hotstuff/xdr, hotstuff/config, hotstuff/crypto/certs.cc: messages, the
--                           replicas and the quorum size, votes and certificates
--   Block                   hotstuff/block.cc, hotstuff/block_storage/io_utils.cc: blocks on a
--                           heap behind shared pointers, and their files
--   Consensus               hotstuff/consensus.cc: `update`, `update_hqc`, `on_receive_vote`,
--                           `on_receive_proposal` and the start
--   Storage                 hotstuff/block_storage/block_store.cc and garbage_collector.cc
--   Vm                      hotstuff/vm: the gadget that tracks speculation, the machine's thread
--                           and its queues, and the two bridges
--   Network                 hotstuff/event.cc, network_event.cc, the event queues, the fetching of
--                           missing blocks, what hotstuff/protocol sends and receives, and the
--                           client of hotstuff/nonblocking_rpc_client.h that does so
--   App                     hotstuff/hotstuff.cc, its header and include/hotstuff/liveness.h:
--                           proposing, voting, waiting for a certificate, the two applications and
--                           what they do at the calls of the core, and the restart from the log
--   Log                     hotstuff/lmdb.cc: the log of decided blocks
--   Files                   hotstuff/manage_data_dirs.cc, hotstuff/block_storage/io_utils.cc and
--                           utils/hs_save_load_xdr.h: the files behind the map of blocks, which
--                           Block takes as a map from hashes
--   Counting                examples/vm: the example machine, which counts
--   Agreement               several replicas with one tree of blocks, of which some are faulty
--   Foreign                 what is taken from outside the repository
--   Prelude, Examples       shared tests, lists and results; runs at concrete inputs
--
-- A definition has the name of the function that it translates; where a function is long, the
-- part from one of its tests on is a definition of its own, named in the comment above it. Below
-- each part, the modules named for a property hold its proof.
--
-- State. A `block_ptr_t` is an address on a heap that never frees a block, so that aliasing is
-- that of the program; a null pointer is `none`. A handler takes the state and returns a `Result`:
-- the new state, or the exception, the null read or the deadlock that ends its thread. The virtual
-- functions of the consensus core append to a log of calls, which the theorems read. Each call
-- that holds a lock throughout is one step. Hashes, signatures and keys are numbers.
--
-- A group of replicas is a function from ids to states, of which each move changes one; the moves
-- interleave in any order. The faulty replicas may sign anything: a certificate is a quorum whose
-- honest members have voted. That certificates are checked before a block is inserted, and that a
-- block descends from the one that its certificate is on, are conditions of the moves and of the
-- tree; the code does not check the second.
--
-- Integers. Heights are 64 bits wide and wrap where the code adds to them; `vheight` keeps 32.
-- A theorem that needs a height to be in range says so.
--
-- Loops. Recursion along parent pointers takes fuel: the height of a block and one more, which is
-- enough on a forest, where each block stands one above its parent; that is proved where a theorem
-- says that a function returns. The loop of the collector takes the length of its list and one
-- more, and its end is proved too. The wait for a proposal takes the rounds of the machine's
-- thread as fuel, of which one suffices.
--
-- Outside. Signatures, hashes and the bit vector of ids (libsodium, and the utils submodule) are
-- the fields of `Foreign`; the virtual machine is the parameter `Machine`, LMDB is `Lmdb`, the
-- byte order and xdrpp are `Encoding`, `Opaque` and `BlockCodec`, and the files `FileSystem`.
-- `wait_for_async_task` of the utils submodule is the field of `AsyncWorker`, of which a theorem
-- takes, where it must, that only rounds of the thread happen meanwhile, and that it returns only
-- when the thread has no work left.
--
-- A remote call is the outcome that it has, and a message that arrives is an argument of its
-- handler.
--
-- Not modelled: sockets and listeners, RPC framing and printing, which only pass data on.
mod Prelude
pub mod Foreign
pub mod Wire
pub mod Config
pub mod Certs
pub mod Block
pub mod Consensus
pub mod Counting
pub mod Agreement
pub mod Storage
pub mod Vm
pub mod Network
pub mod App
pub mod Log
pub mod Files
mod Examples
