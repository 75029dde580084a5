-- ===== src/Lib.antt =====
-- A model of the miner VELKAR GPU: it takes work from a node (gRPC) or from a pool (stratum), searches
-- nonces on CPU threads or a GPU, and sends back blocks or shares.
--
-- The parts, and how they interact. A node's template (Client) or a pool's job (Stratum) becomes the
-- state of a job (Pow.State), which reaches the threads through a watched value (Watch). A thread
-- (Miner) tries nonces: the proof of work is four stages (Pow.Hasher, Pow.Matrix) and a last hash,
-- compared with targets (Target). What is found goes back as a block or a share.
--
--   Base, Word, Text   shared helpers: results and panics, integers of Rust, texts as UTF-8 bytes
--   Packages           the packages and the floating point, as records of operations and laws
--   Target             src/target.rs
--   Pow.Xoshiro        src/pow/xoshiro.rs
--   Pow.Hasher         src/pow/hasher.rs
--   Pow.Matrix, Pow.Rank, Pow.Generate   src/pow/heavy_hash.rs
--   Pow.Header         serialize_header and decode_to_slice of src/pow.rs, block_hash of
--                      src/velkard_messages.rs
--   Pow.State          State of src/pow.rs
--   Stratum            src/stratum.rs; Stratum.Lines has the lines of the pool and the loop
--   Client             src/client.rs, and the messages of src/velkard_messages.rs
--   Cli                src/cli.rs
--   Watch              src/swap_rust.rs
--   Gpu                src/gpu.rs; Gpu.Cuda is src/cuda.rs
--   Miner              src/miner.rs; Miner.Pool has the pool's threads,
--                      Miner.Node the node's, Miner.Gpu the GPU scheduler, Miner.Launch the start
--                      of the pool's threads
--   Start              src/main.rs
--   Farm               a connection to a pool as src/main.rs runs it: the client, the threads, the
--                      watched job and the channel of commands, as a step relation
--   Solo               a connection to a node as src/main.rs runs it: the client, the threads, the
--                      store with the watched template and the mark of the solved state, as a step
--                      relation
--   Examples           packages to compute with, and the theorems at concrete inputs
--
-- With a GPU, a thread hands the state to a searcher (Gpu), which runs a batch of nonces on a device
-- and filters what comes back on the CPU; the threads know it by the interface Searching only, and
-- both backends fill it.
--
-- How code corresponds to definitions. A function keeps its name. Integers are natural numbers with
-- the wrap-around of their width written out; shifts take their count modulo 64, as the release
-- profile does. A `Result` or a panic is an `Outcome`; `?` is `>>=`. A handler of messages takes the
-- state and returns the next one. A channel is the list of what was sent, and a
-- flag says whether a receiver is there at a send, which fails without one. A shared counter is the
-- number that an exchange finds, so that theorems hold for every interleaving. An address that the
-- allocator gives is an argument.
--
-- A device is a record of the calls of its package, with a state that they pass on; its kernels are
-- behind it. A round of a thread is a function of the thread and of what it finds outside: the values
-- of the watched cell at its looks, the shared counters, the clock, the shutdown.
--
-- A step of a farm or of a solo is an event of the client, a command that it takes from the channel,
-- or a round of one thread, in any order; a round may look at every value that the job or the template
-- has had, for the others go on while it runs. A round that fails ends its thread; as it may fail at
-- its send, behind its exchange, the shared counter of shares is left anywhere by it, and a free mark
-- of the solved state may be taken.
--
-- Fuel. `Matrix::generate` loops until a matrix has rank 64; `generate` takes the number of draws
-- as fuel, and any number above the index of the first full-rank draw is enough. There are hashes
-- without such a draw. `digest_long_cpu` gives its loop one round for each byte of its output, which
-- is more than it makes. All other loops are bounded and modelled by structural recursion; the loops
-- of the threads are modelled round by round.
--
-- Not modelled: the packages (Keccak, BLAKE2b, Argon2, big integers, JSON, f64, OpenCL and CUDA are
-- parameters), the device kernels, the names and the log of the devices, the connections, tasks
-- and signals, logging but for the checks of a searcher, and the mutex and the wake-up of waiting
-- threads.
pub mod Base
pub mod Word
pub mod Text
pub mod Target
pub mod Packages
pub mod Pow
pub mod Stratum
pub mod Cli
pub mod Client
pub mod Watch
pub mod Gpu
pub mod Miner
pub mod Start
pub mod Farm
pub mod Solo
pub mod Examples
