-- ===== src/Lib.antt =====
-- Verification of petals, a library that runs a large language model on servers of volunteers:
-- each server holds some consecutive blocks of the model, and a client routes its hidden states
-- through servers that hold all of them.
--
-- The parts and the files that model them, with the source under src/petals:
--   Prelude    tests on numbers and lemmas on lists, which all parts share
--   Data       data_structures.py: the states of servers, the records of modules and spans
--   Cache      server/memory_cache.py, the attention cache. Size is get_allocation_size. Pipe is the
--              shared state, what `_schedule_alloc` and `_schedule_free` write to it, and use_cache,
--              which reads the pipe. System puts them together: an event is one step of one handler
--              or of the runtime, and a run is any list of events. Safety, Tensors and View are proofs.
--   Routing    client/routing. Spans is RemoteSequenceInfo.compute_spans, Info the rest of that class,
--              Manager the methods of RemoteSequenceManager: form_sequence is make_sequence behind its
--              wait for a manager that is not ready. Active, Blocks, Scan, Index, Coverage, Route, Gate
--              and Failure are proofs.
--   Pool       server/task_pool.py and server/task_prioritizer.py. Queue holds the pool and its
--              operations, and runs over any list of their calls. Conservation and Order are proofs.
--   Handler    server/handler.py. Uids is `_check_uids`, Gather `_gather_inputs`, Session the loop of
--              rpc_inference over a list of incoming messages, Forward and Backward the functions
--              `_rpc_forward` and `_rpc_backward`, Serialize the schemas of what is returned, and Rpc
--              the calls of one request or a stream of its parts. Rounds and SessionBounds are proofs.
--   Autograd   client/sequential_autograd.py. Forward is sequential_forward, over a record of what the
--              manager and the network do, and Backward is sequential_backward; Chain and Recovery are
--              proofs about the first, and Stacks, Prompts, Patience and Backprop about the second.
--   Disk       utils/disk_cache.py, the function free_disk_space_for; Order and Eviction are proofs.
--   Selection  server/block_selection.py, up to choose_best_blocks; Best is a proof.
--   Server     server/server.py: Server.run, ModuleContainer.create and shutdown, and the threads that
--              announce; Protocol is a proof.
--   Dht        dht_utils.py: what is stored for a module, and how it is read; Records is a proof.
--   Client     client/inference_session.py. Stream is _ServerInferenceSession, Session has the state
--              of InferenceSession and Retry its method step, over a record of what the manager, the
--              servers and the clock do; the other modules are proofs: Causal is about blocks that do
--              not look ahead, Track states what the server sessions hold, Call, Use, Renewal and
--              Renewed follow an attempt through its parts, and Progress, Replay and Steps put the
--              attempts and the steps together.
--   Remote     client/remote_forward_backward.py, the calls of Handler/Rpc from a client; Streams puts
--              the client and the server together.
--   Generation client/remote_generation.py, the method generate, over a record of what a round calls;
--              Length is a proof.
--   Throughput server/throughput.py, the file that keeps measured throughputs; Kept is a proof.
--   Tests      runs on concrete inputs
-- The handler allocates in the cache and submits to the pool; in its model both are parameters, with
-- the states of the cache and of the pool behind them. The client's route comes from the routing
-- table, whose records come from the DHT.
--
-- Numbers are natural. The counters of the cache are 64-bit and wrap, written `% word`; the code
-- declares them signed, which is the same below 2 ^ 63. Priorities
-- and times are only compared, and throughputs are a parameter type that is carried along, except in
-- Selection, where they are natural numbers. Random draws are a function from which
-- the model reads the number drawn. Tensors are values of a parameter type, or shapes where the code
-- reads shapes. The fuel of the loop of make_sequence is its end index: each span ends behind the
-- block where it starts. The fuel of sequential_forward, of sequential_backward and of a step of an
-- inference session is a number of attempts; the blocks and the failures that the swarm still has in
-- store bound it. The fuel of generate is the number of new tokens that it may make.
--
-- Not modelled: torch, logging, the transport and serialization of hivemind, which are parameters, the
-- processes and threads themselves (their steps are events in any order), the command line and the
-- BLOOM layers, the measurements of throughput, the choice of the number of blocks and the decoding
-- algorithms.
pub mod Prelude
pub mod Data
pub mod Cache
pub mod Routing
pub mod Pool
pub mod Handler
pub mod Autograd
pub mod Selection
pub mod Disk
pub mod Client
pub mod Server
pub mod Dht
pub mod Tests
pub mod Generation
pub mod Remote
pub mod Throughput
