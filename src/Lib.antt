-- ===== src/Lib.antt =====
-- gr4-torchdsp: the Triton scheduler for GNU Radio 4 and the blocks that run networks on an
-- inference server.
--
-- The parts and how they interact. `scheduler_triton` (schedulers/triton/lib/scheduler_triton.cc)
-- owns one `thread_wrapper` (schedulers/triton/lib/thread_wrapper.cc), whose thread takes messages
-- from a queue and, when one asks for work, lets a `graph_executor`
-- (schedulers/triton/lib/graph_executor.cc) run one iteration over the blocks in their order. An
-- iteration asks the buffers what can be read and written, calls the work of each block, waits for
-- the last block's asynchronous callback, and posts reads and writes. The statuses of the blocks
-- come back to the thread, which notifies itself, flushes, or reports to the runtime monitor. The
-- blocks are `triton_block` (blocklib/torchdsp/triton_block), whose work hands the memory of its
-- buffers to a `triton_model` (blocklib/torchdsp/lib/triton_model_impl.cc), which queues a request
-- on the inference server.
--
-- The files.
--   Prelude      names of the library, ℕ tests and lists, C++ integers (Prelude/Int)
--   Outcome      how a C++ call ends: a value, or the fault that it meets
--   Runtime      the GNU Radio runtime as a record of answers, and the events that reach it
--   Trace        histories that grow by events of one kind
--   Executor     graph_executor::run_one_iteration: Ports has lines 36 to 140 (the requirements
--                and the grants), Work lines 149 to 253 (the loop over the blocks and the loop of
--                each block's work), Iteration lines 255 to 319 and the whole function
--   Options      scheduler_triton_options and the plug-in's `factory`
--   Channel      the interface of `concurrent_queue`, with its laws
--   Thread       thread_wrapper: State has the members and the short methods, Work the handling
--                of work notifications and parameter actions, Body the thread's function as a
--                machine, Runs its runs alone and its interleavings with other threads, Lifecycle
--                the abstract life of a thread that Refines compares the machine with
--   Model        triton_model_impl: Metadata, Configure (the constructors), Health, Sizes, Infer
--                (infer_batch_zerocopy), Interface (triton_model, the class that blocks see), Moves
--                (the move constructor and assignment), Json (the JSON readers and
--                get_model_metadata over an interface of the JSON library)
--   Block        triton_block_triton: its constructor and its work; Serving has what a call of work
--                needs, Built how the constructors provide it, Lifetime the states in between
--                calls, Multiple its output multiple, Whole the batches of what the executor
--                grants, Regions the memory that the requests name, and Chain a flowgraph that
--                ends in such a block, under the executor
--   Buffer       buffer_triton (blocklib/torchdsp/lib/buffer_triton.cc): Calls has the calls of the
--                system and of the server, Lifetime the constructor, the destructor, `make` and the
--                readers, Ledger what a process holds after a list of calls, Bag the same up to its
--                order, Pool the buffers of a process, made and destroyed in any order
--   Scheduler    scheduler_triton (schedulers/triton/lib/scheduler_triton.cc): State has its members
--                and methods over a thread that is null before `initialize`,
--                Started and Ended its life from `initialize` to `stop`, or to `kill` and `wait`
--   Tests        runs on small inputs, and an application of each theorem
--
-- How state and calls are modelled. Mutable state is a record that is passed on. Calls into the
-- runtime are events in a history, newest first, and an answer of the runtime is a function of the
-- history, so it may change from call to call. A failing operation gives a `Fault` in `Outcome`: an
-- index out of range, a null pointer, an unwritten variable, an exception, or a wait that nothing
-- ends. `int` and `size_t` arithmetic is written out where the source mixes them (Prelude/Int).
-- An overflow of a signed product, in num_elements of triton_model_impl, is undefined in the source and
-- has no fault here. The flag `d_thread_stopped` is a plain `bool` that the threads read and write
-- without a lock: each access is taken to be atomic. Of the runtime's `do_work` on a Triton block it
-- is assumed that it calls `work` and passes on what that returned, not what it counts as consumed.
--
-- Bounds. The `while (true)` around a block's work runs on fuel, `out_of_fuel` when it is used up.
-- Under the hypotheses of Executor.Order.run_one_iteration-order one round of fuel for each loop
-- is enough. Theorems that name a run of the thread take any fuel that the iteration needs.
--
-- Not modelled: the code of GNU Radio, of the Triton client (blocklib/torchdsp/lib/shm_utils.cc is
-- a copy of a part of it), of the YAML and JSON parsers and of the operating system, which are
-- parameters; the logs; the Python bindings; the add block; the copies of tags in `get_tags`.
pub mod Prelude
pub mod Outcome
pub mod Runtime
pub mod Trace
pub mod Executor
pub mod Options
pub mod Channel
pub mod Thread
pub mod Model
pub mod Block
pub mod Buffer
pub mod Scheduler
pub mod Tests
