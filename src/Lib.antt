-- ===== src/Lib.antt =====
-- The wasmtiny library: a model of the core of the wasmtiny WebAssembly runtime.
--
-- The runtime keeps modules apart in instances, each with linear memories, tables and globals, meters
-- what the instances execute, and lets guests and the host share memory regions. Its parts, and the
-- files here that model them:
--
-- - Runtime: crates/core/src/runtime. Runtime/Error is error.rs; Runtime/Types is the types of
--   types.rs and their matching; Runtime/Table and Runtime/Globals are `Table` and `Global` of
--   types.rs; Runtime/Values is values.rs, with the byte encoding of values and the tagging of
--   function references; Runtime/Metering is `InstanceMeter` and `MeterCells` of metering.rs;
--   Runtime/Module is the parsed module of module.rs, import.rs and export.rs with its index spaces;
--   Runtime/AtomicOp is the table of atomic_op.rs; Runtime/ConstExpr is `evaluate_const_expr` of
--   instance.rs, the values of constant expressions.
-- - Loader/Reader: crates/core/src/loader/reader.rs, the binary reader of the module format.
-- - Loader/Parser: crates/core/src/loader/parser.rs, the parser of modules on that reader: the root file
--   has the readers of types, limits and constant expressions, Parser/Sections and Parser/Segments the
--   sections, Parser/Whole the header and the loop over the sections; Parser/Ends, Parser/Types,
--   Parser/Total, Parser/Bodies and Parser/Settled hold what is proved.
-- - Loader/Validator: crates/core/src/loader/validator.rs. The root file has the state of the
--   validation of a body (cursor, operand types, control frames) and the operations on it;
--   Validator/Immediates the readers of immediates; Validator/Opcodes the numeric and memory
--   opcodes; Validator/Locals the locals; Validator/Control the blocks, branches and calls;
--   Validator/Variables variables, tables, loads and stores; Validator/References references and the
--   prefixed opcodes; Validator/Body the dispatch and the loop of `validate_function_body`;
--   Validator/ConstExpr `validate_const_expr`; Validator/Sections and Validator/Whole the sections
--   and `validate`. Validator/Keeps has the invariants of the control frames and
--   Validator/Typing what is proved of the operand types. The parser hands its `Module` to
--   `validate`, whose constant expressions `evaluate_const_expr` evaluates again at instantiation.
-- - Sync: crates/core/src/runtime/shared_memory.rs, the queues of waiters (Sync/Waiters) and the loops
--   in which threads park on them (Sync/Parking).
-- - Memory: crates/core/src/memory.rs. Memory/System is the system calls, Memory/Access the bounds
--   checks, reads, writes and the waiters of an address, Memory/Mapping the mapping of shared regions
--   and clones; Memory/Layout and Memory/Growth hold what is proved of the address space.
-- - Registry: `SharedMemoryRegistry` of runtime/shared_memory.rs, on the memories and waiter queues
--   above. Registry/Counted runs it beside the memories of several guests; Registry/Host is the
--   host's way to the bytes and the waiters of a region.
-- - Interpreter/Stack: crates/core/src/interpreter/stack.rs, the operand stack, the control stack and
--   its bytes.
-- - Aot: crates/core/src/aot, of which Aot/Integrity is verifier.rs, Aot/Store is store.rs and
--   Aot/Reader is reader.rs, the cursor over the bytes of an artifact.
-- - Base holds what all share: tests on numbers, list functions on native numbers, bits and bytes.
--
-- How state and operations correspond to the code. A struct is a record with the fields of the
-- source; a method that changes its receiver answers the result beside the new state; an error is a
-- value of `Result` whose message is its format string, the formatted arguments being left out. A
-- `u8`, `u32`, `u64` or `usize` is a natural number, with its wrap-around written out where the
-- source wraps and its checked operations as tests; `usize` has 64 bits. Signed numbers and floats
-- are their bit patterns.
--
-- The bytes of shared regions and the waiters of shared regions are functions of the region's id,
-- in place of the pointers and `Arc`s that the source hands to every memory that maps the region: the
-- sharing is the equality of ids. The owned bytes of a memory are a function of the address. What
-- an address shows is the shared range that `find_shared_range` finds there, and the owned byte
-- otherwise. A mapping over owned pages replaces them, and detaching it leaves none: the owned bytes
-- under a region are lost, which is 0 in the model, which says nothing of what an access to
-- pages without permission does. The lengths of regions are those of whole pages.
--
-- The operating system is a parameter, a function that answers each call from the calls made before
-- it; every memory records its calls. `shm_open`, `ftruncate` and `mmap` of a new region are answered
-- by a record of three answers. Time and the other threads of a parked thread are a list of rounds:
-- in each the deadline has passed or not, the others change the map, and the sleep ends by timeout
-- or by a wake. A parked thread whose rounds end has no result yet.
--
-- Of several threads, the sections under one lock are the steps. A notify pops its nodes in one step
-- and sets their flags one by one after it; where nothing comes between, it is `notify_queue`, which
-- the calls of the registry and of memories use.
--
-- The validator answers `Checked`: an accepted result, an error, a panic (an `unwrap` of a missing
-- frame, a slice out of range, a shift by 32 or more where overflow is checked, memory that the
-- allocator refuses) or `stuck`, a loop that is out of rounds. The allocator is a parameter: the
-- capacities that it grants to `br_table`, the one place where a count is taken from the body before
-- its bytes are there. The end of a list of types
-- is the top of the stack. `func_idx` and the other indices that only messages print are left out. The frame that
-- the source passes beside the stack is read from the control frames, of which it is the last one.
-- The globals that a constant expression reads are their values; the lock around each is not
-- poisoned.
--
-- SHA-512 is a parameter, of which its length of 64 bytes is a hypothesis.
--
-- Bounds. The LEB128 loops recurse on a number of rounds: six for `u32`, five for `i32` and ten for
-- `i64`, since the loops end when the shift passes 35, 32 and 64 and each round adds 7. The
-- validator's own `read_uleb` has five rounds, the loops that skip bytes and the loop over a body
-- one for each byte and one more, and so have the loops over constant expressions: each round takes
-- a byte. The loop that reads control frames has one round for each byte, and each round takes 21
-- bytes. In the parser the loops over the sections and over a constant expression have one round for
-- each byte and one more, and the raw LEB128 loops five and ten. All other loops are over lists or a
-- count. The text of a name is decoded from its bytes as the standard library does it (Base/Utf8).
--
-- Not modelled here: the steps of the interpreter, instances other than
-- their constant expressions, the engine, the execution of atomic operations, the loader of
-- ahead-of-time artifacts, traps and native calls, the compiler crate, the command
-- line programs, and formatting. The wakes that the platform may be sent besides (runtime/os_wake.rs)
-- change no result and are left out.
pub mod Base
pub mod Runtime
pub mod Loader
pub mod Sync
pub mod Memory
pub mod Registry
pub mod Interpreter
pub mod Aot
