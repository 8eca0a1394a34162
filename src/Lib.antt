-- ===== src/Lib.antt =====
-- Mojo's C bindings, system calls, run loop and watcher of handles, verified: public/c/lib/bindings
-- and the headers that it implements (public/c/include/mojo/bindings), system/mojo.c, which
-- implements public/c/include/mojo/system over the Magenta kernel, mojo::RunLoop of
-- public/cpp/utility, the router, the connector, the builders of messages and the validation of
-- message headers of public/cpp/bindings/lib, and the handle watcher of Dart programs of
-- public/platform/dart.
--
-- A mojom object is a struct, an array, a union or a map in a message. Before it is sent it is laid
-- out in a buffer (MojomBuffer_Allocate, MojomArray_New); its pointers are turned into offsets and its
-- handles into indices, in place (*_EncodePointersAndHandles); the receiver checks the message's
-- header (MojomMessage_Validate*), then the body against type descriptors that the bindings
-- generator emits (*_Validate), and turns offsets and indices back (*_DecodePointersAndHandles). The
-- size of a message can be computed beforehand (*_ComputeSerializedSize), and an object copied into
-- another buffer (*_DeepCopy). Messages go over handles of the system; a run loop waits for handles
-- with a wait set and calls their handlers, and runs tasks that were posted to it. Dart programs have
-- a thread that waits for them: they send it commands over a message pipe, and it posts to their
-- ports what happens to their handles, and when their timers end.
--
-- Files and the code that they model:
--   Prelude      Boolean tests, lists, 32-bit subtraction, MOJOM_INTERNAL_ROUND_TO_8; Prelude/Run code
--                that may fail an assertion or recur, Prelude/Maps std::map, Prelude/Regions regions
--   Memory       the bytes of memory and little-endian accesses; Memory/Laws the laws of stores
--   Buffer       buffer.c and MojomArray_New of array.c; Buffer/Allocate, Buffer/Arrays the proofs
--   Message      message.c; Message/Header the proofs
--   Descriptor   internal/type_descriptor.h; Descriptor/WellFormed what the generator promises
--   Validation   the *_Validate functions of type_descriptor.c, struct.c, array.c, union.c and map.c;
--                Validation/Safe and Validation/Spec the contract of one call, Validation/Version,
--                Pointer, Struct, Array, Union and Map its parts, Validation/Sound the whole
--   Codec        what encoding and decoding share; Codec/Encode and Codec/Decode the functions,
--                Codec/Pointers and Codec/Handles the round trips, Codec/Nested nested unions
--   System       system/mojo.c: the kernel as a parameter; System/Handles, Waiting, Pipes, Buffers and
--                WaitSets its functions, System/Calls all of them as values, System/Errors and
--                Contract when they store through out parameters, System/Deadlines times, System/Rights and Replace the table of handles
--   Copy         the *_DeepCopy functions; Copy/Sizes the *_ComputeSerializedSize functions,
--                Copy/Grows and Bounds the buffer, Copy/Exact the bytes of a copy, Copy/Nested the sizes
--                of nested unions
--   RunLoop      public/cpp/utility/run_loop.h and lib/run_loop.cc: the queues and the calls of clients;
--                RunLoop/Wakeup how long to wait, Notify the calls of handlers, Iteration the loop;
--                Queue, Clock, Tasks, Calls and Ready the loop over tasks, Invariant, Kept, Runs and
--                Lifetimes what holds between calls, Deadlines waiting, Stale what goes against the comments
--   Bindings     public/cpp/bindings/lib: BoundsChecker (bounds_checker.cc) and the validators of
--                message headers (validation_util.cc, message_header_validator.cc,
--                message_validation.cc); Bindings/Claims what a BoundsChecker gives, Bindings/Agree the
--                comparison with the C bindings; Bindings/Handles and Pointers handles and pointers in
--                messages (bindings_serialization.cc); Bindings/Builder fixed_buffer.cc and
--                message_builder.cc, Built and Accepted what a builder writes, and that it is a header
--   Router       public/cpp/bindings/lib/router.cc and the writing half of connector.cc: messages and
--                requests that go out; Router/Incoming where messages that come in go, Router/Reading the
--                reading half of connector.cc, and ReadMessage of message.cc; Router/Requests requests and
--                responses, Calls and Settles the end of reading, Kept and Sessions what always holds
--   Watcher      public/platform/dart/dart_handle_watcher.cc: the tables of handles and the timers;
--                Watcher/Commands the commands (dart_handle_watcher.h), Watcher/Loop the thread,
--                Watcher/Threads the registry of watchers; Vectors, Invariant, Removes, Tables, Adds and
--                Closes what each change does to the tables, Refines the commands, Ready and Waits what
--                a wait yields, Timers and Expires timers, Keeps, Sessions and Stops the thread,
--                Requests what Dart sends
--   Tests        runs on small inputs, and each theorem with hypotheses at such an input
--
-- How the state corresponds. A pointer is an address, a natural number; `Memory` is one mapped
-- region, and an access outside it is a fault, as is a failed assertion. Pointers have eight bytes,
-- and sums of addresses do not wrap in the C bindings, but do in BoundsChecker. `const void*`
-- descriptors are indices into tables, since descriptors refer to one another in cycles where a
-- type is recursive; an element type selects the table as it selects the cast. The arrays
-- `versions` and `entries` are lists, and `num_versions` and `num_entries` their lengths. `& 7` is
-- `% 8`, and `& ~7` is `/ 8 * 8`. Differences that the code casts to `uint32_t` wrap around as
-- `sub32` does, sums of `size_t` as `add_size` does. `memcpy` is of ranges that do not overlap. The
-- array of handles is not NULL.
--
-- MojomType_Dispatch* and the functions that it calls recur on one another by the data, so the
-- dispatch takes fuel and hands itself down as an argument. For validation fuel of twice the
-- bytes that are left, and two more, is enough on well-formed descriptors: every object claims
-- bytes that no later object may claim, and a union in place takes one call more. What is shown of
-- encoding, of sizes and of copies with fuel holds for any fuel, or for any from one on.
--
-- A system call takes the kernel's state and yields a reply and the state after it. A switch on an
-- error of the kernel is a function from its errors to MojoResult; an out parameter that mojo.c
-- stores through is a part of the reply; one whose address it hands to the kernel, as the signals
-- states of waits and the numbers of MojoReadMessage, is written in the kernel's state, by any
-- result. The kernel is a record of its calls, none of which is defined here; System/Rights names
-- what is relied on for handles. `MojoTimeTicks` is a signed number of 64 bits, `mx_time_t` an
-- unsigned one.
--
-- A run loop's priority queues are lists with the top first, and its std::map is a list with
-- ascending keys. The clock, the wait set and the client are the record Surroundings, none of which
-- is defined here; a task or a handler is a number, and a call of it yields the calls that it makes
-- on the loop, in order. They do not see the ids that AddHandler returns, and do not run the loop
-- again. The delay and the time of a task are signed, as MojoTimeTicks is; the clock is not
-- negative, and so is not the absolute deadline of a handler, which is added with an unsigned
-- MojoDeadline. The loop over ready tasks takes as much fuel as there are tasks ready, and one
-- more, where no task posts another with a delay below 0. A run of the loop itself need not end, so
-- what is shown of it is of runs that return.
--
-- A router's message pipe, asynchronous waiter, validators and client are the record Outside, none
-- of which is defined here; Router/Calls names what is relied on where reading is to end. A handle
-- or a wait of 0 is none. Client code that is called yields the calls that it makes on the router
-- meanwhile, in order; it does not destroy the router in a call and does not wait in one.
-- MOJO_DCHECK is left out of the C++ bindings, as in a build that is not for debugging; MOJO_CHECK
-- is an assertion. Reading takes as much fuel as there are messages, and one more.
--
-- A handle watcher's vectors are lists, its map of indexes is a list with ascending keys, and its
-- set of timers a list in the order of the deadlines. The system and the Dart virtual machine are
-- the record Outside, none of which is defined here; the clock may show any time at a reading. An
-- `int64_t` is the natural number of its 64 bits, and the clock is not negative. An access behind
-- the end of a vector is a fault, as is a failed MOJO_CHECK. Run takes as much fuel as it makes
-- rounds; it need not end, so what is shown of it is of runs that return, but where it is told to
-- shut down. The index that MojoWaitMany yields is left out, since the code does not read it.
--
-- Not modelled: the natives of Dart (public/platform/dart/mojo_natives.cc), the thunks
-- (public/platform/native), system/main.c, the rest of public/cpp, code in other languages than C
-- and C++, and tests. IsWellFormed leaves pointers to nested unions aside.
pub mod Prelude
pub mod Memory
pub mod Buffer
pub mod Message
pub mod Descriptor
pub mod Validation
pub mod Codec
pub mod System
pub mod Copy
pub mod RunLoop
pub mod Router
pub mod Watcher
pub mod Bindings
pub mod Tests
