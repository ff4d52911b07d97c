-- ===== src/Lib.antt =====
-- Verification of the Jule runtime, the C++ headers under api/ that a compiled Jule program runs on.
--
-- Parts, from the bottom up:
-- * Panic (api/panic.hpp, api/error.hpp): a panic is a result that carries its error; Panic.Message has
--   the messages and the exception. Types (api/types.hpp): the integer types, over the width of `long`.
-- * Heap (memory): what is below api/ref.hpp, api/slice.hpp and api/any.hpp, as the state of a command. A
--   run returns, panics, or is undefined: it touches memory that is not allocated. Which attempts to
--   allocate succeed is a function of the heap, so every failing allocation is covered.
--   api/atomic.hpp's fetch-and-add wraps at 2^64.
-- * Ref (api/ref.hpp): `Ref<T>`, one definition for each member. Ref.Program has the programs whose
--   steps are the members, on n variables, with n below 2^64 - 1 so that no count wraps.
-- * Slice (api/slice.hpp): `Slice<Item>`, a window on a counted block. Slice.Memory and Slice.Items
--   say what a slice holds; Slice.Push, Slice.Sharing, Slice.Release and Slice.Checks are about
--   `push`, `slice`, the destructor with `= nullptr`, and the checks. Slice.Safety is about memory under
--   any number of slices: the statements of a function on n slices, with n below 2^64 - 5, as a program.
-- * Builtin (api/builtin.hpp): `copy`, `append`, `alloc_for_append`, on these slices; `out`
--   and `outln` in Builtin.Output.
-- * Array (api/array.hpp): arrays as lists, and the slices made of them.
-- * Any (api/any.hpp): `Any`. The values, their `typeid` names and their `==` are parameters; Any.Table
--   is the table of functions of a type, and Any.Program is about the statements on n variables.
-- * Buffer (lists): the view of api/slice.hpp for a slice that one function allocates, fills and returns: the
--   list of its items, with the same checks. The UTF-16 routines use it.
-- * Utf8 (api/utf8.hpp): decoder and encoder on bytes. Utf8.WellFormed is the Unicode table of
--   well-formed sequences, written down without the code.
-- * Str (api/str.hpp): `Str` as the list of its bytes; the search in `std::basic_string` is the
--   first occurrence. Str.Members has the constructors and conversions.
-- * Utf16 (api/utf16.hpp): all routines, on lists of units and runes.
-- * Atomic (api/atomic.hpp): the operations on one word of memory.
-- * Threads (api/ref.hpp): the members of `Ref` that n threads run at once on one allocation, cut at
--   their atomic operations and deletions, as a step relation; Threads.Safety has the invariant and
--   Threads.Progress what threads can do. Slice.Race is about two destructors of api/slice.hpp.
-- * Map (api/map.hpp): over `std::unordered_map`, which is the interface Map.Table; Map.Table.Assoc
--   implements it by association lists. Map.Refine replays calls on a finite function.
-- * Trait (api/trait.hpp): over Ref, with the values' type names as parameters.
-- * Clone (api/derive/clone.hpp): clones of slices, arrays, maps, references and traits. The clone of
--   an item is a parameter.
-- * Env (api/env.hpp): `args`, `env` and `executable`; what the system hands over is an
--   argument. Env.Systems has what differs on Windows and Darwin.
-- * Platform (api/platform.hpp) and Signal (api/signal.hpp): the systems, and the signals and handlers
--   of each; `std::signal` is the interface StdSignal.
-- * Print (lists of bytes): the `operator<<` of slices, arrays, maps, references and `Any`.
-- * Fn (api/fn.hpp): function values; `std::function` and its `target` are parameters.
-- * Misc (api/misc.hpp): division, and references to new structures; Misc.Signed is about signed
--   integers, where half is the least value without its sign.
-- * Defer (api/defer.hpp): a scope is a list of statements; its deferred blocks are objects whose
--   destructors run where the scope is left.
-- * Terminate (api/terminate.hpp): the handler of panics, and the error made of one.
-- * Vec (std/vec/alloc.hpp), Handle (std/sync/sync.hpp, std/thread/thread.hpp) and Integrated
--   (std/jule/integrated/integrated.hpp): parts of the standard library in C++.
--
-- Numbers are native; a machine word keeps its wrap-around, a signed argument is an integer. Lengths
-- and capacities are taken as unbounded numbers.
--
-- Fuel: `split` and `replace` take fuel, one more than the length of the text is enough when the
-- separator is not empty; with an empty one `split` does not end. `to_runes` takes the length of the
-- text as fuel, which its theorems show to be enough, and `env` on Windows the
-- length of the block. All other loops are structural.
--
-- Reference counting and safety checks are on (neither __JULE_DISABLE__REFERENCE_COUNTING nor
-- __JULE_DISABLE__SAFETY is defined).
--
-- Not modelled: what a thread runs; floating types and their division. Iterators are positions, and a
-- loop over them is one over a list. Memory orders: each atomic operation is one step in one order of
-- all. The compiler and most of the standard library are written in Jule.
pub mod Prelude
pub mod Panic
pub mod Buffer
pub mod Utf8
pub mod Str
pub mod Utf16
pub mod Heap
pub mod Ref
pub mod Atomic
pub mod Threads
pub mod Slice
pub mod Builtin
pub mod Array
pub mod Any
pub mod Map
pub mod Trait
pub mod Clone
pub mod Env
pub mod Platform
pub mod Signal
pub mod Print
pub mod Fn
pub mod Misc
pub mod Terminate
pub mod Vec
pub mod Handle
pub mod Integrated
pub mod Defer
pub mod Types
