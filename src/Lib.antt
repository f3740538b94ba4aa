-- ===== src/Lib.antt =====
-- The virtual machine of Wren that rust_wren embeds, wren-sys/lib/wren/src, as definitions that
-- can be run and theorems about them. Paths below are relative to wren-sys/lib/wren/src/vm.
--
-- The helpers of wren_utils.c stand below Utils: UTF-8 in Utils/Utf8 (wrenUtf8Encode is `encode`,
-- wrenUtf8Decode is `decode`), wrenPowerOf2Ceil in Utils/PowerOf2, the buffers that DEFINE_BUFFER
-- generates in Utils/Buffer, symbol tables in Utils/SymbolTable and wrenValidateIndex in
-- Utils/Index. Values, their hash codes and wrenValuesEqual (wren_value.h, wren_value.c) stand in
-- Value and below it, and the hash tables of wren_value.c in Map: findEntry is `find_entry`,
-- insertEntry `insert_entry`, resizeMap `resize_map`, and wrenMapGet, wrenMapSet,
-- wrenMapRemoveKey and wrenMapClear are `map_get`, `map_set`, `map_remove_key` and `map_clear`.
-- Of wren_compiler.c, Compiler and the files below it model the scopes of local variables
-- (declareVariable in a local scope, pushScope, discardLocals, popScope) and the resolution of
-- names (resolveLocal, addUpvalue, findUpvalue); the chain of enclosing compilers is a list.
-- Lexer and the files below it model all of its lexer: the types of tokens in Lexer/Tokens, the
-- state and its steps in Lexer/Cursor, comments, numbers and names in Lexer/Words, strings in
-- Lexer/Strings and nextToken, `next_token`, in Lexer/Scan. Emit models the bytecode that
-- emitByte, emitOp, emitJump, patchJump and endLoop write, and how the interpreter reads jumps.
-- The lists of wren_value.c (wrenListInsert, wrenListRemoveAt, wrenListIndexOf) stand in
-- Sequence. Of its string functions, Text/Find models the search of wrenStringFind, and
-- Text/Points wrenStringFromCodePoint, wrenStringCodePointAt and wrenNewStringFromRange. Of
-- wren_vm.c, Fiber models the upvalues that closures share with the stack (captureUpvalue,
-- closeUpvalues). Switch models how fibers run each other: runFiber of wren_core.c is
-- `run_fiber`, with the primitives on fibers in Switch/Steps; runtimeError is `runtime_error` in
-- Switch/Errors, and what a fiber runs between them is any change of its stack and frames.
-- Collector models the garbage collector of wren_value.c and wren_vm.c on a heap of its own,
-- where an object is known by its address: wrenGrayObj is `gray_obj`, blackenObject
-- `blacken_contents`, wrenBlackenObjects `blacken_objects`, wrenCollectGarbage `collect_garbage`,
-- wrenFreeObj `free_obj`, which reads the class of a foreign object for its finalizer, and the
-- counting of wrenReallocate `reallocate_bytes`; what it grays for the compiler
-- (wrenMarkCompiler) and for symbol tables stands there too. The sizes of the C structures are
-- its parameter, `Sizes`. Base holds what all of them share. Symbol tables are buffers, buffers
-- grow by wrenPowerOf2Ceil, and maps call the equality and the hash codes of values.
--
-- State is passed explicitly. An array is a list; a read or a write outside of it, a failed
-- assertion and UNREACHABLE() are `none`, or a constructor of their own. The lexer and the
-- strings have a type of results for them, Result, since they can leave their arrays. An unsigned
-- 32-bit or 64-bit value is a natural number with its wrap-around written out, an `int` that the
-- source only keeps non-negative is a natural number, and other signed numbers are integers or
-- bit patterns. The C functions strtod and strtoll are parameters of the lexer, `parse_decimal`
-- and `parse_hex`. The build is the default one with NaN tagging, `char` is signed, and a double
-- is its 64 bits. The objects that keys of a map refer to are immutable, and a heap gives what
-- stands at an address.
--
-- The loop of findEntry recurs on fuel, of which it gets the capacity of the table; one round for
-- each entry is enough, since the loop ends when it is back at its first index. The loops of the
-- lexer recur on fuel too, one more than the bytes that are left of the source with its
-- terminator, and a round reads at least one byte. The loop of wrenStringFind gets one more than
-- the bytes of the haystack, and each round moves on by at least one. The loop of
-- wrenBlackenObjects gets one more than the objects of the heap, since an object turns gray once,
-- and the loop of runtimeError one more than the fibers, since a round unhooks a fiber from its
-- caller. All other loops recur on a list or on the number of rounds left.
--
-- Not modelled: allocation failures, and that an allocation in the other components may run the
-- collector; the roots that are pushed and popped around allocations serve it alone. Nor the
-- instructions of the interpreter (wren_vm.c), the rest of the compiler (wren_compiler.c: its
-- grammar, classes, constants and the jumps of break statements), wrenNumToString and
-- wrenStringFormat, the core library but for its fibers (wren_core.c, wren_primitive.c), the
-- printing of wren_debug.c, the optional modules and the Rust crates.
pub mod Base
pub mod Bytes
pub mod Utils
pub mod Value
pub mod Map
pub mod Compiler
pub mod Fiber
pub mod Result
pub mod Lexer
mod Tests
pub mod Text
pub mod Sequence
pub mod Emit
pub mod Collector
pub mod Switch
