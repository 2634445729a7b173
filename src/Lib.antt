-- ===== src/Lib.antt =====
-- A verification library for the C part of Gforth: the support functions of the primitives, and the
-- code generator's choice of static superinstructions and stack-caching variants.
--
-- The parts of the program and the files that model them:
--
-- engine/dblsub.c, double-cell arithmetic on two cells: Double.antt. `Double` is the struct DCell or
--   UDCell; `dnegate`, `dadd`, `ummul` and `mmul` are the functions of those names. Double/Sums.antt
--   and Double/Products.antt have the proofs.
-- engine/support.c, mixed division: Divide.antt. `umdiv`, `smdiv` and `fmdiv` are the functions of
--   those names; a throw is a value of `Outcome`. Divide/Unsigned.antt, Divide/Symmetric.antt and
--   Divide/Floored.antt have the proofs, Divide/Signs.antt and Divide/Equations.antt the lemmas. They
--   call the double-cell arithmetic.
-- engine/support.c, engine/memcmp.c, comparing and finding names: Strings.antt, with the proofs in
--   Strings/Order.antt and Strings/Names.antt.
-- engine/support.c, parsing a word: Parse.antt, with the proofs in Parse/White.antt; `isspace` of the C
--   library is a parameter.
-- engine/support.c, reading a line: ReadLine.antt, with the proofs in ReadLine/Lines.antt; a stream is the
--   list of its bytes.
-- engine/support.c, the key of a name: Hashing.antt (`hashkey2a`, and `hashkey1` with `toupper` of the C
--   library as a parameter), with the proofs in Hashing/Bytes.antt and Hashing/Bits.antt.
-- engine/peephole.c, the table of combined primitives: Peephole.antt, with the proofs in
--   Peephole/Last.antt.
-- engine/support.c, engine/memmove.c, copying: Memory.antt, with the proofs in Memory/Copies.antt.
-- engine/main.c, static superinstructions and stack caching. Super.antt has the generated data
--   (`Config`), the cost functions and the hash table with `lookup_super` and `lookup_ss`;
--   Super/Table.antt has `prepare_super_table`, which fills the table at the start of the program;
--   Super/Label.antt has the labelling of a basic block, which is the first half of
--   `optimize_rewrite`, with `transitions` and `make_termstate`; Super/Rewrite.antt has the second
--   half, which walks along the labels and compiles. Super/Table/Sound.antt is about the table,
--   Super/Label/Offers.antt, Valid.antt, Chain.antt and Cheap.antt about the labels, and
--   Super/Rewrite/Correct.antt about the walk.
-- engine/main.c, the relocation of an image: Image.antt has `gforth_relocate_range` and
--   `gforth_compile_range` on one section; Image/Cells.antt has the items of the image file format,
--   Image/Relocated.antt what a section becomes, and Image/Compiled.antt what `compile_prim1` gets.
--   Image/Sections.antt has `gforth_relocate`, the loop over the sections.
-- engine/main.c, basic blocks: Compile.antt has `compile_prim1`, which collects the instructions that
--   the loader or the text interpreter compiles; Compile/Blocks.antt is about the blocks and
--   Compile/Rewrites.antt about their rewriting by `optimize_rewrite`.
-- engine/main.c, the dynamic code area: Code.antt has the state (`Area`) and `append_ip_update1`;
--   Code/Space.antt has `append_jump`, `reserve_code_space` and `reserve_code_super`; Code/Prims.antt has
--   `append_prim` and `compile_prim_dyn`; Code/Infos.antt has the records on generated code and
--   `fetch_decompile_prim`, Code/Forget.antt `forget_dyncode3` and `dyncodesize`. Code/Updates.antt is
--   about the updates of the instruction pointer, Code/Prims/Room.antt and Code/Prims/Fits.antt about the
--   room in the blocks. `gforth_alloc` is a parameter.
-- engine/main.c, which primitives can be copied: Check.antt has the loop of `check_prims` and
--   `bsearch_next`; Check/Search.antt is about the search, Check/Copies.antt about one round of the loop,
--   Check/Variants.antt and Check/Loop.antt about the whole loop. `qsort` of the C library is not
--   modelled: the labels are expected to be sorted.
-- engine/profile.c, the counts of the profiler: Profile.antt, with the proofs in Profile/Counts.antt.
-- engine/support.c, converting a String to a Float: ToFloat.antt has the labels of `to_float` as definitions,
--   with `strtod` of the C library and the type of a Float as parameters; ToFloat/Grammar.antt has the
--   grammar of its comment; ToFloat/Exponent.antt and ToFloat/Converted.antt are about the strings that it
--   derives, ToFloat/Rest.antt and ToFloat/Failed.antt about the others.
-- engine/main.c, the block of memory with the stacks: Stacks.antt has `wholepage`, `gforth_stacks`,
--   `gforth_set_sigaltstack`, `gforth_free_stacks` and the test of the return stack pointer behind a
--   signal in `gforth_go`; `mmap` and `malloc` are parameters. Stacks/Pages.antt is about rounding to
--   pages, Stacks/Block.antt and Stacks/Layout.antt about the layout, Stacks/Recovery.antt about the test.
-- engine/main.c, reading an image file: Loader.antt has `checkimage` and `gforth_loader` up to the relocation,
--   on a file as a list of bytes, with the addresses of allocated memory as a parameter;
--   Loader/File.antt is the layout of an image file, Loader/Loads.antt has the proofs. Loader/Memory.antt
--   hands the sections, as lists of cells and of bits, to the relocation of Image/Sections.antt.
--   Loader/Search.antt has `open_image_file`, with opening a file as a parameter, and
--   Loader/Search/First.antt its proofs.
-- Prelude.antt passes on the names that the modules share, with the 64-bit cells (Prelude/Words.antt),
--   the signed integers (Prelude/Int.antt), bits (Prelude/Bits.antt) and lists (Prelude/Lists.antt).
-- Tests.antt has runs of the definitions and the theorems at concrete inputs.
--
-- The configuration is that of a 64-bit machine: a cell is a number below 2 ^ 64, and a Cell is read as
-- an integer by `signed`. The double-cell functions are compiled where the C compiler has no
-- double-cell type (BUGGY_LONG_LONG), and `umdiv` is the shift-and-subtract loop without
-- `udiv_qrnnd`. The labelling is that without the automaton (`tpa_noautomaton`), which
-- `prepare_super_table` selects when it enters static superinstructions, unless the user disables
-- state equivalence.
--
-- The loops of the source run over lists or count down to 0, and the number of rounds is the source's
-- own. Five loops run on fuel, and the theorems on them include that it is enough: the search of `checkimage`,
-- for as many rounds as the file has bytes, of which each round reads eight; that of `open_image_file`,
-- for as many rounds as the path has characters, of which each round takes one at least; that of `hashkey2a`
-- for as many rounds as the name has bytes, of which each round takes 8, that of `append_ip_update1`
-- for as many rounds as there are cells to the target, and `bsearch_next` for as many calls as there
-- are labels. The search of `compile_prim1` has a bound on its rounds, above those that halving the step can make.
--
-- A string is the list of its bytes, a pointer into an array of primitive numbers the rest of the
-- array, and the memory of the copying functions the list of its bytes. The arrays that vmgen
-- generates (SUPER2_I, COSTS_I) and the table that `check_prims` measures are fields of `Config`, and
-- so parameters of every theorem. A failed assertion is `none`, in `to_float` it is `aborted`. Of the
-- assertions in `optimize_rewrite`, those on costs, on stack-caching states and on i==nextdyn are in
-- the model; the one on `inst_index`, and the one that the code area stays the same, are not: the
-- latter relies on the space of `reserve_code_super`, which is safe for the cost of code size only.
-- The cells of an image that hold threaded code get addresses of generated code, which are left open.
--
-- Not modelled: the machine code that is copied, the calls of `mmap`, `fopen` and `mprotect`, the command line
-- (engine/main.c); the engine itself (engine/engine.c and the generated primitives); the other
-- functions on files, terminals, signals and time, which are calls of the operating system; the
-- floating-point functions; the hash function `hashkey2` of engine/support.c; what engine/profile.c
-- prints.
mod Prelude
pub mod Double
pub mod Divide
pub mod Super
pub mod Strings
pub mod Memory
pub mod Hashing
pub mod Peephole
pub mod Parse
pub mod Image
pub mod Compile
pub mod Code
pub mod Check
pub mod Profile
pub mod ReadLine
pub mod ToFloat
pub mod Stacks
pub mod Loader
pub mod Tests
