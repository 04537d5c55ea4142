-- ===== src/Lib.antt =====
-- The memory views, the breakpoints, the Ghidra database reader, the packet reader and the
-- instruction decoder of mizl_core, modelled and proved. Paths below are from mizl_core/src.
--
-- The parts and how they interact. `memory/memview.rs` has the trait `MemView`: bytes at
-- addresses, read and written, with words of each width and byte order as provided methods, and a
-- static view over one vector. `debugger/chunked_free_memview.rs` and `debugger/breakpoint.rs`
-- have a view that is kept in chunks, and the container of breakpoints with a view that wraps
-- another one. The files `database/gbf*.rs` read a Ghidra database through a view: the file with
-- its blocks, the list of its tables, a table with its inner nodes and its two kinds of leaves,
-- and the records.
--
-- Base: the tests, lists and machine integers that all parts share. A `u64`, `usize`, `u32` or
-- `u8` is a native number below its modulus, an `i32` or `i64` its bit pattern, with the
-- wrap-around of a release build written out. `Outcome` is what a call comes to: a value, a
-- `MemViewError`, a panic, or the end of the model's fuel. Base/Search is `binary_search_by` of
-- the Rust library.
--
-- MemView: `Codec` the byte orders, `Trait` the trait as the record `MemReader` of the methods on
-- `&self` and `MemView` with the state for a write, `Static` the static view. An address that a
-- method moves is passed and returned.
--
-- Chunked: the chunked view; `Cells` says which byte it has at an address, and its invariant.
-- Breakpoint: the container; `Sorted`, `Lookup` and `Range` what its operations do.
--
-- Gbf: `Record`, `Schema` and `Text` are gbf_record.rs, gbf_table_schema.rs and gbf_helpers.rs;
-- `File` and `Open` gbf.rs and gbf_db_parms.rs; `Tables` gbf_tables.rs; `Search` the search that
-- the three nodes share; `Leaf` what the two leaves share, over an interface that `Node/Fixed`
-- (gbf_long_fixed_node.rs) and `Node/Var` (gbf_long_var_node.rs) fill; `Node/Interior`
-- gbf_long_interior_node.rs; `TableView` gbf_table_view.rs; `Chained` gbf_chained_buf_memview.rs.
-- Remote: `Packet` is the state machine in remote/gdb_server.rs that reads the packets of a
-- client; the threads, the channels and the socket are not modelled. Shared: `HexText` is
-- `i64_to_str_fast` of shared/fast_util.rs, `SwapBytes` is `read_swap_bytes` of
-- debugger/fast_util.rs.
--
-- Sleigh: the decoder reads its tables from a sleigh file and decodes instructions from a view.
-- `Element` and `Attribute` are the ids of consts.rs; `Reader` and `Reader/Elements`
-- sla_reader.rs, over a buffer and a position that is passed and returned; `Expression`,
-- `Decision` and `Constructor` the files expression.rs, decision.rs and constructor.rs, with their
-- readers, and `Expression/Evaluate` and `Decision/Match` with what they compute; `Symbol` the
-- files sym_*.rs; `Scope`, `File` and `File/Symbols` sla_file.rs. `Memory` is memory.rs, the bits
-- of words; `State` and `Disasm` are disasm.rs: `Resolve` walks a decision tree to a constructor,
-- `Proto` is `disasm_proto`, with its loop in `Proto/Step` and one print element in `Proto/Print`,
-- and `Display` is `disasm_display`; `Pspec` is pspec_file.rs. Where the walk reads an element of
-- a vector without a bounds check, the model has the outcome `out_of_bounds`. The decoder of zlib,
-- `pow` of num_traits and the nodes of an XML document are parameters.
--
-- Examples: a small database file, a small sleigh file and a decoder with one instruction, and
-- tests and concrete cases of the results.
--
-- Fuel. The loops of the chunked view get two rounds more than there are bytes, that of the
-- chained view one more, and the search of a node as many as there are entries: these are enough,
-- since each round but the last takes a byte, or an entry, at least. The walk from the root of a
-- table, the rows of the master table and the buffers of an index chain have no bound in the
-- program, which runs for ever on a cycle; their fuel is an argument. The loops and the nesting of
-- the readers of a sleigh file get one round more than the buffer has bytes, which is enough,
-- since each round and each level but the last reads a byte at least. The loop of `disasm_proto`
-- and the nesting of operands in `evaluate` have no bound in the program, which does not end on a
-- table that leads to itself without a byte; their fuel is an argument, as is that of
-- `seek_elem_children_end`, which stays for ever in front of an attribute.
--
-- Not modelled: the debugger for Linux, the foreign function interface, the reader of executables,
-- the command line (system calls, raw pointers, terminal), and, so far, the registers. A hash map
-- is a function or an association list, a string its UTF-8 bytes, and the text of an error message
-- its format string and values.
pub mod Base
pub mod MemView
pub mod Breakpoint
pub mod Chunked
pub mod Gbf
pub mod Remote
pub mod Shared
pub mod Sleigh
pub mod Examples
