-- ===== src/Lib.antt =====
-- The trace layer of AndroidPrybar: from a traced instruction's facts to the bytes of the log.
--
-- The tracer formats each instruction, register, memory access and system call into a string builder
-- (trace/Utils/StringUtil.h), reads the traced process's memory without faulting
-- (trace/include/SafeMemRead.h), and writes the finished lines to a DirectWriteBuf
-- (trace/include/DirectWriteBuf.h), one for each thread. That buffer compresses what it holds with a
-- block compressor of its own (trace/include/lz4_block.h) and puts the block, behind a header of three
-- words, on a file or a TCP socket; with a socket a background thread does so while the tracer fills a
-- second buffer. tools/trace_receiver.py reads the frames back.
--
-- What a line says comes from further parts: the disassembly of an address is kept in a cache
-- (trace/src/EastTrace.cpp), a pointer gets the symbol and the region it stands in
-- (trace/Utils/SymbolTable.cpp, trace/src/FuncCallTrace.cpp), a call of a known function is printed with
-- its arguments and remembered until it returns, and what ART prints of a Java method is read back into
-- its descriptor (trace/src/JniTrace.cpp).
--
-- The parts and their files:
--   Base            shared names, lists and numbers, memory blocks and inline_memcpy, bit operations.
--   Numbers         uint64ToHex, uint64ToDec, uint64ToHexPadded, uint32ToHex8, byteToHex of
--                   trace/Utils/StringUtil.h. Digits and Decode read the numbers back.
--   StringBuilder   appendChar, appendStringN, appendString, toString, initStringBuilder,
--                   freeStringBuilder, resetStringBuilder of trace/Utils/StringUtil.h and .cpp.
--   Hexdump         hexdump_to_buffer of trace/Utils/hexdump.cpp, against a description by rows.
--   HostMemory      safe_host_read, safe_read_cstr, safe_looks_like_cstr, appendCStr of
--                   trace/include/SafeMemRead.h. Text and Strings say what the reads give.
--   Svc             trace/src/svc_handler.cpp and trace/include/svc_handler.h: FdTracker (the
--                   descriptor table), Names (syscall_table), Dump (the text helpers), Flags (the names
--                   of flags and commands), Cases (the arms of the switch), Handle (svc_handle),
--                   Pending (svc_flush_pending).
--   Registers       the register table of trace/src/ARM.cpp, cachedXRegIndex of
--                   trace/include/RegAccessPrinter.h, the printer of trace/src/RegAccessPrinter.cpp.
--                   Snapshot is the copy of the registers that trace/src/EastTrace.cpp takes for it.
--   MemAccess       aarch64_reg_width, arm64_get_mem_access_size, appendHexDump, printCString and
--                   tryPrintRegisterAsPointer of trace/src/MemPrinter.cpp; Address has the
--                   appendMemoryHexdump that notes an access, Noted its laws, and Noted/WordIndex what
--                   becomes of a W register as the index.
--   Detail          appendHex and assembleDetail of trace/src/ARM.cpp, the head of an instruction's line.
--                   Columns reads its numbers back.
--   Plt             resolvePltTarget of trace/src/EastTrace.cpp. Stub has the encodings of the two
--                   instructions of a stub.
--   DisasmCache     the class DisasmCache of trace/src/EastTrace.cpp. Laws says what the cache holds and
--                   for how long, Account and History count the instructions in it and the freed ones.
--   Symbols         trace/Utils/SymbolTable.cpp and .h: the searches, Elf (the structures in a file),
--                   Load (the sections and the dynamic segment), Cache (load and the tables by base).
--                   Find and Sound prove the searches and the load, Session any calls on the cache.
--   Jni             dotToSlash, classNameToSig, parsePrettyMethod, parsePrettyField and sigReturnType of
--                   trace/src/JniTrace.cpp. Types describes Java types, their texts and descriptors.
--   Regions         the regions of trace/src/FuncCallTrace.cpp: rebuildPtrRegions, findPtrRegion,
--                   ensureRegionsFresh_locked, appendPtrAnnotation, and in Tag appendRegionTag, with
--                   the symbol cache of Symbols and a thread's pointer into it. Search, Rebuild,
--                   FirstStart and Bases have the proofs about the snapshot, Live, Cached, Others and
--                   Dangles those about what a thread keeps.
--   Calls           the calls of trace/src/FuncCallTrace.cpp: Table (g_func_sigs), Format (formatParam,
--                   formatFdWithPath, formatKnownCall), Pending (stripChkWrapper,
--                   setupPendingAndEnhance, safeDumpBuf, flushPendingReturn), Emit (funcCallTraceEmit).
--                   Rows, Chk, Total, Returns and Tracks have the proofs.
--   Dump            the pages of trace/src/TraceUnidbgDump.cpp: on_mem, coalesce and the part of
--                   do_finalize that writes them. Kept and Entry prove what the files hold, Ranges and Fresh
--                   which pages they are.
--   Lz4             lz4_compress_block of trace/include/lz4_block.h, a definition for each part of its
--                   loop. Format is a decoder written from the block format, independent of the
--                   compressor; Sequences, Reads, Matches, Encode, Sizes and Correct lead to the round
--                   trip, Overrun to the one test that is a byte short.
--   Kernel          write_all and send_all, over an interface for one write or sendto call.
--   Frames          the header and the end frame, and a reader written from the frame format.
--   DirectWriteBuf  the state of the buffer. File has its operations without a background thread
--                   (init_lz4, write, flush, flushFromSignal, closeFromSignal, destroy). Tcp has the
--                   two threads (init_tcp, write, flush, destroy, bg_worker) as steps that interleave;
--                   Invariant, Store, Plan, Writer, Thread, Keeps, Progress, Session and Delivers
--                   prove what holds of every interleaving.
--
-- Conventions. A byte, a word or a pointer is a native number; a w-bit operation that can wrap is
-- written with its modulus, and an int or int64_t that can be negative is its bit pattern. The
-- negation of INT_MIN, which C++ leaves undefined, wraps as on a two's complement machine
-- (negated32). A pointer into a block of memory is an offset. Text is the list of its bytes,
-- without the terminator. `none` as the result of an operation is what the code does not define (a
-- read or a store outside a block, a read through a pointer to an element that is gone) or a loop
-- that has used up its fuel, except where a comment at the definition says otherwise.
--
-- Bounds and fuel. The compressor's loops have as much fuel as the input has bytes, since each round
-- advances by one at least; inputs are shorter than 2^31 bytes, as the int parameter asks. Each round of
-- write_all and of the loop of write takes a byte at least. The string builder's doubling has fuel for
-- the size that is needed, since each round at least doubles a capacity that is not 0. A read of a
-- string takes a byte at least in each round, since a chunk is never empty. Each pair of digit loop and
-- buffer has the room of the C array. The loop over a method's parameters takes a character at least in
-- each round, and the search of a region halves its range, so each has one round more than the text or
-- the snapshot has elements. DW_BUF_SIZE is a parameter, since the build chooses it.
--
-- Parameters. Kernel is one write or sendto call on a descriptor: it may take fewer bytes than it is
-- given, and IsReliable says that it never fails. Host is the traced process's memory, page by page, and
-- the page size. Machine is vc_reg_read_fast and cs_reg_name. An allocation's content is any byte.
-- Process is dladdr, dl_iterate_phdr, the objects' first bytes and the files; Sorter is std::sort. Maps is
-- the VM's count of changes and the lines of /proc/self/maps as sscanf splits them. Env adds the ranges of
-- the libraries with known functions, the demangler, and the module and the symbol at an address.
-- Capstone's strings of an instruction are arguments of the cache.
--
-- Locks are not modelled: an operation that holds one is one step.
--
-- Not modelled: the hooks of the closed VCPU and the lines that they assemble (the rest of
-- trace/src/EastTrace.cpp, trace/src/TraceMemoryHook.cpp), the other files that
-- trace/src/TraceUnidbgDump.cpp writes and its sessions of threads, the hooks that call the JNI in
-- trace/src/JniTrace.cpp, the contexts of threads in trace/src/FuncCallTrace.cpp, library lookup
-- through stdio (trace/Utils/LibraryUtils.cpp), the appendMemoryHexdump of trace/src/MemPrinter.cpp
-- that prints at once, setup_tcp_server (socket set-up), failing allocations, and the vendored
-- headers.
pub mod Base
pub mod Numbers
pub mod StringBuilder
pub mod Hexdump
pub mod HostMemory
pub mod Svc
pub mod Registers
pub mod MemAccess
pub mod Detail
pub mod Plt
pub mod DisasmCache
pub mod Symbols
pub mod Jni
pub mod Regions
pub mod Calls
pub mod Dump
pub mod Lz4
pub mod Kernel
pub mod Frames
pub mod DirectWriteBuf
