-- ===== src/Lib.antt =====
-- DartPlant hooks functions of Dart AOT programs inside a running Flutter process. This library
-- models its C++ core in the parts below; paths are from the repository's root.
--
-- Publication gate (src/host/publication_gate.cpp, src/core/internal.h). `Gate.Control` is the
-- 64-bit control word: state in the low 32 bits, number of callers inside in the high 32 bits, and
-- each compare-and-swap loop as a plan: given the word it read, the code swaps, stops or reads again.
-- `Gate.Hook` is a published hook with its gate as a record, one function for each operation from
-- `PreparePublishedHostHook` to `DestroyPublishedHostHookGate`; the host's reply to a hook request
-- is an argument. `Gate.Threads` is any number of callers and one owner that interleave on the
-- word, each step one atomic access. A compare-and-swap takes effect at the word it compares with,
-- so a step that finds another word changes nothing. The proofs count callers by a weighted sum.
--
-- ABI (src/abi). `Abi.Types` and `Abi.Evidence` are the evidence of several providers about a
-- function and its resolution (evidence.h, evidence_solver.cpp); `Abi.Layout` is the assignment of
-- registers and stack words to parameters (calling_convention.cpp); `Abi.Codec` is the encoding of
-- values as machine words (value_codec.cpp). The layout takes what the resolution returns. Its
-- int32_t slots and offsets are bit patterns below 2 ^ 32 whose arithmetic wraps; what is stated of
-- offsets assumes that they fit.
--
-- ELF (src/elf/dynamic_view.cpp). `Elf.Checked` is 64-bit arithmetic that refuses to wrap,
-- `Elf.Segments` the program headers and the translation of addresses to file offsets,
-- `Elf.Readers` the three readers, all filling the record `Elf.Reader.Reader`, `Elf.Dynamic` the
-- dynamic section, `Elf.Symbols` one symbol, and `Elf.Sysv`, `Elf.Gnu` and `Elf.Lookup` the search
-- through the hash tables, for any reader. `Elf.Notes` is the build id of a module
-- (src/elf/module_image.cpp). The loops of the searches recurse on what remains of the
-- number of rounds to which the source itself bounds them, so no fuel is added to the code, except
-- for the notes of `Elf.Notes`: their loop is given as many rounds as the segment has bytes, and
-- each round takes at least the 12 bytes of a note's header.
--
-- Runtime images (src/runtime/runtime_image_set.cpp). `Images.Module` is a mapped module and its
-- snapshot with the comparisons of their identities (also src/core/internal.h,
-- src/elf/module_image.cpp, src/runtime/flutter_snapshot.cpp), `Images.Image` one image,
-- `Images.Resolve` the translation of a module's addresses, `Images.Set` the set of images with
-- its counters, its construction, lookups and the refresh that hands owners over,
-- `Images.Receipts` what the set records about its images, and `Images.Compare` the comparisons of
-- two sets. An operation that returns a flag returns it beside the new set.
--
-- Candidates (src/vm/abi/candidate_set.cpp). `Candidates` is the choice of one runtime profile for
-- each domain of the VM's ABI; profiles are compared by address, as in the source.
--
-- AArch64 (src/interceptor/arm64_bridge.cpp). `Arm64.Decode` is the decoding and encoding of
-- branches, `Arm64.Flow` the walk that finds the return instructions of a function, with
-- `Arm64.Flow.Sites` for the patches it returns. The walk is given twice as many rounds as the
-- function has instructions, and one more: each instruction is expanded once and pushes at most two.
-- `Arm64.Patches` is the interception of returns, its installation and its restoration; the answers
-- of the memory writes are arguments.
--
-- Hook registry (src/core/hook_registry.cpp, src/core/internal.h, src/interceptor/runtime_hook.cpp).
-- `Hooks.Listeners` is a listener's record and the order of listeners, `Hooks.Record` a hook,
-- `Hooks.Unhook` its removal, over `Gate.Hook` and `Arm64.Patches`, `Hooks.Invoke` invocations
-- and listeners that come and go, and `Hooks.Registry` the invalidation and retirement of a runtime
-- or an image. Records are shared by index in one list. `Hooks.Interleaving` is
-- any number of calls through the gate while one thread unhooks. 64-bit counts of invocations,
-- listeners and registrations are taken not to reach their end.
--
-- Numbers are the natural numbers, and each place where the source can wrap has its test or its
-- remainder written out. Null object pointers are not modelled, an address is a number with 0 for
-- null, and an optional pointer is an option. Error texts are left out. The constants of the ELF
-- format are written as numbers. Process memory is a function from addresses to bytes, and in
-- `Arm64.Patches` from addresses to instruction words.
--
-- Not modelled: the program's other components, among them the installation of hooks,
-- the dispatch of callbacks, snapshot parsing and the live VM; reading the ELF file header; and
-- of the AArch64 bridge the exception handler and the allocation of veneers.
pub mod Prelude
pub mod Status
pub mod Abi
pub mod Arm64
pub mod Candidates
pub mod Elf
pub mod Gate
pub mod Hooks
pub mod Images
