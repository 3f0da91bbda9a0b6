-- ===== src/Lib.antt =====
-- Court Kernel: courts that hold capabilities, name objects through a namespace, and exchange
-- payloads through corridors.
--
-- The parts, and the files that model them:
-- - crates/court-hosted/src/lib.rs, the object model in one process: Hosted. Hosted/Rights and
--   Hosted/Types are its data. Hosted/Caps is `CapRegistry`: `mint_root`, `delegate`, `revoke` and
--   `authorize`; its children hold the invariant of the derivation tree (Forest), the walk of
--   `revoke` (Walk, Fuel, Revoke) and what an operation may do to the registry (Evolve).
--   Hosted/Root is `HostedRoot`, one action per method (`open` is `open_cap`); its children say what
--   each method may do (Outcome), the invariant (Inv), sequences of calls (Run), and the properties.
-- - crates/court-hosted-linux/src/protocol.rs: Linux/Protocol, the data that processes exchange.
-- - crates/court-hosted-linux/src/shm_ring.rs: Linux/ShmRing, the ring of slots that two processes
--   map. `send` and `recv` read the endpoint of Linux/Protocol.
-- - crates/court-hosted-linux/src/manifest.rs: Linux/Manifest, `validate`, with the rights of Hosted.
-- - crates/court-hosted-linux/src/root.rs: Linux/Root, the root process over the core, one action per
--   handler and one for each body of a loop. Setup is `build_state` and `accept_peers`, Opening the
--   lookup, the grants and the opens, Demo the phases and `run_manifest_demo`. Calls, Effects and
--   Phases count the calls of the core, Steady follows `caps_by_key`, Sound and Revoked put them
--   together, Disclosed and Told are about what the courts are told. Prelude/Chain is `?` and sequencing for
--   them, Linux/RingFile is `ring_file_name`.
-- - crates/court-hosted-linux/src/app.rs and net.rs: Linux/Clients, with App and Net. Quiet is the
--   steps that leave the rings to others, Once and Packet what the app does to its ring, Poll the
--   polls of the net. The messages, the clock and what other processes do meanwhile are inputs.
-- - crates/root-court/src/mm.rs: RootCourt/Mm, the page allocator.
-- - crates/root-court/src/paging.rs: RootCourt/Paging, the mapper; Build is `build`, Space the
--   `AddressSpace` of a court. Walk is the processor's walk through the tables, what they are for.
--   Tree and Table keep the levels of the tables apart, Page, Mapping and Range follow `map_4k`,
--   `map_2m` and `map_range`, Boot and Built `build`, and Exact, Copy, Clone and Register
--   `clone_kernel`.
-- - crates/root-court/src/image.rs: RootCourt/Loader, `load`, over the tables and the memory of
--   RootCourt/Paging. Bytes is the bytes of words, Frames the pages that no table is in, Reads the
--   checks; Placed, Contents and Loaded follow one segment, Image the loop, and Sound is what a court
--   finds.
-- - crates/root-court/src/courtlet.rs: RootCourt/Courtlets, `spawn`, with the loader and the mapper.
--   Block is the pages of a court's own, Spawned the space that it gets. Demo is `run_demo`, with the
--   processor as a parameter; Made and Sealed follow its capabilities, for courts
--   that do not write the kernel's objects: they run in the kernel's ring and are trusted.
-- - crates/root-court/src/gdt.rs, idt.rs and stack.rs: RootCourt/Processor; Decode is what a
--   processor reads out of the tables, Stacks the kernel stacks.
-- - crates/root-court/src/object.rs: RootCourt/Objects, the object model for bring-up.
-- - crates/court-abi/src/lib.rs and crates/court-images/src/bin: Images, the app and the net image.
-- Prelude holds what they share: tables for hash maps, results with state, bytes, bits.
--
-- State and errors: a method on `&mut self` that returns a result is an action, which gives back the
-- result and the state, on an error as well. A method cannot be interrupted; calls of several courts
-- are a list of calls.
--
-- Bounds and fuel: every counter is written modulo 2^64, and theorems that need fresh numbers assume
-- that many calls are left before it wraps. The loop of `CapRegistry::revoke` runs on fuel, computed
-- from the derivation tree; a child is younger than its parent, so the fuel is enough. The loop of
-- `map_range` runs on as many rounds as its range has small pages. Theorems on paging ask for an
-- allocator whose region ends below 2^52, the width of a physical address in an entry, and for a
-- direct map that is on a word. The loop of `load` runs once for each program header, eight at most.
-- Memory is words by address; a byte of memory is a byte of its word.
-- A walk through a court's tables starts at their root, with four levels; RootCourt/Paging/Register
-- is about the walk from CR3, with four and with five.
--
-- A peer of the root process is the list of the messages that it will send, any messages, and a child
-- is the code with which it exits.
--
-- Not modelled: the texts of errors, JSON, files and sockets, starting the processes and writes to a
-- peer or to the trace that fail (crates/court-hosted-linux/src/root.rs, control.rs), atomic orderings
-- within a call on the ring, and of crates/root-court what touches the processor: what runs
-- in a court that is entered, loading the tables, interrupt dispatch, ports and start-up.
mod Prelude
pub mod Hosted
pub mod Linux
pub mod RootCourt
pub mod Images
