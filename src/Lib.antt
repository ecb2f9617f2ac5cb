-- ===== src/Lib.antt =====
-- A verification library for a type-II hypervisor that runs a MIPS64 (Cavium Octeon) guest.
--
-- The program. A guest access goes through the MMU (MMU_IPE.cpp), which checks the address against
-- the operating mode, translates the unmapped segments itself and asks the TLB (TLB_IPE.cpp) for
-- the rest; a failure enters an exception (ExceptionHandler_IPE.cpp), which writes coprocessor 0
-- (CP0_IPE.h, CP0_IPE.cpp) and gives the address of the handler. Translations that succeed are kept
-- in the address cache (AddrTranslationCache.h). Devices raise lines of the central interrupt unit
-- (CIU.cpp), which sets the pending bits in every core's coprocessor 0; the serial port (UART.cpp)
-- is such a device. Guest physical addresses become host addresses by the memory map
-- (GPAtoHVATranslator_IPE.cpp). Guest code is fetched block by block (InstBlock.cpp, with IInfo.cpp
-- for the fields of a word); BlockTranslation_IPE.cpp sends each instruction through the tables of
-- InsDecoding.cpp to a routine of Translation_IPE.cpp, which emits host words into a container
-- (TranslationBlock.cpp) of a cache (TranslatedBlockCache_IPE.cpp). HashTable.cpp is a chained
-- hash table. Processor_IPE.cpp holds these parts of a core together and serves the requests of the
-- emitted code; a load or a store of a device goes through IOManager.cpp, which leaves a message for
-- the device, as the block device (VirtioBlk.cpp) or the network device (Virtionet.cpp); these tell
-- the kernel's back end, by Vhost.cpp, which memory the requests of the guest use. timer.cpp arms
-- the host timer for a core. CLParser.cpp reads the command line,
-- and SystemBoard_IPE.cpp puts the board together.
--
-- The files, and the source that each models:
--   Common (Results, Lists, Tests, ...), Word: names, outcomes, Boolean tests and machine words;
--     Word/Bits, Word/Masks, Word/Flags and Word/Fields are the lemmas that read masks bit by bit.
--   Cp0 (Registers, Init, Access, Modes): CP0_IPE.h and CP0_IPE.cpp, `read`, `write`,
--     `ReservedBits`, `get_KSU`, `isInterruptPending`, `inc_and_get_count`, `initCP0`.
--   Context: Context_IPE.h. Its pointers `prot` and `loadstore` are one cell, as in the source.
--   Exception (Entry): ExceptionHandler_IPE.cpp, `Perform_Exception` and `TLB_Excep`.
--   Gpr: GPR_IPE.h and GPR_IPE.cpp.
--   Tlb (Entries, Search, Translate, Refill, Probe, Writes, Random): TLB_IPE.h and TLB_IPE.cpp.
--   Mmu (Privileges, Segments): MMU_IPE.h and MMU_IPE.cpp.
--   AddrCache (Laws): AddrTranslationCache.h and AddrTranslationCache.cpp.
--   Ciu (Registers, Lines, Broadcast, Mailbox, Enables, Dispatch): CIU.h and CIU.cpp.
--   Uart (Interrupts, Keys): UART.h and UART.cpp.
--   MemoryMap (Sections, Keys, Ram, Unmapped, Threads): GPAtoHVATranslator_IPE.cpp and GPAMap_IPE.h,
--     from guest physical to host virtual addresses; Threads has the map as the threads share it, a
--     look-up, an allocation and an insertion each a step of its own.
--   Block (Container, Lookup): TranslationBlock.cpp and TranslatedBlockCache_IPE.cpp.
--   Instr (Fetch): IInfo.h, IInfo.cpp and InstBlock.cpp, the words of a block.
--   Decode (Special, Regimm, Cop0, Special2, Special3, Opcodes: the tables and handlers; Tables,
--     Slots, Bounds: facts about them): InsDecoding.h and InsDecoding.cpp. A handler of the source is
--     the function of the same name, and gives the routine that it calls.
--   Layout, Emit (Control, Cop0, Mtc0, Traps, Arithmetic, Multiplier, Memory, Branches, Jumps: the
--     routines; Encoding, Landing, Mtc0Landing, Offsets, Zero: facts about them): Translation_IPE.h
--     and Translation_IPE.cpp. A routine gives the list of the words that the source pushes.
--   Translate (Slot, Immediates, Landing, Lost, Zero): BlockTranslation_IPE.cpp, and `findInstrCase` with
--     the routines that it reaches.
--   Processor (Blocks, Requests, Access: the operations; Cached, Pages: facts about them):
--     Processor_IPE.h and Processor_IPE.cpp, with `GVAtoHVA` of GVAtoHVATranslation_IPE.cpp: the
--     translation of addresses through the cache, the fetch of a block, loads and stores, and the
--     handlers of the control marks. The TLB, address cache, block cache and memory map
--     are the models above, so a request runs all of them.
--   Dispatch (Memory, Fetches, Handlers, Kept: that guest memory stays in its place): the table of
--     the handlers and `C2Assembly2C` of Processor_IPE.cpp. The turns of a core are a relation: a
--     request is served, or the emitted code runs; no other thread is in the memory map meanwhile.
--   Timers (Waits): timer.h and timer.cpp.
--   Io (Devices): IOManager.h and IOManager.cpp, the device of an address, its message box and
--     whether it has served its last message, for which a core waits.
--   Queue, Virtio (Disk, Net, Features: the two devices and their feature words; Rings, Requests,
--     Interrupts, Features/Negotiated: facts about them): VirtQueue.cpp, VirtioDevice.h,
--     VirtioDevice.cpp, VirtioBlk.cpp, Virtionet.cpp and `TapSetOffload` of TapInterface.cpp: what a
--     write to a register does, down to the table of the back end.
--   Vhost (Walks, Tables: the operations; Entries, Indirect, Chains, Rounds, Bounds: facts about
--     them): Vhost.h and Vhost.cpp, the table of memory regions, made from the descriptors in the
--     queues.
--   CommandLine (Switches): CLParser.cpp and Specifications.cpp.
--   Board (Firmware, Cores): SystemBoard_IPE.cpp, guest memory with the firmware in it, and the
--     numbers of the cores.
--   HashTable (Stacks): HashTable.h and HashTable.cpp.
--   Tests: the theorems at concrete inputs.
--
-- How the code is modelled. A word of w bits is a natural number, and an operation on it that can
-- wrap says so. An array is a function of the index, so a write beyond its end is seen. A method
-- takes the object's state and returns the new one; a pointer that it writes through is a further
-- result. A process that ends in `exit` is `none` or `exited`; undefined behaviour (a value that a
-- function did not return, the notification of a queue behind the array, a division by zero, an
-- overflow of the `int` that counts the regions) is `undefined`; and a loop that only another thread
-- ends is `waiting`. Messages to the console that have no other effect are left out.
--
-- Bounds. The loops over the 64 entries of the TLB, the 12 bits of the NMI mask and the cores are
-- recursion on the number of rounds left, which is the number that the source counts to, so no loop
-- runs out; the allocation of DR2 has the bytes that are left as its fuel, and each chunk takes at
-- least one. The fetch of a block has no bound in the source and runs on fuel; any fuel above the
-- distance of the first control instruction is enough, and the processor passes its fuel on to it.
-- A walk over a chain of descriptors has the 63 that the source counts to, one over an indirect
-- table the number of its descriptors; the requests of a block device have 64 rounds, more than the
-- descriptors that the count leaves them. `rand()`, `getch()`, `mmap`, the clock and the contents
-- of memory are arguments, and so are the byte swap, the register offsets, the feature numbers and
-- the ring layout of the kernel headers (`GuestRings` for a ring in guest memory), `atoi`, and the
-- scaling by a `double`.
--
-- Not modelled: the run of the emitted host code, the log that it asks the processor for, the
-- construction of the objects, and everything that is a call of the operating system (threads,
-- timers, signals, event descriptors, ioctl, memory protection). The interleaving of the threads is
-- modelled only in MemoryMap/Threads, for the memory map; elsewhere an operation of a core or of a
-- device is taken to run with no other thread in between, and the locks, the signals and the data
-- races of the message boxes are left out.
pub mod CommandLine
pub mod Common
pub mod Queue
pub mod Vhost
pub mod Virtio
pub mod Word
pub mod Cp0
pub mod Context
pub mod Exception
pub mod Timers
pub mod Dispatch
pub mod Board
pub mod Gpr
pub mod Tlb
pub mod Mmu
pub mod AddrCache
pub mod Ciu
pub mod Uart
pub mod MemoryMap
pub mod Block
pub mod HashTable
pub mod Translate
pub mod Io
pub mod Processor
pub mod Layout
pub mod Emit
pub mod Decode
pub mod Instr
pub mod Tests
