-- ===== src/Lib.antt =====
-- krata: the Xen control plane of the repository, verified in parts.
--
-- The crates under crates/xen talk to a Xen host: `xenstore` is the client of the store that guests and
-- backends share, `xenclient` describes domains and devices in transactions of that store,
-- `xenplatform` lays out and fills a guest's memory and starts it, `xencall` makes the hypercalls,
-- `xenevtchn` waits for event channels, `xengnt` shares pages between domains. Which file models which part:
--
--   Xenstore/Sys       crates/xen/xenstore/src/sys.rs and error.rs: the message header on the wire.
--   Xenstore/Message   crates/xen/xenstore/src/bus.rs: payload strings, `read_message`, `process_rx`.
--   Xenstore/Bus       crates/xen/xenstore/src/bus.rs: `XsdSocket` and `XsdSocketProcessor`. The state
--                      that they share is one record, a call of a client or one arm of the
--                      processor's `select!` is one step, and a history is a list of steps.
--   Xenstore/Client    crates/xen/xenstore/src/lib.rs: `XsdClient` and `XsdTransaction`, over any
--                      `send_buf`. Client/Store has the laws of a store as a record.
--   Xenclient/DevAlloc crates/xen/xenclient/src/devalloc.rs: `DeviceIdAllocator`, over a bit vector
--                      with the documented behaviour of the bit-vec crate.
--   Xenclient/Tx       crates/xen/xenclient/src/tx/mod.rs: `XenTransaction` and `DeviceDescription`, over
--                      the client of the store and two id allocators; Tx/Devices has what is written
--                      for a domain and for a device, Tx/Configs the devices of
--                      tx/vbd.rs, vif.rs, channel.rs and fs9p.rs, and Tx/PciRoot those of tx/pci.rs.
--   Xenplatform/Mem    crates/xen/xenplatform/src/mem.rs: `PhysicalPages`.
--   Xenplatform/Boot   crates/xen/xenplatform/src/boot.rs: `BootDomain`'s allocation of frames and
--                      addresses; Boot/Setup has the steps of `initialize` and `boot`.
--   Xenplatform/X86pv  crates/xen/xenplatform/src/x86pv.rs: `X86PvPlatform`. Tables counts page tables and
--                      finds the entries to write, Memory asks the hypervisor for the guest's frames,
--                      Platform/Alloc takes the segments, Platform/Setup fills them in, and
--                      Platform/Build is the instance of `BootSetupPlatform` that Boot/Setup takes.
--                      X86pv/Memory/Complete has it over XenCall's own requests for frames.
--   Xenplatform/Domain crates/xen/xenplatform/src/domain.rs: `PlatformDomainManager`, over the hypercalls of
--                      Xencall and the platform of X86pv. FromXencall turns the errors of one crate
--                      into those of the other.
--   Xenplatform/Elf    crates/xen/xenplatform/src/elfloader.rs: Load has `parse_sync` and `load`,
--                      Image the search for the image in a file that may be compressed.
--   Xencall            crates/xen/xencall/src/lib.rs and sys.rs: Versions has the search of `open`, Batch
--                      `mmap_batch`; Hypercall has the calls by their number of arguments, with the
--                      structures that the hypervisor reads and writes, and Domctl, MemoryOp and Sysctl
--                      the operations on domains, on their memory and on the host. Commands is the
--                      sequences of operations on one domain.
--   Xenevtchn          crates/xen/xenevtchn/src/lib.rs: `EventChannelService` and its processor.
--   Xenclient/DiskName crates/xen/xenclient/src/util.rs: the names of disks.
--   Xenclient/Pci      crates/xen/xenclient/src/pci.rs: `PciBdf::encode`; Pci/Text prints and parses
--                      addresses, Pci/Backend is `XenPciBackend` over the files of the host.
--   Xengnt             crates/xen/xengnt/src/sys.rs: the words of `MapGrantRef` and `AllocGref`.
--   Prelude            shared: results with panics, state passing, what a sequence of steps keeps, lists,
--                      bytes of strings and hexadecimal digits, bits.
--
-- Numbers are natural numbers; u32 and u64 arithmetic that can wrap is written with its remainder.
-- Strings are lists of bytes. A call that changes state gives its outcome (a value, an error or a
-- panic) and the state that it leaves, on every branch.
--
-- Fuel: `allocate` has 4096 rounds, one for each id, and `allocate_total` says
-- that they suffice; `process_rx` takes a round for each message, and a stream of n messages needs
-- n + 1; the loops of `fill_p2m` take as many rounds as there are pages, each of which takes one at least;
-- `find_tables` has 2 ^ 42 + 1 rounds, and `find_tables-Ends` says that they suffice.
-- `mmap_batch` gives nothing when its fuel does not suffice: its inner loop, over an index that wraps
-- around at 2 ^ 64, may need that many rounds, so it has no fuel that is enough for every answer of the
-- kernel that can be run; `mmap_batch_negative` says how much is enough where it holds.
--
-- Parameters: byteorder's little-endian words, the bit-vec and regex crates, the hypercall (a function of
-- the structure, the number and the arguments of the request, which leaves what it likes in the
-- structure), libc's calls (mmap, munmap, filling memory), the event channel device, the host's files,
-- the elf crate and the decoders, the platform behind `BootSetupPlatform`, the image loader, and the
-- connection under the client's operations. The tests instantiate those of the theorems.
--
-- Not modelled: the layout in memory of the structures of a hypercall, the text of the console,
-- the creation of devices in crates/xen/xenclient/src/lib.rs, the device of
-- crates/xen/xengnt/src/lib.rs, loop devices, and the ioctl calls. Two calls of `send_buf` that draw their ids in one order and register
-- in the other, and the scheduling inside a step, are not modelled either.
pub mod Prelude
pub mod Xenstore
pub mod Xenplatform
pub mod Xenclient
pub mod Xencall
pub mod Xenevtchn
pub mod Xengnt
