-- ===== src/Lib.antt =====
-- SEDarwin is a security policy for macOS: a kernel extension that registers with the kernel's MAC
-- framework and fills a vector of hooks, which the kernel calls on file, process, socket, terminal
-- and exec events. The hooks observe and grant. A sysctl tree switches tracing, chooses the hooks, and
-- guards a quarantined one. This library models the extension's C code and proves what makes it
-- correct.
--
-- Parts, and the files that model them (paths from the repository's root):
-- - Prelude: shared names, Boolean tests on the native numbers, lists, binary digits.
-- - Bytes: `memcpy`, `strlcpy` and stores into a buffer; a store or load outside of one is a fault,
--   the value `none`. A string is the bytes before the first NUL.
-- - Kernel: the functions of the kernel that hooks call. What they return is a field of the record
--   `Kernel`, a parameter of every hook. A hook is a writer of the calls that it makes; `Line` has one
--   constructor for each format string, with the values that are printed.
-- - Trace: the inline helpers of kext/kernel.h (`sebsd_tracing`, `sebsd_log_debug`, `sebsd_cur_name`,
--   `sebsd_cnp_name`).
-- - Vnode, File, Proc, Tty, Net, Spawn: the hooks of kext/vnode.c, file.c, proc.c, tty.c, net.c and
--   spawn.c, each under the name of its C function without the prefix `sebsd_`. An argument that the
--   hook casts to void is left out. Spawn has the writer of `sebsd_csflag_bits` as a cursor over the
--   buffer; Net has the texts that `snprintf` is asked for, an address being its bytes, and Net/Peer
--   a reader of such a text.
-- - Hooks: one dispatch `handle` over these hooks, what is said of the calls (Hooks/Calls), the
--   lines that the events owe (Hooks/Owed), and what holds of all hooks (Hooks/Gate, Hooks/Grants, with
--   tracing on throughout in Hooks/Loud, and turned off on the way in Hooks/Hushed).
-- - Mask: the masks of include/sedarwin/sebsd.h. Abi: the layout of `struct mac_policy_ops` in
--   include/sedarwin/sebsd_mac.h, its 335 members in order, and the C types of the members and of the
--   functions that kext/kernel.h declares (Abi/Types). Ops: the stores of `sebsd_install_hooks`
--   and `sebsd_install_lifecycle` of kext/main.c into the 24 members that have a type of their own.
-- - Policy: the variables of kext/main.c and kext/vnode.c in one record `Kext`, the handler
--   `sebsd_sysctl_hooks_handler`, the fuse `sebsd_hooks_blow_lookup_fuse`, the oids (Policy/Oids), and
--   the entry points `sebsd_mac_policy_register` and `sebsd_mac_policy_unregister`. What the
--   framework's functions return is the record `Framework`. Policy/Cases has the ways through the entry
--   points, Policy/Agreement the runs of whole calls, Policy/Quarantine the runs of single accesses,
--   Policy/Lifetime those with unloads, and Policy/Spec the abstract policy.
-- - Lookup: `sebsd_vnode_check_lookup` of kext/vnode.c, as one step (Lookup, Lookup/Fuse) and as one
--   access to a shared variable at a time (Lookup/Steps), with the interleavings as a step relation on
--   the variables and a list of calls on the way (Lookup/Frames for tests and sums over that list). Any
--   thread may call the hook there at any time; Lookup/Crowd has the runs in which it does so by way
--   of the vector, and Lookup/Overshoot those in which many threads come at once.
-- - Threads: the handler of `sedarwin.hooks` and `sebsd_mac_policy_unregister` of kext/main.c as one
--   access to a shared variable at a time, beside the accesses of Lookup/Steps, with any number of calls
--   on the way. Ops/Stores has the statements of `sebsd_install_hooks` for this, one store each,
--   Threads/Writes which access stores to which member, Threads/Single which call is in the middle of a
--   change, Threads/Change what then holds of the mask and the vector, and Threads/Cleared what an unload
--   has cleared. Threads/Schedules has the stretches of which the schedules of Threads/Writers and
--   Threads/Rearmed consist.
-- - Macho: the parser of kext/MachO.c over the bytes of a buffer of which `len` may be read. The
--   constants and the layout of <mach-o/loader.h> and <mach-o/fat.h> are the record `Loader`.
-- - Macho/Selftest and Macho/Image: `sebsd_macho_selftest`, with the layout of the structures that it fills
--   as the record `Encoder`. Lifecycle: the descriptor `sebsd_policy_conf` and the lifecycle hooks.
-- - Dispatch: all hooks behind the members of the ops vector. The framework that reads a member and
--   calls what stands there is the record `Dispatcher`.
-- - Alloc: the `malloc` macro of lib/libkern-bsd/include/sys/malloc.h and the functions `malloc` and
--   `free` of malloc.c, over a memory of objects; `_MALLOC` and `_FREE` are the record `Allocator`.
-- - Endian: the conversions of lib/libkern-bsd/include/sys/endian.h; the functions of libkern that they
--   name are the record `ByteOrder`.
-- - Tests: the theorems at concrete inputs.
--
-- An `int` or `unsigned int` is its 32-bit pattern, and counters wrap around at 2 ^ 32. The loops are
-- structural recursions: over the number of load commands or slices that is left, and over the table
-- of flags. `decimal` of Net has fuel for five digits, which is enough below 2 ^ 16, and a port or
-- a byte is.
-- Threads/Alone runs the accesses of one request or unload on fuel, 25 of which are enough.
--
-- Assumed of code outside the repository: a local array has the size that it is declared with; the
-- pointers that a hook follows are readable (`IsReadable`, `IsAddress`); the fields of the Mach-O
-- structures stand inside them (`Layout`). A machine is little-endian. `sebsd_trace_enabled`
-- can change while a hook runs, between its gate and its line (`Flag`), but not
-- while a dispatch of Dispatch does. Outside of Lookup/Steps, Threads, Policy/Race and the runs of
-- Policy/Quarantine a call runs to its end before the next one starts. The accesses of all processors have
-- one order, and a store to an `int` or a pointer is not torn. The oids are CTLFLAG_LOCKED, by which the
-- kernel takes no lock around a request.
--
-- Not modelled: sbuf.c, a copy of the sbuf library of XNU
-- and FreeBSD that the extension does not call; the make files, scripts and property lists.
pub mod Abi
pub mod Alloc
pub mod Bytes
pub mod Dispatch
pub mod Endian
pub mod File
pub mod Hooks
pub mod Kernel
pub mod Lifecycle
pub mod Lookup
pub mod Macho
pub mod Mask
pub mod Net
pub mod Ops
pub mod Policy
pub mod Prelude
pub mod Proc
pub mod Spawn
pub mod Tests
pub mod Threads
pub mod Trace
pub mod Tty
pub mod Vnode
