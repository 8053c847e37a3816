-- ===== src/Tests.antt =====
-- The theorems at concrete inputs, and runs of the definitions.
mod Setting
mod Hooks
mod Policy
mod Lookup
mod Macho
mod Alloc
mod Selftest
mod Buffers
mod Dispatch
mod Interleavings
mod Lifetime
mod Endian
mod Threads
mod Teardown
