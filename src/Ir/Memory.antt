-- ===== src/Ir/Memory.antt =====
-- ir/src/interpreter/memory.rs: allocations with synthetic addresses, capabilities, byte
-- initialization and pointer fragments. An operation takes the memory and returns its result with
-- the new memory, also after a fault: what was written or charged before stays.
-- `Host` stands for what the standard library leaves open: which reservations succeed and the
-- capacity of a hash map. Sizes are `u64` and `usize` values of a 64-bit host.
pub mod State
pub mod Monad
pub mod Access
pub mod Allocate
pub mod Bytes
pub mod Encoding
pub mod Typed
pub mod Safe
pub mod Keeps
pub mod Atomic
