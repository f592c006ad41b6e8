-- ===== src/Buffer.antt =====
-- buffer_triton of blocklib/torchdsp/lib/buffer_triton.cc and its header.
pub mod Calls
pub mod Health
pub mod Lifetime
pub mod Ledger
pub mod Balance
pub mod Released
pub mod Bag
pub mod Pool
pub mod Owned
pub mod Faults
