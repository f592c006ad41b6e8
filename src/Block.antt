-- ===== src/Block.antt =====
-- blocklib/torchdsp/triton_block/triton_block_triton.cc: the block that runs a model.
pub mod Work
pub mod Batches
pub mod Waiting
pub mod Serving
pub mod Built
pub mod Lifetime
pub mod Regions
pub mod Multiple
pub mod Whole
pub mod Chain
