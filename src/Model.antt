-- ===== src/Model.antt =====
-- blocklib/torchdsp/lib/triton_model_impl.cc: the model that a Triton server runs.
pub mod Health
pub mod Metadata
pub mod Json
pub mod Configure
pub mod Infer
pub mod Interface
pub mod Sizes
pub mod Aligned
pub mod Requests
pub mod Moves
pub mod Configured
pub mod Refused
