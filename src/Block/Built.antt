-- ===== src/Block/Built.antt =====
-- A Triton block from its model's metadata to its first call: the constructors of
-- blocklib/torchdsp/lib/triton_model_impl.cc and of
-- blocklib/torchdsp/triton_block/triton_block_triton.cc, one after the other.
use gr4_torchdsp.Prelude.{◌≢◌, []}
use gr4_torchdsp.Model.Metadata.{IoMetadata}
use gr4_torchdsp.Model.Configure.{Model}
use gr4_torchdsp.Model.Interface.{triton_model_impl}

-- A shape with a first dimension, which the batch size replaces.
abbrev pub IsBatched : IoMetadata → Type 0
IsBatched m = m.shape ≢ []
