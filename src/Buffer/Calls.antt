-- ===== src/Buffer/Calls.antt =====
-- The calls that buffer_triton (blocklib/torchdsp/lib/buffer_triton.cc) makes of the operating
-- system, through the functions of shm_utils, and of the inference server. What they answer is not
-- in this repository: the fields of `Host`, each a function of the calls made so far.
use gr4_torchdsp.Prelude.{ℕ, Bool, String, List, Option}
use gr4_torchdsp.Prelude.Int.{ℤ}
use gr4_torchdsp.Model.Health.{Server}

-- `CreateSharedMemoryRegion`: whether it succeeds, and the descriptor that it writes, -1 if there is
-- none. It can fail with a descriptor, when the region cannot be given its size.
pub record RegionReply : Type 0 where
  pub is_ok : Bool
  pub fd : ℤ

-- A call with its arguments, and with the answer if it can leave something behind.
pub data Call : Type 0 where
  create_client : String → Call
  create_region : String → ℕ → RegionReply → Call
  -- the descriptor, the offset, the size; the address, or none for `MAP_FAILED`
  map_memory : ℤ → ℕ → ℕ → Option ℕ → Call
  close_memory : ℤ → Call
  -- the name at the server, the key of the region, the size
  register_memory : String → String → ℕ → Bool → Call
  -- and whether what was asked is done
  unmap_memory : Option ℕ → ℕ → Bool → Call
  unlink_region : String → Bool → Call
  unregister_memory : String → Bool → Call

-- Newest first.
abbrev pub Calls : Type 0
Calls = List Call

pub record Host : Type 0 where
  pub create_client_of : Calls → String → Bool
  pub server_of : Calls → Server
  pub get_id : Calls → ℕ
  pub get_unique_string : Calls → String
  pub create_region_of : Calls → String → ℕ → RegionReply
  pub map_memory_of : Calls → ℤ → ℕ → Option ℕ
  pub register_memory_of : Calls → String → String → ℕ → Bool
  pub unmap_memory_of : Calls → Option ℕ → ℕ → Bool
  pub unlink_region_of : Calls → String → Bool
  pub unregister_memory_of : Calls → String → Bool
