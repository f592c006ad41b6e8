-- ===== src/Buffer/Lifetime.antt =====
-- The constructor, the destructor, `make` and `add_reader` of buffer_triton, lines 36 to 106 of
-- blocklib/torchdsp/lib/buffer_triton.cc, and the properties and the reader of its header.
use Prim.Native.String
use gr4_torchdsp.Prelude.{
  ℕ, ◌*◌, ◌%◌, Bool, true, false, ◌&&◌, String, List, [], ◌∷◌, ◌++◌, Option, none, some, ltb,
  if◌then◌else◌,
}
use gr4_torchdsp.Prelude.Int.{size_mod}
use gr4_torchdsp.Outcome.{Outcome, ok, fault, uninitialised, ◌>>=◌}
use gr4_torchdsp.Buffer.Health.{is_server_healthy}
use gr4_torchdsp.Model.Metadata.{to_string}
use gr4_torchdsp.Buffer.Calls.{
  Host, Calls, create_client, create_region, map_memory, close_memory, register_memory,
  unmap_memory, unlink_region, unregister_memory,
}

-- `buffer_triton_type`
pub data BufferType : Type 0 where
  d2d h2d d2h unknown : BufferType

-- `(int)_type`
abbrev ordinal : BufferType → ℕ
ordinal d2d = 0
ordinal h2d = 1
ordinal d2h = 2
ordinal unknown = 3

pub record BufferTritonReader : Type 0 where
  pub itemsize : ℕ
  pub read_index : ℕ

-- The members, and those of the base class that are touched here. `none` in `shared_memory` and
-- `buffer_size` is a value that nothing has written, in `bufp` and `type_name` what the base class
-- left there. A mapping that failed has the address `MAP_FAILED`, here `some none`.
pub record BufferTriton : Type 0 where
  pub buffer_type : BufferType
  pub shared_memory : Option (Option ℕ)
  pub buffer_size : Option ℕ
  pub shm_key : String
  pub bufp : Option (Option ℕ)
  pub type_name : Option String
  pub write_index : ℕ
  pub readers : List BufferTritonReader

abbrev pub detached : BufferType → BufferTriton
detached type = record {
  buffer_type = type;
  shared_memory = none;
  buffer_size = none;
  shm_key = "";
  bufp = none;
  type_name = none;
  write_index = 0;
  readers = [];
}

abbrev pub slashed : String → String
slashed key = String.◌++◌ "/" key

abbrev pub new_key : Host → Calls → String
new_key host cs =
    String.◌++◌ (String.◌++◌ (to_string (host.get_id cs)) "gr_") (host.get_unique_string cs)

abbrev pub attached : BufferType → Option ℕ → ℕ → String → BufferTriton
attached type addr size key = record (detached type) {
  shared_memory = some addr;
  buffer_size = some size;
  shm_key = key;
  bufp = some addr;
  type_name = some (String.◌++◌ "buffer_triton_" (to_string (ordinal type)));
}

-- lines 61 to 75: what becomes of the region's error and of the answer to the registration. The
-- registration is not tried after an error.
unfoldable pub hand_over : Bool → Bool → BufferTriton → Calls → Calls → Option BufferTriton × Calls
hand_over false accepted b closed registered = (none, closed)
hand_over true false b closed registered = (none, registered)
hand_over true true b closed registered = (some b, registered)

-- lines 53 to 76. The region's error is looked at after the mapping and the close, and the results
-- of those two are dropped.
unfoldable pub attach : Host → ℕ → ℕ → BufferType → Calls → Option BufferTriton × Calls
unfolding hand_over
attach host num_items item_size type cs =
    let key = new_key host cs in
    let size = (num_items * item_size) % size_mod in
    let region = host.create_region_of cs (slashed key) size in
    let created = create_region (slashed key) size region ∷ cs in
    let addr = host.map_memory_of created region.fd size in
    let closed = close_memory region.fd ∷ map_memory region.fd 0 size addr ∷ created in
    let accepted = host.register_memory_of closed key (slashed key) size in
    let registered = register_memory key (slashed key) size accepted ∷ closed in
    hand_over region.is_ok accepted (attached type addr size key) closed registered

-- lines 44 to 76, given whether the client could be created and what the health check comes to.
-- `none`: `std::runtime_error` is thrown. With a server that is not healthy the constructor returns
-- early, and the members stay as they are.
unfoldable pub connect :
    Bool → Outcome Bool → Host → ℕ → ℕ → BufferType → Calls → Outcome (Option BufferTriton × Calls)
unfolding attach
connect false health host num_items item_size type cs = ok (none, cs)
connect true (ok true) host num_items item_size type cs =
    ok (attach host num_items item_size type cs)
connect true (ok false) host num_items item_size type cs = ok (some (detached type), cs)
connect true (fault f) host num_items item_size type cs = fault f

-- The constructor.
unfoldable pub construct :
    Host → ℕ → ℕ → String → BufferType → Calls → Outcome (Option BufferTriton × Calls)
unfolding connect
construct host num_items item_size url type cs =
    let cs' = create_client url ∷ cs in
    connect (host.create_client_of cs url) (is_server_healthy (host.server_of cs')) host num_items
      item_size type cs'

abbrev pub written : {A : Type 0} → Option A → Outcome A
written none = fault uninitialised
written (some a) = ok a

-- The three calls of the destructor, each with its answer.
abbrev pub released : Host → String → Option ℕ → ℕ → Calls → Calls
released host key addr size cs =
    let unmapped = unmap_memory addr size (host.unmap_memory_of cs addr size) ∷ cs in
    let path = slashed key in
    let unlinked = unlink_region path (host.unlink_region_of unmapped path) ∷ unmapped in
    unregister_memory key (host.unregister_memory_of unlinked key) ∷ unlinked

-- The destructor: the three results are dropped.
unfoldable pub destroy : Host → BufferTriton → Calls → Outcome Calls
destroy host b cs = written b.shared_memory >>= λ addr.
    written b.buffer_size >>= λ size. ok (released host b.shm_key addr size cs)

pub record BufferTritonProperties : Type 0 where
  pub triton_url : String
  pub buffer_type : BufferType

-- The default arguments of buffer_triton_properties::make.
abbrev pub default_properties : BufferTritonProperties
default_properties = record { triton_url = "localhost:8000"; buffer_type = d2d }

-- `make`: a null pointer to the properties makes it throw.
unfoldable pub make :
    Host → ℕ → ℕ → Option BufferTritonProperties → Calls → Outcome (Option BufferTriton × Calls)
unfolding construct
make host num_items item_size none cs = ok (none, cs)
make host num_items item_size (some p) cs =
    construct host num_items item_size p.triton_url p.buffer_type cs

-- A reader starts where the buffer is written next.
unfoldable pub add_reader : ℕ → BufferTriton → BufferTritonReader × BufferTriton
add_reader itemsize b =
    let r : BufferTritonReader = record { itemsize = itemsize; read_index = b.write_index } in
    (r, record b { readers = b.readers ++ r ∷ [] })

-- buffer_triton_reader::input_blocked_callback: whether `adjust_buffer_data` is called, and the
-- result, given what it would return and the items available.
unfoldable pub input_blocked_callback :
    BufferTritonReader → BufferTriton → ℕ → ℕ → Bool → Bool × Bool
input_blocked_callback r b items_avail items_required adjusted =
    if ltb items_avail items_required && ltb b.write_index r.read_index
    then (true, adjusted)
    else (false, false)
