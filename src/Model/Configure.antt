-- ===== src/Model/Configure.antt =====
-- triton_model_impl: its members, its constructor, move constructor and move assignment, and
-- `make`, lines 20 to 144 of blocklib/torchdsp/lib/triton_model_impl.cc, with create_triton_input,
-- create_triton_output, and the sizes of the header.
use Prim.Native.String
use gr4_torchdsp.Prelude.{
  ℕ, ◌+◌, Bool, String, List, [], ◌∷◌, ◌++◌, map, Option, none, some, ◌==◌, if◌then◌else◌, length,
}
use gr4_torchdsp.Prelude.Int.{ℤ, to_int, is_zero}
use gr4_torchdsp.Outcome.{Outcome, ok, deref, ◌>>=◌}
use gr4_torchdsp.Model.Health.{is_server_healthy}
use gr4_torchdsp.Model.Metadata.{IoMetadata, IoMemory, allocate_shm, to_string}
use gr4_torchdsp.Model.Json.{Rapidjson, Client, array_at, parse_io, get_model_metadata}

-- What `SetSharedMemory` was given: the region's key, the bytes and the offset.
pub record Region : Type 0 where
  pub key : String
  pub byte_size : ℕ
  pub offset : ℕ

-- The arguments that a client's `InferInput` was created with or given since.
pub record InferInput : Type 0 where
  pub name : String
  pub shape : List ℕ
  pub datatype : String
  pub shm : Option Region

pub record InferRequestedOutput : Type 0 where
  pub name : String
  pub shm : Option Region

-- `tc::InferOptions`; `none` is the version that the client starts with.
pub record InferOptions : Type 0 where
  pub model_name : String
  pub model_version : Option String

-- `async` is not set by the move constructor: `none` is a value that nothing has written. `client` is
-- null if it could not be created or was moved away. The entries of `input_ptrs` and `output_ptrs`
-- are shared pointers, which a moved-from model still holds. It has no client, so that no request of
-- its comes back, and each model is given the objects by value. `results_` stays null and is left
-- out.
pub record Model : Type 0 where
  pub client : Option Client
  pub model_name : String
  pub input_ptrs : List InferInput
  pub output_ptrs : List InferRequestedOutput
  pub inputs : List IoMemory
  pub outputs : List IoMemory
  pub registered_input_names : List String
  pub registered_output_names : List String
  pub async : Option Bool
  pub options : InferOptions

-- The `static` locals.
pub record Counters : Type 0 where
  pub segment_number : ℕ
  pub input_number : ℕ
  pub output_number : ℕ

unfoldable pub create_triton_input : IoMetadata → Model → Counters → Model × Counters
create_triton_input m o c =
    let input : InferInput = record {
      name = m.name;
      shape = m.shape;
      datatype = m.datatype;
      shm = none;
    } in
    let registered = String.◌++◌ (String.◌++◌ (to_string c.input_number) "input_") m.name in
    (
      record o {
        input_ptrs = o.input_ptrs ++ input ∷ [];
        registered_input_names = o.registered_input_names ++ registered ∷ [];
      },
      record c { input_number = c.input_number + 1 },
    )

unfoldable pub create_triton_output : IoMetadata → Model → Counters → Model × Counters
create_triton_output m o c =
    let output : InferRequestedOutput = record { name = m.name; shm = none } in
    let registered = String.◌++◌ (String.◌++◌ (to_string c.output_number) "output_") m.name in
    (
      record o {
        output_ptrs = o.output_ptrs ++ output ∷ [];
        registered_output_names = o.registered_output_names ++ registered ∷ [];
      },
      record c { output_number = c.output_number + 1 },
    )

module _ (json : Rapidjson) where
  open json use {Value}

  -- lines 104 to 113: the loop ends at the first input with no bytes
  unfoldable pub configure_inputs : List Value → Model → Counters → Outcome (Model × Counters)
  unfolding create_triton_input
  configure_inputs [] o c = ok (o, c)
  configure_inputs (j ∷ js) o c = parse_io json j >>= λ m.
      let (mem, n) = allocate_shm m c.segment_number in
      let c' = record c { segment_number = n } in
      let (o'', c'') = create_triton_input m (record o { inputs = o.inputs ++ mem ∷ [] }) c' in
      let rest = configure_inputs js o'' c'' in
      if mem.element_byte_size == 0 then ok (o, c') else rest

  -- lines 118 to 127
  unfoldable pub configure_outputs : List Value → Model → Counters → Outcome (Model × Counters)
  unfolding create_triton_output
  configure_outputs [] o c = ok (o, c)
  configure_outputs (j ∷ js) o c = parse_io json j >>= λ m.
      let (mem, n) = allocate_shm m c.segment_number in
      let c' = record c { segment_number = n } in
      let (o'', c'') = create_triton_output m (record o { outputs = o.outputs ++ mem ∷ [] }) c' in
      let rest = configure_outputs js o'' c'' in
      if mem.element_byte_size == 0 then ok (o, c') else rest

abbrev pub blank : Option Client → String → Option Bool → Model
blank client name async = record {
  client = client;
  model_name = name;
  input_ptrs = [];
  output_ptrs = [];
  inputs = [];
  outputs = [];
  registered_input_names = [];
  registered_output_names = [];
  async = async;
  options = record { model_name = name; model_version = none };
}

unfoldable pub get_num_inputs : Model → ℤ
get_num_inputs o = to_int (length o.inputs)

unfoldable pub get_num_outputs : Model → ℤ
get_num_outputs o = to_int (length o.outputs)

module _ (json : Rapidjson) where
  open json use {Value}

  -- lines 100 to 143
  unfoldable pub configure : String → Model → Counters → Outcome (Model × Counters)
  unfolding configure_inputs configure_outputs get_model_metadata
  configure name o c = get_model_metadata json o.client name >>= λ document.
      array_at json "inputs" document >>= λ ins. configure_inputs json ins o c >>= λ (o', c').
      array_at json "outputs" document >>= λ outs.
      configure_outputs json outs o' c' >>= λ (o'', c'').
      ok (record o'' { options = record o''.options { model_version = some "" } }, c'')

  -- The constructor, lines 86 to 144. `connect` is what `Create` leaves in the client's pointer; its
  -- error is dropped.
  unfoldable pub construct :
      (String → Option Client) → String → Bool → String → Counters → Outcome (Model × Counters)
  unfolding configure
  construct connect name async triton_url c =
      let o = blank (connect triton_url) name (some async) in
      deref o.client >>= λ client. is_server_healthy client.server >>= λ healthy.
      if healthy then configure name o c else ok (o, c)

  -- `make`: null if the model has no inputs
  unfoldable pub make :
      (String → Option Client)
      → String
      → Bool
      → String
      → Counters
      → Outcome (Option Model × Counters)
  unfolding get_num_inputs
  make connect name async triton_url c = construct connect name async triton_url c >>= λ (o, c').
      ok (if is_zero (get_num_inputs o) then none else some o, c')

-- What a move leaves behind: the pointers in the vectors are constant there, and so they are copied.
abbrev pub moved_from : Model → Model
moved_from other = record other { client = none }

-- The move constructor: the new model and the old one.
unfoldable pub move_construct : Model → Model × Model
move_construct other = (
  record (blank other.client other.model_name none) {
    input_ptrs = other.input_ptrs;
    output_ptrs = other.output_ptrs;
    inputs = other.inputs;
    outputs = other.outputs;
  },
  moved_from other,
)

-- `operator=(triton_model_impl&&)`: the pointers are pushed behind those that are there.
unfoldable pub move_assign : Model → Model → Model × Model
move_assign self other = (
  record self {
    client = other.client;
    options = record self.options { model_name = other.model_name };
    input_ptrs = self.input_ptrs ++ other.input_ptrs;
    output_ptrs = self.output_ptrs ++ other.output_ptrs;
    model_name = other.model_name;
    inputs = other.inputs;
    outputs = other.outputs;
  },
  moved_from other,
)

-- `vector<int>` of the `size_t` members.
unfoldable pub get_output_sizes : Model → List ℤ
get_output_sizes o = map (λ m. to_int m.element_byte_size) o.outputs

unfoldable pub get_output_signature : Model → List ℤ
get_output_signature o = map (λ m. to_int m.item_size) o.outputs

unfoldable pub get_input_sizes : Model → List ℤ
get_input_sizes o = map (λ m. to_int m.element_byte_size) o.inputs

unfoldable pub get_input_signature : Model → List ℤ
get_input_signature o = map (λ m. to_int m.item_size) o.inputs
