-- ===== src/Tests/Model.antt =====
-- A model with two inputs and one output of 4 floats each, and the block that runs it.
use gr4_torchdsp.Prelude.{
  ℕ, ◌<◌, ◌≡◌, refl, Bool, true, false, ◌&&◌, [], ◌∷◌, map, some, none, length, All, arith,
}
use gr4_torchdsp.Prelude.Int.{to_int}
use gr4_torchdsp.Outcome.{ok, fault, out_of_range, uninitialised, assertion_failed}
use gr4_torchdsp.Model.Health.{is_server_healthy}
use gr4_torchdsp.Model.Metadata.{
  IoMetadata, IoMemory, allocate_shm, num_elements, itemsize, to_string,
}
use gr4_torchdsp.Model.Json.{parse_io, get_model_metadata}
use gr4_torchdsp.Model.Configure.{
  Model, InferInput, InferRequestedOutput, Counters, make, construct, configure, configure_inputs,
  configure_outputs, create_triton_input, create_triton_output, get_num_inputs, move_assign,
  move_construct,
}
use gr4_torchdsp.Model.Configured.{
  Describes, sized, input_of, output_of, sizes_of, io_sizes, construct-configures,
}
use gr4_torchdsp.Model.Refused.{make-unanswered}
use gr4_torchdsp.Tests.Json.{library, floats, healthy, client, connected}
use gr4_torchdsp.Model.Infer.{BufferView, infer_batch_zerocopy}
use gr4_torchdsp.Model.Aligned.{Aligned, make-Aligned}
use gr4_torchdsp.Model.Requests.{requested, HasShape, infer_batch_zerocopy-requests}
use gr4_torchdsp.Model.Moves.{infer_batch_zerocopy-again, move_assign-infer, move_construct-infer}

abbrev pub tensor : IoMetadata
tensor = record { shape = 1 ∷ 4 ∷ []; name = "x"; datatype = "FP32" }

abbrev pub counters : Counters
counters = record { segment_number = 0; input_number = 0; output_number = 0 }

abbrev pub memory : ℕ → IoMemory
memory n = (allocate_shm tensor n).0

abbrev pub input : InferInput
input = record { name = "x"; shape = 1 ∷ 4 ∷ []; datatype = "FP32"; shm = none }

abbrev pub output : InferRequestedOutput
output = record { name = "x"; shm = none }

-- The model as `make` hands it out.
abbrev pub adder : Bool → Model
adder async = record {
  client = some client;
  model_name = "add";
  input_ptrs = input ∷ input ∷ [];
  output_ptrs = output ∷ [];
  inputs = memory 0 ∷ memory 1 ∷ [];
  outputs = memory 2 ∷ [];
  registered_input_names = "0input_x" ∷ "1input_x" ∷ [];
  registered_output_names = "0output_x" ∷ [];
  async = some async;
  options = record { model_name = "add"; model_version = some "" };
}

abbrev used : Counters
used = record { segment_number = 3; input_number = 2; output_number = 1 }

abbrev pub a_view : BufferView
a_view = record { shm_key = "/a"; available = 8; item_size = 4; index = 16 }

made : make library connected "add" false "localhost:8000" counters ≡ ok (some (adder false), used)
unfolding make construct configure is_server_healthy parse_io allocate_shm create_triton_input
    create_triton_output num_elements itemsize to_string configure_inputs configure_outputs
    get_model_metadata get_num_inputs to_int
made = refl

read : parse_io library floats ≡ ok tensor
unfolding parse_io
read = refl

pub add-Describes : Describes library client "add" (tensor ∷ tensor ∷ []) (tensor ∷ [])
add-Describes = record {
  in_values = floats ∷ floats ∷ [];
  out_values = floats ∷ [];
  has_inputs = refl;
  has_outputs = refl;
  reads_inputs = (read, (read, tt));
  reads_outputs = (read, tt);
}

pub is_up : is_server_healthy healthy ≡ ok true
unfolding is_server_healthy
is_up = refl

construct-configures_example :
    (o : Model) × (c' : Counters) × (construct library connected "add" true "localhost:8000"
        counters
      ≡ ok (o, c'))
    × (o.client ≡ some client)
    × (o.async ≡ some true)
    × (o.input_ptrs ≡ map input_of (sized (tensor ∷ tensor ∷ [])))
    × (map sizes_of o.inputs ≡ map io_sizes (sized (tensor ∷ tensor ∷ [])))
    × (o.output_ptrs ≡ map output_of (sized (tensor ∷ [])))
    × (map sizes_of o.outputs ≡ map io_sizes (sized (tensor ∷ [])))
construct-configures_example =
    construct-configures library connected client "add" true "localhost:8000" counters
      (tensor ∷ tensor ∷ []) (tensor ∷ []) refl is_up add-Describes

make-unanswered_example :
    make library connected "sub" true "localhost:8000" counters ≡ fault assertion_failed
make-unanswered_example =
    make-unanswered library connected "sub" true "localhost:8000" counters client refl is_up refl
      refl

-- A tensor of 2^62 floats: its bytes wrap to none.
abbrev huge : IoMetadata
huge = record { shape = 1 ∷ 4611686018427387904 ∷ []; name = "x"; datatype = "FP32" }

huge_wraps : (allocate_shm huge 7).0.element_byte_size ≡ 0
unfolding allocate_shm num_elements itemsize
huge_wraps = refl

make-Aligned_example : (0 < length (adder false).inputs) × Aligned (adder false)
make-Aligned_example =
    make-Aligned library connected "add" false "localhost:8000" counters used (adder false) made

pub adder-HasShape : (async : Bool) → All HasShape (adder async).input_ptrs
adder-HasShape async = ((λ e. ground arith), ((λ e. ground arith), tt))

infer_batch_zerocopy-requests_example :
    infer_batch_zerocopy
      (adder true)
      (map some (a_view ∷ a_view ∷ []))
      (map some (a_view ∷ []))
      5
      true
    ≡ ok (requested (adder true) (a_view ∷ a_view ∷ []) (a_view ∷ []) 5 (true && true))
infer_batch_zerocopy-requests_example =
    infer_batch_zerocopy-requests (adder true) (a_view ∷ a_view ∷ []) (a_view ∷ []) 5 true true refl
      (client, refl) (adder-HasShape true) (omega arith) (omega arith)

infer_batch_zerocopy-again_example :
    infer_batch_zerocopy
      (requested (adder true) (a_view ∷ a_view ∷ []) (a_view ∷ []) 5 (true && false)).0
      (map some (a_view ∷ a_view ∷ []))
      (map some (a_view ∷ []))
      6
      false
    ≡ infer_batch_zerocopy
        (adder true)
        (map some (a_view ∷ a_view ∷ []))
        (map some (a_view ∷ []))
        6
        false
infer_batch_zerocopy-again_example =
    infer_batch_zerocopy-again (adder true) true (a_view ∷ a_view ∷ []) (a_view ∷ [])
      (a_view ∷ a_view ∷ []) (a_view ∷ []) 5 6 false refl (client, refl) (adder-HasShape true)
      (omega arith, omega arith) (omega arith, omega arith)

move_assign-infer_example :
    infer_batch_zerocopy
      (move_assign (adder true) (adder false)).0
      (map some (a_view ∷ a_view ∷ []))
      (map some (a_view ∷ []))
      5
      true
    ≡ fault out_of_range
unfolding move_assign
move_assign-infer_example =
    move_assign-infer (adder true) (adder false) (a_view ∷ a_view ∷ []) (a_view ∷ []) 5 true refl
      refl (omega arith) (adder-HasShape true) (adder-HasShape false) refl

move_construct-infer_example :
    infer_batch_zerocopy
      (move_construct (adder true)).0
      (map some (a_view ∷ a_view ∷ []))
      (map some (a_view ∷ []))
      5
      true
    ≡ fault uninitialised
move_construct-infer_example =
    move_construct-infer (adder true) (a_view ∷ a_view ∷ []) (a_view ∷ []) 5 true
      (adder-HasShape true) (omega arith) (omega arith)
