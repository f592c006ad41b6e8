-- ===== src/Model/Configured.antt =====
-- What the constructor of triton_model_impl makes of the metadata: lines 100 to 144 of
-- blocklib/torchdsp/lib/triton_model_impl.cc against a description of the result.
use mathlib.Core.List.{append_assoc, append-nil}
use gr4_torchdsp.Prelude.{
  ℕ, ◌*◌, ◌%◌, ◌≡◌, refl, sym, ap, ◌∙◌, Bool, true, String, List, [], ◌∷◌, ◌++◌, map, Option, none,
  some, ◌==◌, if◌then◌else◌, Bool-cases, inl, inr,
}
use gr4_torchdsp.Prelude.Int.{size_mod}
use gr4_torchdsp.Outcome.{Outcome, ok}
use gr4_torchdsp.Model.Health.{is_server_healthy}
use gr4_torchdsp.Model.Metadata.{IoMetadata, IoMemory, num_elements, itemsize, allocate_shm}
use gr4_torchdsp.Model.Json.{Rapidjson, Client, answered, array_at, parse_io, get_model_metadata}
use gr4_torchdsp.Model.Configure.{
  Model, Counters, InferInput, InferRequestedOutput, create_triton_input, create_triton_output,
  blank, configure_inputs, configure_outputs, configure, construct,
}

-- The bytes of a tensor, in 64 bits.
abbrev pub io_bytes : IoMetadata → ℕ
io_bytes m = (num_elements m.shape * itemsize m.datatype) % size_mod

-- The tensors in front of the first one without bytes.
unfoldable pub sized : List IoMetadata → List IoMetadata
sized [] = []
sized (m ∷ ms) = let rest = sized ms in if io_bytes m == 0 then [] else m ∷ rest

abbrev pub input_of : IoMetadata → InferInput
input_of m = record { name = m.name; shape = m.shape; datatype = m.datatype; shm = none }

abbrev pub output_of : IoMetadata → InferRequestedOutput
output_of m = record { name = m.name; shm = none }

-- The size of an item, and the bytes of the tensor.
abbrev pub sizes_of : IoMemory → ℕ × ℕ
sizes_of mem = (mem.item_size, mem.element_byte_size)

abbrev pub io_sizes : IoMetadata → ℕ × ℕ
io_sizes m = (itemsize m.datatype, io_bytes m)

-- The array's entries can be read, and are the tensors `ms`.
module _ (json : Rapidjson) where
  open json use {Value, parse}

  abbrev pub Reads : List Value → List IoMetadata → Type 0
  Reads [] [] = Unit
  Reads [] (m ∷ ms) = ⊥
  Reads (v ∷ vs) [] = ⊥
  Reads (v ∷ vs) (m ∷ ms) = (parse_io json v ≡ ok m) × Reads vs ms

-- `o'` is `o` with the tensors `ms` as further inputs, each with its pointer and its bytes.
pub record GivenInputs (ms : List IoMetadata) (o o' : Model) : Type 0 where
  pub pointers : o'.input_ptrs ≡ o.input_ptrs ++ map input_of ms
  pub sizes : map sizes_of o'.inputs ≡ map sizes_of o.inputs ++ map io_sizes ms
  pub same_outputs : (o'.output_ptrs ≡ o.output_ptrs) × (o'.outputs ≡ o.outputs)
  pub same_client : o'.client ≡ o.client
  pub same_async : o'.async ≡ o.async

pub record GivenOutputs (ms : List IoMetadata) (o o' : Model) : Type 0 where
  pub pointers : o'.output_ptrs ≡ o.output_ptrs ++ map output_of ms
  pub sizes : map sizes_of o'.outputs ≡ map sizes_of o.outputs ++ map io_sizes ms
  pub same_inputs : (o'.input_ptrs ≡ o.input_ptrs) × (o'.inputs ≡ o.inputs)
  pub same_client : o'.client ≡ o.client
  pub same_async : o'.async ≡ o.async

map-snoc {ℓ κ} :
    {A : Type ℓ} {B : Type κ} (f : A → B) (xs : List A) (y : A) (zs : List B)
    → map f (xs ++ y ∷ []) ++ zs ≡ map f xs ++ f y ∷ zs
map-snoc f [] y zs = refl
map-snoc f (x ∷ xs) y zs = ap (◌∷◌ (f x)) (map-snoc f xs y zs)

module _ (json : Rapidjson) where
  open json use {Value, parse}

  abbrev Gives : (Model → Type 0) → Outcome (Model × Counters) → Type 0
  Gives P r = (o' : Model) × (c' : Counters) × (r ≡ ok (o', c')) × P o'

  GivenInputs-nil : (o : Model) → GivenInputs [] o o
  GivenInputs-nil o = record {
    pointers = sym (append-nil o.input_ptrs);
    sizes = sym (append-nil (map sizes_of o.inputs));
    same_outputs = (refl, refl);
    same_client = refl;
    same_async = refl;
  }

  -- One input: what the turn of the loop leaves for the next.
  GivenInputs-cons :
      (m : IoMetadata) (ms : List IoMetadata) (segment : ℕ) (o : Model) (c : Counters) (o' : Model)
      → let mem = (allocate_shm m segment).0 in
        GivenInputs ms (create_triton_input m (record o { inputs = o.inputs ++ mem ∷ [] }) c).0 o'
        → GivenInputs (m ∷ ms) o o'
  unfolding create_triton_input allocate_shm
  GivenInputs-cons m ms segment o c o' g = record {
    pointers = g.pointers ∙ append_assoc o.input_ptrs (input_of m ∷ []) (map input_of ms);
    sizes = g.sizes ∙ map-snoc sizes_of o.inputs (allocate_shm m segment).0 (map io_sizes ms);
    same_outputs = g.same_outputs;
    same_client = g.same_client;
    same_async = g.same_async;
  }

  configure_inputs-Reads :
      (vs : List Value) (ms : List IoMetadata) (o : Model) (c : Counters)
      → Reads json vs ms
      → Gives (GivenInputs (sized ms) o) (configure_inputs json vs o c)
  unfolding configure_inputs sized allocate_shm
  configure_inputs-Reads [] [] o c r = (o, c, refl, GivenInputs-nil o)
  configure_inputs-Reads [] (m ∷ ms) o c r = absurd r
  configure_inputs-Reads (v ∷ vs) [] o c r = absurd r
  configure_inputs-Reads (v ∷ vs) (m ∷ ms) o c r = elim (Bool-cases (io_bytes m == 0)) [
    | inl empty ↦
        let c' = record c { segment_number = (allocate_shm m c.segment_number).1 } in
        (o, c', rw (r.0, empty) refl, rw empty (GivenInputs-nil o))
    | inr more ↦
        let (mem, n) = allocate_shm m c.segment_number in
        let c1 = record c { segment_number = n } in
        let (o2, c2) = create_triton_input m (record o { inputs = o.inputs ++ mem ∷ [] }) c1 in
        let (o', c', loop, given) = configure_inputs-Reads vs ms o2 c2 r.1 in
        (
          o',
          c',
          rw (r.0, more) loop,
          rw more (GivenInputs-cons m (sized ms) c.segment_number o c1 o' given),
        )
  ]

  GivenOutputs-nil : (o : Model) → GivenOutputs [] o o
  GivenOutputs-nil o = record {
    pointers = sym (append-nil o.output_ptrs);
    sizes = sym (append-nil (map sizes_of o.outputs));
    same_inputs = (refl, refl);
    same_client = refl;
    same_async = refl;
  }

  GivenOutputs-cons :
      (m : IoMetadata) (ms : List IoMetadata) (segment : ℕ) (o : Model) (c : Counters) (o' : Model)
      → let mem = (allocate_shm m segment).0 in
        GivenOutputs ms
          (create_triton_output m (record o { outputs = o.outputs ++ mem ∷ [] }) c).0
          o'
        → GivenOutputs (m ∷ ms) o o'
  unfolding create_triton_output allocate_shm
  GivenOutputs-cons m ms segment o c o' g = record {
    pointers = g.pointers ∙ append_assoc o.output_ptrs (output_of m ∷ []) (map output_of ms);
    sizes = g.sizes ∙ map-snoc sizes_of o.outputs (allocate_shm m segment).0 (map io_sizes ms);
    same_inputs = g.same_inputs;
    same_client = g.same_client;
    same_async = g.same_async;
  }

  configure_outputs-Reads :
      (vs : List Value) (ms : List IoMetadata) (o : Model) (c : Counters)
      → Reads json vs ms
      → Gives (GivenOutputs (sized ms) o) (configure_outputs json vs o c)
  unfolding configure_outputs sized allocate_shm
  configure_outputs-Reads [] [] o c r = (o, c, refl, GivenOutputs-nil o)
  configure_outputs-Reads [] (m ∷ ms) o c r = absurd r
  configure_outputs-Reads (v ∷ vs) [] o c r = absurd r
  configure_outputs-Reads (v ∷ vs) (m ∷ ms) o c r = elim (Bool-cases (io_bytes m == 0)) [
    | inl empty ↦
        let c' = record c { segment_number = (allocate_shm m c.segment_number).1 } in
        (o, c', rw (r.0, empty) refl, rw empty (GivenOutputs-nil o))
    | inr more ↦
        let (mem, n) = allocate_shm m c.segment_number in
        let c1 = record c { segment_number = n } in
        let (o2, c2) = create_triton_output m (record o { outputs = o.outputs ++ mem ∷ [] }) c1 in
        let (o', c', loop, given) = configure_outputs-Reads vs ms o2 c2 r.1 in
        (
          o',
          c',
          rw (r.0, more) loop,
          rw more (GivenOutputs-cons m (sized ms) c.segment_number o c1 o' given),
        )
  ]

  -- What the metadata says of the model: the tensors of its two arrays.
  pub record Describes (client : Client) (name : String) (ins outs : List IoMetadata) : Type 0 where
    pub in_values : List Value
    pub out_values : List Value
    pub has_inputs :
        array_at json "inputs" (parse (answered (client.model_metadata name))) ≡ ok in_values
    pub has_outputs :
        array_at json "outputs" (parse (answered (client.model_metadata name))) ≡ ok out_values
    pub reads_inputs : Reads json in_values ins
    pub reads_outputs : Reads json out_values outs

  -- With a client whose server is healthy, and metadata that describes the tensors `ins` and `outs`,
  -- the constructor returns a model with this client, with `async` as given, and with the tensors in
  -- front of the first one without bytes as its inputs and its outputs: their pointers have the
  -- tensor's name, and an input's the shape and the type too, and their memory has the size of the
  -- tensor's items and the tensor's bytes.
  pub construct-configures :
      (connect : String → Option Client) (client : Client) (name : String) (async : Bool)
      (url : String) (c : Counters) (ins outs : List IoMetadata)
      → connect url ≡ some client
      → is_server_healthy client.server ≡ ok true
      → Describes client name ins outs
      → (o : Model) × (c' : Counters) × (construct json connect name async url c ≡ ok (o, c'))
        × (o.client ≡ some client)
        × (o.async ≡ some async)
        × (o.input_ptrs ≡ map input_of (sized ins))
        × (map sizes_of o.inputs ≡ map io_sizes (sized ins))
        × (o.output_ptrs ≡ map output_of (sized outs))
        × (map sizes_of o.outputs ≡ map io_sizes (sized outs))
  unfolding construct configure get_model_metadata
  construct-configures connect client name async url c ins outs connected healthy d =
      let o0 = blank (some client) name (some async) in
      let (o1, c1, first, i) = configure_inputs-Reads d.in_values ins o0 c d.reads_inputs in
      let (o2, c2, second, o) = configure_outputs-Reads d.out_values outs o1 c1 d.reads_outputs in
      (
        record o2 { options = record o2.options { model_version = some "" } },
        c2,
        rw (connected, healthy) (rw (d.has_inputs, first) (rw (d.has_outputs, second) refl)),
        o.same_client ∙ i.same_client,
        o.same_async ∙ i.same_async,
        o.same_inputs.0 ∙ i.pointers,
        ap (map sizes_of) o.same_inputs.1 ∙ i.sizes,
        o.pointers ∙ ap (λ ps. ps ++ map output_of (sized outs)) i.same_outputs.0,
        o.sizes ∙ ap (λ ms. map sizes_of ms ++ map io_sizes (sized outs)) i.same_outputs.1,
      )
