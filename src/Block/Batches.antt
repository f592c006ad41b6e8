-- ===== src/Block/Batches.antt =====
-- The batches of triton_block_triton: what its constructor sets as the output multiple, and what its
-- work asks of the model.
use native.Mathlib.Nat.{mul-div_cancel}
use gr4_torchdsp.Prelude.{
  ℕ, ◌*◌, ◌/◌, ◌≤◌, ◌<◌, ◌≡◌, refl, ap, ◌∙◌, List, ◌∷◌, none, some, length, arith, map, All, ◌&&◌,
  Bool, false, ◌==◌,
}
use gr4_torchdsp.Prelude.Int.{pos, int_max, to_size, to_int-small}
use gr4_torchdsp.Outcome.{ok}
use gr4_torchdsp.Runtime.{Input, Output, WorkIo, work_ok}
use gr4_torchdsp.Model.Metadata.{IoMetadata, IoMemory, allocate_shm, itemsize}
use gr4_torchdsp.Model.Configure.{Model, get_output_sizes, get_output_signature}
use gr4_torchdsp.Model.Infer.{BufferView}
use gr4_torchdsp.Model.Sizes.{product, allocate_shm-modulo}
use gr4_torchdsp.Model.Requests.{HasShape, IsConnected, requested, infer_batch_zerocopy-requests}
use gr4_torchdsp.Block.Work.{
  TritonBlock, Surroundings, BlockWork, items_per_batch, triton_block_triton, work, in_bufs,
  out_bufs, div_size,
}
use gr4_torchdsp.Model.Interface.{triton_model_impl}

pub exact_division : (a b n : ℕ) → 0 < b → n ≡ a * b → n / b ≡ a
exact_division a b n h e = rw e (mul-div_cancel a h)

pub items_per_batch-small :
    (m : Model) (mem : IoMemory) (rest : List IoMemory)
    → m.outputs ≡ mem ∷ rest
    → mem.element_byte_size ≤ int_max
    → mem.item_size ≤ int_max
    → 0 < mem.item_size
    → items_per_batch m ≡ ok (pos (mem.element_byte_size / mem.item_size))
unfolding items_per_batch get_output_sizes get_output_signature
items_per_batch-small m mem rest e s i p =
    rw e (rw (to_int-small mem.element_byte_size s, to_int-small mem.item_size i) (ground arith))

-- If the metadata of the model's first output gives at least one element of a known type, and the
-- tensor's bytes fit an `int`, the constructor succeeds, and the output multiple is the number of
-- elements of that tensor.
pub triton_block_triton-multiple :
    (m : Model) (metadata : IoMetadata) (segment : ℕ) (rest : List IoMemory)
    → m.outputs ≡ (allocate_shm metadata segment).0 ∷ rest
    → 0 < itemsize metadata.datatype
    → product metadata.shape * itemsize metadata.datatype ≤ int_max
    → triton_block_triton (some m)
      ≡ ok (record { model = m; output_multiple = pos (product metadata.shape); callback = none })
unfolding triton_block_triton allocate_shm
triton_block_triton-multiple m metadata segment rest e known small =
    let mem = (allocate_shm metadata segment).0 in
    let (bytes, item, positive) = allocate_shm-modulo metadata segment in
    let exact : mem.element_byte_size ≡ product metadata.shape * itemsize metadata.datatype =
      omega (arith, bytes, small) in
    let per_batch =
      items_per_batch-small m mem rest e (omega (arith, exact, small)) (omega (arith, item))
        known in
    let elements =
      exact_division (product metadata.shape) (itemsize metadata.datatype) mem.element_byte_size
        known exact in
    rw (per_batch, elements) refl

-- What work does on any number of granted items: it asks for as many batches as they fill.
pub work-fills :
    (env : Surroundings) (b : TritonBlock Model) (in1 in2 : Input) (ins : List Input) (out : Output)
    (outs : List Output) (in_views out_views : List BufferView) (async : Bool) (per : ℕ)
    → let wio : WorkIo = record { inputs = in1 ∷ in2 ∷ ins; outputs = out ∷ outs } in
      let result =
        requested b.model in_views out_views (out.n_items / per) (async && env.accepted) in
      items_per_batch b.model ≡ ok (pos per)
      → 0 < per
      → b.model.async ≡ some async
      → IsConnected b.model
      → All HasShape b.model.input_ptrs
      → (in_bufs env wio.inputs ≡ map some in_views) × (length b.model.input_ptrs ≤ length in_views)
      → (out_bufs env wio.outputs ≡ map some out_views)
        × (length b.model.output_ptrs ≤ length out_views)
      → work env b wio
        ≡ ok (record {
          ret = work_ok;
          wio = record wio { outputs = env.produce_each out.n_items wio.outputs };
          request = result.1;
          block = record b { model = result.0 };
        })
unfolding work to_size
work-fills env b in1 in2 ins out outs in_views out_views async per e positive a k shapes i o =
    let batch : div_size out.n_items per ≡ ok (out.n_items / per) =
      let nonzero : (per == 0) ≡ false = ground arith in unfold div_size in rw nonzero refl in
    let inferred =
      infer_batch_zerocopy-requests b.model in_views out_views (out.n_items / per) env.accepted
        async a k shapes i.1 o.1 in
    rw (e, batch) (rw (i.0, o.0) (rw inferred refl))

-- For a block whose model has a client, with a positive number of items per batch, two inputs at least, buffers behind all the
-- ports that the model needs, and a first output of `count` whole batches, work asks the model for
-- exactly `count` batches, produces the granted items at each output, and returns OK.
pub work-batches :
    (env : Surroundings) (b : TritonBlock Model) (in1 in2 : Input) (ins : List Input) (out : Output)
    (outs : List Output) (in_views out_views : List BufferView) (async : Bool) (per count : ℕ)
    → let wio : WorkIo = record { inputs = in1 ∷ in2 ∷ ins; outputs = out ∷ outs } in
      let result = requested b.model in_views out_views count (async && env.accepted) in
      items_per_batch b.model ≡ ok (pos per)
      → 0 < per
      → out.n_items ≡ count * per
      → b.model.async ≡ some async
      → IsConnected b.model
      → All HasShape b.model.input_ptrs
      → (in_bufs env wio.inputs ≡ map some in_views) × (length b.model.input_ptrs ≤ length in_views)
      → (out_bufs env wio.outputs ≡ map some out_views)
        × (length b.model.output_ptrs ≤ length out_views)
      → work env b wio
        ≡ ok (record {
          ret = work_ok;
          wio = record wio { outputs = env.produce_each out.n_items wio.outputs };
          request = result.1;
          block = record b { model = result.0 };
        })
work-batches env b in1 in2 ins out outs in_views out_views async per count e positive whole a k
      shapes i o =
    let wio : WorkIo = record { inputs = in1 ∷ in2 ∷ ins; outputs = out ∷ outs } in
    let worked : ℕ → BlockWork Model = λ n.
      let result = requested b.model in_views out_views n (async && env.accepted) in
      record {
        ret = work_ok;
        wio = record wio { outputs = env.produce_each out.n_items wio.outputs };
        request = result.1;
        block = record b { model = result.0 };
      } in
    work-fills env b in1 in2 ins out outs in_views out_views async per e positive a k shapes i o
    ∙ ap (λ n. ok (worked n)) (exact_division count per out.n_items positive whole)
