-- ===== src/Model/Infer.antt =====
-- triton_model_impl::infer_batch_zerocopy, lines 317 to 381 of
-- blocklib/torchdsp/lib/triton_model_impl.cc.
use gr4_torchdsp.Prelude.{
  ℕ, suc, ◌*◌, ◌%◌, Bool, true, false, String, List, [], ◌∷◌, Option, none, some, get_elem?,
}
use gr4_torchdsp.Outcome.{Outcome, ok, fault, at, deref, out_of_range, uninitialised, ◌>>=◌}
use gr4_torchdsp.Prelude.Int.{size_mod}
use gr4_torchdsp.Model.Configure.{Model, InferInput, InferRequestedOutput, Region}

-- A buffer or a buffer's reader as the function sees it: the key of its memory; its items available,
-- or its room; the size of an item; and its read or write index.
pub record BufferView : Type 0 where
  pub shm_key : String
  pub available : ℕ
  pub item_size : ℕ
  pub index : ℕ

abbrev pub region : BufferView → Region
region v = record {
  key = v.shm_key;
  byte_size = (v.available * v.item_size) % size_mod;
  offset = v.index;
}

-- `new_shape[0] = batch_size`
unfoldable pub set_batch : ℕ → List ℕ → Outcome (List ℕ)
set_batch batch_size [] = fault out_of_range
set_batch batch_size (d ∷ ds) = ok (batch_size ∷ ds)

-- lines 326 to 343, from the index `idx` on; a buffer may be null
unfoldable pub prepare_inputs :
    ℕ → List InferInput → ℕ → List (Option BufferView) → Outcome (List InferInput)
unfolding set_batch
prepare_inputs batch_size [] idx bufs = ok []
prepare_inputs batch_size (p ∷ ps) idx bufs = set_batch batch_size p.shape >>= λ shape.
    at (get_elem? bufs idx) >>= λ b. deref b >>= λ v.
    prepare_inputs batch_size ps (suc idx) bufs >>= λ rest.
    ok (record p { shape = shape; shm = some (region v) } ∷ rest)

-- lines 347 to 358
unfoldable pub prepare_outputs :
    List InferRequestedOutput → ℕ → List (Option BufferView) → Outcome (List InferRequestedOutput)
prepare_outputs [] idx bufs = ok []
prepare_outputs (p ∷ ps) idx bufs = at (get_elem? bufs idx) >>= λ b. deref b >>= λ v.
    prepare_outputs ps (suc idx) bufs >>= λ rest. ok (record p { shm = some (region v) } ∷ rest)

-- The request that was made of the client, and whether the client was given the callback and
-- accepted the request, so that it calls back.
pub record Request : Type 0 where
  pub inputs : List InferInput
  pub outputs : List InferRequestedOutput
  pub calls_back : Bool

-- lines 362 to 376; `accepted` is the client's answer. An error is printed and dropped, and the
-- synchronous call is not given the callback.
unfoldable pub calls_back : Bool → Bool → Bool
calls_back async accepted = elim async [ true ↦ accepted | false ↦ false ]

unfoldable pub read_async : Option Bool → Outcome Bool
read_async none = fault uninitialised
read_async (some b) = ok b

unfoldable pub infer_batch_zerocopy :
    Model
    → List (Option BufferView)
    → List (Option BufferView)
    → ℕ
    → Bool
    → Outcome (Model × Request)
unfolding prepare_inputs prepare_outputs calls_back read_async
infer_batch_zerocopy o in_buffers out_buffers batch_size accepted =
    prepare_inputs batch_size o.input_ptrs 0 in_buffers >>= λ ins.
    prepare_outputs o.output_ptrs 0 out_buffers >>= λ outs. read_async o.async >>= λ async.
    deref o.client >>= λ client. ok (
      record o { input_ptrs = ins; output_ptrs = outs },
      record { inputs = ins; outputs = outs; calls_back = calls_back async accepted },
    )
