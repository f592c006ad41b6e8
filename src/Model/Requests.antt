-- ===== src/Model/Requests.antt =====
-- What infer_batch_zerocopy of blocklib/torchdsp/lib/triton_model_impl.cc asks of the server.
use gr4_torchdsp.Prelude.{
  ℕ, suc, ◌≤◌, ◌<◌, ◌≡◌, ◌≢◌, ◌*◌, ◌%◌, ◌&&◌, refl, sym, Bool, true, false, List, [], ◌∷◌, map,
  Option, some, length, All, arith, drop, drop-suc, get_elem?-drop, get_elem?-drop-none,
}
use gr4_torchdsp.Outcome.{Outcome, ok, fault, out_of_range}
use gr4_torchdsp.Prelude.Int.{size_mod}
use gr4_torchdsp.Model.Json.{Client}
use gr4_torchdsp.Model.Configure.{Model, InferInput, InferRequestedOutput, Region}
use gr4_torchdsp.Model.Infer.{
  BufferView, region, set_batch, prepare_inputs, prepare_outputs, calls_back, infer_batch_zerocopy,
  Request,
}

-- The model has a client.
abbrev pub IsConnected : Model → Type 0
IsConnected o = (client : Client) × (o.client ≡ some client)

abbrev pub HasShape : InferInput → Type 0
HasShape p = p.shape ≢ []

-- The shape with the batch in place of the first dimension.
abbrev pub batched : ℕ → List ℕ → List ℕ
batched batch_size [] = []
batched batch_size (d ∷ ds) = batch_size ∷ ds

-- Where a tensor is to be found: the memory of its buffer, from the buffer's index on, as many bytes
-- as its items come to, in 64 bits.
abbrev pub window : BufferView → Region
window v = record {
  key = v.shm_key;
  offset = v.index;
  byte_size = (v.available * v.item_size) % size_mod;
}

region-window : (v : BufferView) → region v ≡ window v
region-window v = refl

-- Each input with the batch and with the window of the buffer at its place.
abbrev pub served_inputs : ℕ → List InferInput → List BufferView → List InferInput
served_inputs batch_size [] vs = []
served_inputs batch_size (p ∷ ps) [] = []
served_inputs batch_size (p ∷ ps) (v ∷ vs) =
    record p { shape = batched batch_size p.shape; shm = some (window v) }
    ∷ served_inputs batch_size ps vs

abbrev pub served_outputs : List InferRequestedOutput → List BufferView → List InferRequestedOutput
served_outputs [] vs = []
served_outputs (p ∷ ps) [] = []
served_outputs (p ∷ ps) (v ∷ vs) = record p { shm = some (window v) } ∷ served_outputs ps vs

set_batch-batched :
    (batch_size : ℕ) (shape : List ℕ)
    → shape ≢ []
    → set_batch batch_size shape ≡ ok (batched batch_size shape)
unfolding set_batch
set_batch-batched batch_size [] h = absurd (h refl)
set_batch-batched batch_size (d ∷ ds) h = refl

pub prepare_inputs-served :
    (batch_size : ℕ) (ps : List InferInput) (idx : ℕ) (bufs : List (Option BufferView))
    (vs : List BufferView)
    → drop idx bufs ≡ map some vs
    → length ps ≤ length vs
    → All HasShape ps
    → prepare_inputs batch_size ps idx bufs ≡ ok (served_inputs batch_size ps vs)
unfolding prepare_inputs
prepare_inputs-served batch_size [] idx bufs vs e l a = refl
prepare_inputs-served batch_size (p ∷ ps) idx bufs [] e l a = absurd (omega arith)
prepare_inputs-served batch_size (p ∷ ps) idx bufs (v ∷ vs) e l a =
    let rest =
      prepare_inputs-served batch_size ps (suc idx) bufs vs (drop-suc idx bufs _ _ e) (omega arith)
        a.1 in
    rw
      (
        set_batch-batched batch_size p.shape a.0,
        get_elem?-drop idx bufs _ _ e,
        sym (region-window v),
      )
      (rw rest refl)

pub prepare_outputs-served :
    (ps : List InferRequestedOutput) (idx : ℕ) (bufs : List (Option BufferView))
    (vs : List BufferView)
    → drop idx bufs ≡ map some vs
    → length ps ≤ length vs
    → prepare_outputs ps idx bufs ≡ ok (served_outputs ps vs)
unfolding prepare_outputs
prepare_outputs-served [] idx bufs vs e l = refl
prepare_outputs-served (p ∷ ps) idx bufs [] e l = absurd (omega arith)
prepare_outputs-served (p ∷ ps) idx bufs (v ∷ vs) e l =
    let rest =
      prepare_outputs-served ps (suc idx) bufs vs (drop-suc idx bufs _ _ e) (omega arith) in
    rw (get_elem?-drop idx bufs _ _ e) (rw rest refl)

prepare_inputs-short :
    (batch_size : ℕ) (ps : List InferInput) (idx : ℕ) (bufs : List (Option BufferView))
    (vs : List BufferView)
    → drop idx bufs ≡ map some vs
    → length vs < length ps
    → All HasShape ps
    → prepare_inputs batch_size ps idx bufs ≡ fault out_of_range
unfolding prepare_inputs
prepare_inputs-short batch_size [] idx bufs vs e l a = absurd (omega arith)
prepare_inputs-short batch_size (p ∷ ps) idx bufs [] e l a =
    rw (set_batch-batched batch_size p.shape a.0, get_elem?-drop-none idx bufs e) refl
prepare_inputs-short batch_size (p ∷ ps) idx bufs (v ∷ vs) e l a =
    let rest =
      prepare_inputs-short batch_size ps (suc idx) bufs vs (drop-suc idx bufs _ _ e) (omega arith)
        a.1 in
    rw (set_batch-batched batch_size p.shape a.0, get_elem?-drop idx bufs _ _ e) (rw rest refl)

pub calls_back-and : (async accepted : Bool) → calls_back async accepted ≡ (async && accepted)
unfolding calls_back
calls_back-and true accepted = refl
calls_back-and false accepted = refl

-- The model after the request, and the request.
abbrev pub requested : Model → List BufferView → List BufferView → ℕ → Bool → Model × Request
requested o ins outs batch_size back =
    let inputs = served_inputs batch_size o.input_ptrs ins in
    let outputs = served_outputs o.output_ptrs outs in
    (
      record o { input_ptrs = inputs; output_ptrs = outputs },
      record { inputs = inputs; outputs = outputs; calls_back = back },
    )

module _ (o : Model) (in_views out_views : List BufferView) (batch_size : ℕ) (accepted : Bool) where
  abbrev inferred : Outcome (Model × Request)
  inferred = infer_batch_zerocopy o (map some in_views) (map some out_views) batch_size accepted

  -- With a client, a buffer for each input and each output, and a shape that is not empty for each
  -- input, the request is made: each input's first dimension is the batch size and the others are kept, and
  -- each tensor is placed in the memory of the buffer at its own place, from the buffer's read or write
  -- index on, with as many bytes as the buffer's available items come to, modulo 2^64. An asynchronous model calls
  -- back if the client accepted the request, a synchronous one never does.
  pub infer_batch_zerocopy-requests :
      (async : Bool)
      → o.async ≡ some async
      → IsConnected o
      → All HasShape o.input_ptrs
      → length o.input_ptrs ≤ length in_views
      → length o.output_ptrs ≤ length out_views
      → inferred ≡ ok (requested o in_views out_views batch_size (async && accepted))
  unfolding infer_batch_zerocopy
  infer_batch_zerocopy-requests async e k a li lo =
      rw
        (
          prepare_inputs-served batch_size o.input_ptrs 0 _ in_views refl li a,
          prepare_outputs-served o.output_ptrs 0 _ out_views refl lo,
        )
        (rw (e, k.1) (rw (calls_back-and async accepted) refl))

  -- With fewer buffers than the model has inputs, a buffer past the end is read.
  pub infer_batch_zerocopy-short :
      All HasShape o.input_ptrs
      → length in_views < length o.input_ptrs
      → inferred ≡ fault out_of_range
  unfolding infer_batch_zerocopy
  infer_batch_zerocopy-short a l =
      rw (prepare_inputs-short batch_size o.input_ptrs 0 _ in_views refl l a) refl
