-- ===== src/Model/Interface.antt =====
-- triton_model, the class that blocks see of a model:
-- blocklib/torchdsp/include/gnuradio/torchdsp/triton_model.h, and triton_model_impl as the class that
-- implements it.
use gr4_torchdsp.Prelude.{ℕ, ◌≡◌, refl, sym, ap, Bool, List, Option}
use gr4_torchdsp.Prelude.Int.{ℤ}
use gr4_torchdsp.Outcome.{Outcome, ok, deref, >>=-eq-ok, ok-fst}
use gr4_torchdsp.Model.Configure
use gr4_torchdsp.Model.Configure.{Model}
use gr4_torchdsp.Model.Infer
use gr4_torchdsp.Model.Infer.{BufferView, Request, prepare_inputs, prepare_outputs, read_async}

-- The members over the objects `M` of an implementation; `infer_batch_zerocopy` gives the object
-- after the call, and the request that it made. The law is what a block relies on when it sets its
-- output multiple once and for all: an inference leaves the sizes of the outputs as they are.
pub record TritonModel (M : Type 0) : Type 0 where
  pub get_num_inputs : M → ℤ
  pub get_num_outputs : M → ℤ
  pub get_input_sizes : M → List ℤ
  pub get_output_sizes : M → List ℤ
  pub get_input_signature : M → List ℤ
  pub get_output_signature : M → List ℤ
  pub infer_batch_zerocopy :
      M → List (Option BufferView) → List (Option BufferView) → ℕ → Bool → Outcome (M × Request)
  pub infer_batch_zerocopy-sizes :
      (m m' : M) (ins outs : List (Option BufferView)) (batch_size : ℕ) (accepted : Bool)
      (q : Request)
      → infer_batch_zerocopy m ins outs batch_size accepted ≡ ok (m', q)
      → (get_output_sizes m' ≡ get_output_sizes m)
        × (get_output_signature m' ≡ get_output_signature m)

infer-outputs :
    (m m' : Model) (ins outs : List (Option BufferView)) (batch_size : ℕ) (accepted : Bool)
    (q : Request)
    → Infer.infer_batch_zerocopy m ins outs batch_size accepted ≡ ok (m', q)
    → m'.outputs ≡ m.outputs
unfolding Infer.infer_batch_zerocopy
infer-outputs m m' ins outs batch_size accepted q e =
    let (is, _, e1) = >>=-eq-ok (prepare_inputs batch_size m.input_ptrs 0 ins) _ e in
    let (os, _, e2) = >>=-eq-ok (prepare_outputs m.output_ptrs 0 outs) _ e1 in
    let (async, _, e3) = >>=-eq-ok (read_async m.async) _ e2 in
    let (client, _, e4) = >>=-eq-ok (deref m.client) _ e3 in ap (λ x. x.outputs) (sym (ok-fst e4))

pub infer-sizes :
    (m m' : Model) (ins outs : List (Option BufferView)) (batch_size : ℕ) (accepted : Bool)
    (q : Request)
    → Infer.infer_batch_zerocopy m ins outs batch_size accepted ≡ ok (m', q)
    → (Configure.get_output_sizes m' ≡ Configure.get_output_sizes m)
      × (Configure.get_output_signature m' ≡ Configure.get_output_signature m)
unfolding Configure.get_output_sizes Configure.get_output_signature
infer-sizes m m' ins outs batch_size accepted q e =
    let same = infer-outputs m m' ins outs batch_size accepted q e in (rw same refl, rw same refl)

instance abbrev pub triton_model_impl : TritonModel Model
triton_model_impl = record {
  get_num_inputs = Configure.get_num_inputs;
  get_num_outputs = Configure.get_num_outputs;
  get_input_sizes = Configure.get_input_sizes;
  get_output_sizes = Configure.get_output_sizes;
  get_input_signature = Configure.get_input_signature;
  get_output_signature = Configure.get_output_signature;
  infer_batch_zerocopy = Infer.infer_batch_zerocopy;
  infer_batch_zerocopy-sizes = infer-sizes;
}
