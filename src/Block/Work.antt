-- ===== src/Block/Work.antt =====
-- triton_block_triton: its constructor, set_async_callback and work, of
-- blocklib/torchdsp/triton_block/triton_block_triton.cc and its header.
use gr4_torchdsp.Prelude.{
  ℕ, zero, suc, ◌/◌, Bool, List, map, Option, none, some, get_elem?, ◌==◌, if◌then◌else◌,
}
use gr4_torchdsp.Prelude.Int.{ℤ, pos, negsuc, to_size}
use gr4_torchdsp.Outcome.{Outcome, ok, fault, at, div_by_zero, runtime_error, ◌>>=◌}
use gr4_torchdsp.Runtime.{Input, Output, WorkIo, WorkReturn, work_ok}
use gr4_torchdsp.Model.Infer.{BufferView, Request}
use gr4_torchdsp.Model.Interface.{TritonModel}

abbrev negate : ℕ → ℤ
negate zero = pos zero
negate (suc n) = negsuc n

-- `int / int`: towards zero; a zero divisor is a fault.
abbrev pub div_int : ℤ → ℤ → Outcome ℤ
div_int (pos a) (pos b) = if b == 0 then fault div_by_zero else ok (pos (a / b))
div_int (pos a) (negsuc b) = ok (negate (a / suc b))
div_int (negsuc a) (pos b) = if b == 0 then fault div_by_zero else ok (negate (suc a / b))
div_int (negsuc a) (negsuc b) = ok (pos (suc a / suc b))

-- The block over a model of the type `M`: the model, the argument that `set_output_multiple` was given, and `_callback`, by
-- number; `none` is the callback that does nothing.
pub record TritonBlock (M : Type 0) : Type 0 where
  pub model : M
  pub output_multiple : ℤ
  pub callback : Option ℕ

unfoldable pub set_async_callback : {M : Type 0} → ℕ → TritonBlock M → TritonBlock M
set_async_callback cb b = record b { callback = some cb }

-- What the work of the block reads of GNU Radio's: the readers and the buffers, by number, and
-- `produce_each`; and whether the client accepts the request.
pub record Surroundings : Type 0 where
  pub reader_view : ℕ → BufferView
  pub buffer_view : ℕ → BufferView
  pub produce_each : ℕ → List Output → List Output
  pub accepted : Bool

pub record BlockWork (M : Type 0) : Type 0 where
  pub ret : WorkReturn
  pub wio : WorkIo
  pub request : Request
  pub block : TritonBlock M

-- A port's buffer, which may be null.
abbrev pub view : (ℕ → BufferView) → Option ℕ → Option BufferView
view f none = none
view f (some b) = some (f b)

abbrev pub in_bufs : Surroundings → List Input → List (Option BufferView)
in_bufs env ws = map (λ w. view env.reader_view w.bufp) ws

abbrev pub out_bufs : Surroundings → List Output → List (Option BufferView)
out_bufs env ws = map (λ w. view env.buffer_view w.bufp) ws

-- `noutput_items / num_items_per_batch`, in `size_t`
unfoldable pub div_size : ℕ → ℕ → Outcome ℕ
div_size n d = if d == 0 then fault div_by_zero else ok (n / d)

module _ {M : Type 0} ⦃t : TritonModel M⦄ where
  -- `get_output_sizes()[0] / get_output_signature()[0]`
  unfoldable pub items_per_batch : M → Outcome ℤ
  items_per_batch m = at (get_elem? (t.get_output_sizes m) 0) >>= λ size.
      at (get_elem? (t.get_output_signature m) 0) >>= λ item. div_int size item

  -- The constructor, given what `triton_model::make` returned.
  unfoldable pub triton_block_triton : Option M → Outcome (TritonBlock M)
  unfolding items_per_batch
  triton_block_triton none = fault runtime_error
  triton_block_triton (some m) =
      items_per_batch m >>= λ n. ok (record { model = m; output_multiple = n; callback = none })

  -- Both inputs are looked up, though nothing is done with them.
  unfoldable pub work : Surroundings → TritonBlock M → WorkIo → Outcome (BlockWork M)
  unfolding items_per_batch div_size
  work env b wio = at (get_elem? wio.outputs 0) >>= λ out. at (get_elem? wio.inputs 0) >>= λ in1.
      at (get_elem? wio.inputs 1) >>= λ in2. items_per_batch b.model >>= λ per_batch.
      div_size out.n_items (to_size per_batch) >>= λ batch_size.
      t.infer_batch_zerocopy b.model (in_bufs env wio.inputs) (out_bufs env wio.outputs) batch_size
        env.accepted
      >>= λ (m, request). ok record {
        ret = work_ok;
        wio = record wio { outputs = env.produce_each out.n_items wio.outputs };
        request = request;
        block = record b { model = m };
      }
