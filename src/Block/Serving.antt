-- ===== src/Block/Serving.antt =====
-- What the work of a Triton block needs to return, and what it leaves:
-- blocklib/torchdsp/triton_block/triton_block_triton.cc, lines 29 to 68.
use gr4_torchdsp.Prelude.{
  ℕ, suc, ◌/◌, ◌≤◌, ◌<◌, ◌≡◌, refl, ap, subst, true, List, [], ◌∷◌, map, Option, some, length, All,
  arith, inl, inr, Option-cases,
}
use gr4_torchdsp.Prelude.Int.{pos}
use gr4_torchdsp.Outcome.{ok}
use gr4_torchdsp.Runtime.{Input, Output, WorkIo, work_ok}
use gr4_torchdsp.Executor.Checked.{in_bufps, out_bufps}
use gr4_torchdsp.Executor.Behaved.{IsThere}
use gr4_torchdsp.Model.Configure.{Model, get_output_sizes, get_output_signature}
use gr4_torchdsp.Model.Infer.{BufferView}
use gr4_torchdsp.Model.Requests.{HasShape, IsConnected, requested}
use gr4_torchdsp.Model.Moves.{
  served_inputs-HasShape, served_inputs-length_le, served_outputs-length_le,
}
use gr4_torchdsp.Block.Work.{
  TritonBlock, Surroundings, BlockWork, items_per_batch, work, in_bufs, out_bufs,
}
use gr4_torchdsp.Block.Batches.{work-fills}
use gr4_torchdsp.Model.Interface.{triton_model_impl}

-- The block has a client, an asynchronous model and a whole number of items to a batch, and there is
-- a port for each of the model's inputs and outputs.
pub record Serves (ins outs : List (Option ℕ)) (b : TritonBlock Model) : Type 0 where
  pub per : ℕ
  pub per_batch : items_per_batch b.model ≡ ok (pos per)
  pub positive : 0 < per
  pub async : b.model.async ≡ some true
  pub connected : IsConnected b.model
  pub shapes : All HasShape b.model.input_ptrs
  pub enough_inputs : length b.model.input_ptrs ≤ length ins
  pub enough_outputs : length b.model.output_ptrs ≤ length outs

-- Ports that all have buffers, two inputs at least, which work looks at, and an output.
abbrev pub IsPlugged : List (Option ℕ) → List (Option ℕ) → Type 0
IsPlugged ins outs = (2 ≤ length ins) × (1 ≤ length outs) × All IsThere ins × All IsThere outs

in_bufs-views :
    (env : Surroundings) (ws : List Input)
    → All IsThere (in_bufps ws)
    → (vs : List BufferView) × (in_bufs env ws ≡ map some vs) × (length vs ≡ length (in_bufps ws))
in_bufs-views env [] a = ([], refl, refl)
in_bufs-views env (w ∷ ws) a = elim (Option-cases w.bufp) [
  | inl null ↦ absurd (a.0 null)
  | inr (b, e) ↦
      let (vs, views, n) = in_bufs-views env ws a.1 in
      (env.reader_view b ∷ vs, rw (e, views) refl, ap suc n)
]

out_bufs-views :
    (env : Surroundings) (ws : List Output)
    → All IsThere (out_bufps ws)
    → (vs : List BufferView) × (out_bufs env ws ≡ map some vs) × (length vs ≡ length (out_bufps ws))
out_bufs-views env [] a = ([], refl, refl)
out_bufs-views env (w ∷ ws) a = elim (Option-cases w.bufp) [
  | inl null ↦ absurd (a.0 null)
  | inr (b, e) ↦
      let (vs, views, n) = out_bufs-views env ws a.1 in
      (env.buffer_view b ∷ vs, rw (e, views) refl, ap suc n)
]

-- What the work comes back with.
abbrev pub Served :
    Surroundings → TritonBlock Model → WorkIo → List (Option ℕ) → List (Option ℕ) → Type 0
Served env b io ins outs =
    (w : BlockWork Model) × (n : ℕ) × (work env b io ≡ ok w)
    × (w.ret ≡ work_ok)
    × (w.wio ≡ record io { outputs = env.produce_each n io.outputs })
    × (w.request.calls_back ≡ env.accepted)
    × Serves ins outs w.block

work-Serves_ports :
    (env : Surroundings) (b : TritonBlock Model) (ins : List Input) (outs : List Output)
    → Serves (in_bufps ins) (out_bufps outs) b
    → IsPlugged (in_bufps ins) (out_bufps outs)
    → Served env b (record { inputs = ins; outputs = outs }) (in_bufps ins) (out_bufps outs)
unfolding items_per_batch get_output_sizes get_output_signature
work-Serves_ports env b [] outs s p = absurd (omega (arith, p.0))
work-Serves_ports env b (x ∷ []) outs s p = absurd (omega (arith, p.0))
work-Serves_ports env b (x ∷ y ∷ ins) [] s p = absurd (omega (arith, p.1))
work-Serves_ports env b (x ∷ y ∷ ins) (o ∷ outs) s p =
    let (vs, views, n) = in_bufs-views env (x ∷ y ∷ ins) p.2 in
    let (us, rooms, k) = out_bufs-views env (o ∷ outs) p.3 in
    let (model, request) = requested b.model vs us (o.n_items / s.per) env.accepted in
    (
      record {
        ret = work_ok;
        wio = record { inputs = x ∷ y ∷ ins; outputs = env.produce_each o.n_items (o ∷ outs) };
        request = request;
        block = record b { model = model };
      },
      o.n_items,
      work-fills env b x y ins o outs vs us true s.per s.per_batch s.positive s.async s.connected
          s.shapes (views, omega (arith, n, s.enough_inputs))
          (rooms, omega (arith, k, s.enough_outputs)),
      refl,
      refl,
      refl,
      record {
        per = s.per;
        per_batch = s.per_batch;
        positive = s.positive;
        async = s.async;
        connected = s.connected;
        shapes = served_inputs-HasShape (o.n_items / s.per) b.model.input_ptrs vs s.shapes;
        enough_inputs = omega (
          arith,
          served_inputs-length_le (o.n_items / s.per) b.model.input_ptrs vs,
          s.enough_inputs,
        );
        enough_outputs =
            omega (arith, served_outputs-length_le b.model.output_ptrs us, s.enough_outputs);
      },
    )

-- The work of a Triton block returns OK, whatever the counts that it was granted: if its model is
-- asynchronous and has a client, the model's first output gives a positive number of items to a
-- batch, the shape of each of its inputs is not empty, there is a port for each of the model's inputs and outputs, and at least two inputs and an
-- output, all with buffers. It leaves its inputs as they were and its outputs to `produce_each`, its
-- request calls back if the client accepts it, and the block can be called again in the same way.
pub work-Serves :
    (env : Surroundings) (b : TritonBlock Model) (io : WorkIo) (ins outs : List (Option ℕ))
    → (in_bufps io.inputs ≡ ins) × (out_bufps io.outputs ≡ outs)
    → Serves ins outs b
    → IsPlugged ins outs
    → Served env b io ins outs
work-Serves env b io ins outs fits =
    subst (λ x. Serves x outs b → IsPlugged x outs → Served env b io x outs) fits.0
      (subst
        (λ y.
          Serves (in_bufps io.inputs) y b
          → IsPlugged (in_bufps io.inputs) y
          → Served env b io (in_bufps io.inputs) y)
        fits.1 (work-Serves_ports env b io.inputs io.outputs))
