-- ===== src/Block/Chain.antt =====
-- A flowgraph that ends in a Triton block, and may hold other blocks, as the scheduler meets it:
-- blocklib/torchdsp/triton_block/triton_block_triton.cc under
-- schedulers/triton/lib/graph_executor.cc.
use gr4_torchdsp.Prelude.{
  ℕ, suc, ◌<◌, ◌≤◌, length, arith, ◌≡◌, refl, ap, ◌∙◌, Bool, true, false, List, [], ◌∷◌, Option,
  some, inl, inr, All, last?, Bool-cases,
}
use gr4_torchdsp.Prelude.Int.{to_unsigned}
use gr4_torchdsp.Outcome.{ok}
use gr4_torchdsp.Runtime.{Runtime, History, Output, WorkIo, Status, work_ok}
use gr4_torchdsp.Executor.Checked.{in_bufps, out_bufps}
use gr4_torchdsp.Executor.Work.{Exec, is_empty}
use gr4_torchdsp.Executor.Iteration.{run_one_iteration}
use gr4_torchdsp.Executor.Behaved.{Finishes, Wires, Fits, IsWired, IsThere, WellBehaved}
use gr4_torchdsp.Executor.Total.{run_one_iteration-returns}
use gr4_torchdsp.Executor.Order.{InOrder, run_one_iteration-InOrder}
use gr4_torchdsp.Block.Work.{TritonBlock, Surroundings, BlockWork, work}
use gr4_torchdsp.Block.Waiting.{PassesOn, KeepsPorts}
use gr4_torchdsp.Block.Lifetime.{Lifetime, Lifetime-Serves}
use gr4_torchdsp.Block.Serving.{Serves, IsPlugged, work-Serves}
use gr4_torchdsp.Model.Configure.{Model}
use gr4_torchdsp.Model.Interface.{triton_model_impl}

-- Some blocks of the flowgraph are Triton blocks, the last one among them: the runtime's `do_work` on
-- such a block calls `work`, passes on what it returned and whether its request calls back, and leaves
-- the ports with their buffers; the counts of items consumed and produced are the runtime's. The
-- call is made in a state that the block has come to from the one it was made in. That
-- state can serve calls, the client accepts the requests, and `produce_each` changes counts only.
pub record TritonChain (wires : Wires) (rt : Runtime) (first last : ℕ) : Type 0 where
  pub is_triton : ℕ → Bool
  pub block_made : ℕ → TritonBlock Model
  pub block_at : History → ℕ → TritonBlock Model
  pub env_at : History → Surroundings
  pub runs :
      (h : History) (b : ℕ) (io : WorkIo) (w : BlockWork Model)
      → is_triton b ≡ true
      → work (env_at h) (block_at h b) io ≡ ok w
      → PassesOn w (rt.do_work_of h b io) × KeepsPorts w (rt.do_work_of h b io)
  pub lives :
      (h : History) (b : ℕ)
      → is_triton b ≡ true
      → Lifetime (wires b).0 (wires b).1 (block_made b) (block_at h b)
  pub serves : (b : ℕ) → is_triton b ≡ true → Serves (wires b).0 (wires b).1 (block_made b)
  pub plugged : (b : ℕ) → is_triton b ≡ true → IsPlugged (wires b).0 (wires b).1
  pub accepted : (h : History) → (env_at h).accepted ≡ true
  pub produces :
      (h : History) (n : ℕ) (ws : List Output)
      → out_bufps ((env_at h).produce_each n ws) ≡ out_bufps ws
  pub others :
      (h : History) (b : ℕ) (io : WorkIo)
      → is_triton b ≡ false
      → Fits wires b io
      → Finishes (rt.do_work_of h b io).ret × Fits wires b (rt.do_work_of h b io).wio
  pub ends_in_triton : is_triton last ≡ true
  pub async : rt.is_async last ≡ true
  pub divides : rt.output_multiple_set last ≡ true → 0 < to_unsigned (rt.output_multiple last)
  pub has_input : is_empty (wires first).0 ≡ false
  pub has_buffers : (b : ℕ) → All IsThere (wires b).1

module _ (wires : Wires) (rt : Runtime) (first last : ℕ)
    (chain : TritonChain wires rt first last) where
  open chain use {is_triton}

  -- A call of a Triton block at its ports.
  abbrev Turn : History → ℕ → WorkIo → Type 0
  Turn h b io =
      ((rt.do_work_of h b io).ret ≡ work_ok)
      × ((rt.do_work_of h b io).calls_back ≡ true)
      × Fits wires b (rt.do_work_of h b io).wio

  triton_turn :
      (h : History) (b : ℕ) (io : WorkIo) → is_triton b ≡ true → Fits wires b io → Turn h b io
  triton_turn h b io is fits =
      let env = chain.env_at h in
      let (w, n, worked, returned, wio, back, _) =
        work-Serves env (chain.block_at h b) io (wires b).0 (wires b).1 fits
          (Lifetime-Serves (wires b).0 (wires b).1 (chain.serves b is) (chain.plugged b is)
            (chain.lives h b is))
          (chain.plugged b is) in
      let ((same_ret, same_back), (ins, outs)) = chain.runs h b io w is worked in
      (
        same_ret ∙ returned,
        same_back ∙ back ∙ chain.accepted h,
        (
          ins ∙ ap (λ x. in_bufps x.inputs) wio ∙ fits.0,
          outs ∙ ap (λ x. out_bufps x.outputs) wio ∙ chain.produces h n io.outputs ∙ fits.1,
        ),
      )

  has_outputs : (ws : List (Option ℕ)) → 1 ≤ length ws → is_empty ws ≡ false
  has_outputs [] l = absurd (omega (arith, l))
  has_outputs (w ∷ ws) l = refl

  -- A chain that ends in a Triton block behaves as the scheduler asks, if its other blocks do.
  pub TritonChain-WellBehaved : WellBehaved wires rt first last
  TritonChain-WellBehaved = record {
    finishes = λ h b io fits. elim (Bool-cases (is_triton b)) [
      | inl is ↦ rw (triton_turn h b io is fits).0 tt
      | inr other ↦ (chain.others h b io other fits).0
    ];
    async = chain.async;
    calls_back = λ h io fits. (triton_turn h last io chain.ends_in_triton fits).1;
    keeps = λ h b io fits. elim (Bool-cases (is_triton b)) [
      | inl is ↦ (triton_turn h b io is fits).2
      | inr other ↦ (chain.others h b io other fits).1
    ];
    divides = chain.divides;
    has_input = chain.has_input;
    has_output = has_outputs (wires last).1 (chain.plugged last chain.ends_in_triton).1;
    has_buffers = chain.has_buffers;
  }

  -- Every iteration over a flowgraph that ends in a Triton block returns, on one round of fuel for
  -- each block's loop, leaves the ports in place for the next, and has called the work of each block
  -- that is not hierarchical once, in their order, or no work at all, being blocked: if its Triton blocks have
  -- asynchronous models with clients that accept their requests, inputs whose shapes are not empty, a
  -- positive number of items to a batch, ports with buffers for all inputs and outputs of the model, at least two inputs and an
  -- output; the runtime's `do_work` on them passes on what `work` returned and whether its request
  -- calls back, and, as `work` itself, leaves the ports their buffers, whatever it counts as consumed
  -- and produced; the other blocks finish at once and keep their ports; every output of the flowgraph
  -- has a buffer, the first block an input, the last one is asynchronous, and its output multiple, if
  -- set, is not zero.
  pub run_one_iteration-TritonChain :
      (fuel : ℕ) (d_blocks rest : List ℕ) (e : Exec)
      → last? (first ∷ rest) ≡ some last
      → IsWired wires e
      → (s : Status) × (e' : Exec) × (run_one_iteration (suc fuel) rt d_blocks (first ∷ rest) e
          ≡ ok (s, e'))
        × IsWired wires e'
        × InOrder rt (first ∷ rest) e.history s e'
  run_one_iteration-TritonChain fuel d_blocks rest e l wired =
      let (s, e', q, wired') =
        run_one_iteration-returns rt fuel d_blocks first rest last wires e l TritonChain-WellBehaved
          wired in
      (
        s,
        e',
        q,
        wired',
        run_one_iteration-InOrder rt fuel d_blocks first rest last wires e s e' l
            TritonChain-WellBehaved wired q,
      )
