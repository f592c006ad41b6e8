-- ===== src/Block/Lifetime.antt =====
-- The states that a Triton block comes to by the calls of its methods,
-- blocklib/torchdsp/triton_block/triton_block_triton.cc and .h.
use gr4_torchdsp.Prelude.{ℕ, ◌≡◌, sym, subst, ◌∙◌, List, Option}
use gr4_torchdsp.Outcome.{ok, ok-injective}
use gr4_torchdsp.Runtime.{WorkIo}
use gr4_torchdsp.Executor.Checked.{in_bufps, out_bufps}
use gr4_torchdsp.Block.Work.{TritonBlock, Surroundings, BlockWork, set_async_callback, work}
use gr4_torchdsp.Block.Serving.{Serves, IsPlugged, work-Serves}
use gr4_torchdsp.Model.Configure.{Model}
use gr4_torchdsp.Model.Interface.{TritonModel, triton_model_impl}

-- From the state `start` on: calls of `set_async_callback`, and calls of `work` that returned, each
-- in surroundings of its own, at ports with the buffers `ins` and `outs`.
pub data Lifetime {M : Type 0} ⦃t : TritonModel M⦄ (ins outs : List (Option ℕ))
    (start : TritonBlock M) : TritonBlock M → Type 0 where
  made : Lifetime ins outs start start
  told :
      {b b' : TritonBlock M}
      → Lifetime ins outs start b
      → (cb : ℕ) → set_async_callback cb b ≡ b'
      → Lifetime ins outs start b'
  worked :
      {b b' : TritonBlock M}
      → Lifetime ins outs start b
      → (env : Surroundings) (io : WorkIo) (w : BlockWork M)
      → (in_bufps io.inputs ≡ ins) × (out_bufps io.outputs ≡ outs)
      → work env b io ≡ ok w
      → w.block ≡ b'
      → Lifetime ins outs start b'

set_async_callback-Serves :
    (ins outs : List (Option ℕ)) (cb : ℕ) (b : TritonBlock Model)
    → Serves ins outs b
    → Serves ins outs (set_async_callback cb b)
unfolding set_async_callback
set_async_callback-Serves ins outs cb b s = record {
  per = s.per;
  per_batch = s.per_batch;
  positive = s.positive;
  async = s.async;
  connected = s.connected;
  shapes = s.shapes;
  enough_inputs = s.enough_inputs;
  enough_outputs = s.enough_outputs;
}

-- A block that can serve calls goes on serving them.
pub Lifetime-Serves :
    (ins outs : List (Option ℕ)) {start b : TritonBlock Model}
    → Serves ins outs start
    → IsPlugged ins outs
    → Lifetime ins outs start b
    → Serves ins outs b
Lifetime-Serves ins outs s p made = s
Lifetime-Serves ins outs s p (told {b} life cb e) =
    subst (Serves ins outs) e
      (set_async_callback-Serves ins outs cb b (Lifetime-Serves ins outs s p life))
Lifetime-Serves ins outs s p (worked {b} life env io w fits returned e) =
    let (v, n, served, _, _, _, serves) =
      work-Serves env b io ins outs fits (Lifetime-Serves ins outs s p life) p in
    let same : v ≡ w = ok-injective (sym served ∙ returned) in
    subst (Serves ins outs) e (subst (λ x. Serves ins outs x.block) same serves)
