-- ===== src/Block/Waiting.antt =====
-- triton_block_triton as the last block of a chain: its work, from
-- blocklib/torchdsp/triton_block/triton_block_triton.cc, in the loop of
-- schedulers/triton/lib/graph_executor.cc that waits for the request's callback.
use gr4_torchdsp.Prelude.{
  ℕ, suc, ◌≡◌, refl, sym, ap, ◌∙◌, List, [], ◌∷◌, Option, get_elem?, some, Bool, true, false, ◌&&◌,
  inl, eqb_refl, if◌then◌else◌,
}
use gr4_torchdsp.Outcome.{
  ok, fault, blocked_forever, null_pointer, at, deref, Holds, Holds->>=, Holds-seq, Holds-ok,
}
use gr4_torchdsp.Runtime.{
  Runtime, Work, WorkIo, Input, work_ok, set_async_callback, do_work, callback, ready,
}
use gr4_torchdsp.Executor.Work.{
  Exec, Pass, work_loop, round, last_round, await_callback, after_return, is_dry_source, is_empty,
  set_wio, settled,
}
use gr4_torchdsp.Executor.Checked.{in_bufps, out_bufps}
use gr4_torchdsp.Executor.Behaved.{in_bufps-is_empty}
use gr4_torchdsp.Executor.Loops.{work_loop-no_callback}
use gr4_torchdsp.Model.Infer.{
  BufferView, prepare_inputs, prepare_outputs, infer_batch_zerocopy, read_async,
}
use gr4_torchdsp.Prelude.Int.{to_size}
use gr4_torchdsp.Model.Configure.{Model}
use gr4_torchdsp.Model.Requests.{calls_back-and}
use gr4_torchdsp.Block.Work.{TritonBlock, Surroundings, BlockWork, work, div_size, items_per_batch}
use gr4_torchdsp.Model.Interface.{triton_model_impl}

-- What the runtime's `do_work`, which calls the block's `work` and then settles the items that were
-- consumed and produced, passes on of it: the value returned, and that the request calls back.
abbrev pub PassesOn : BlockWork Model → Work → Type 0
PassesOn w r = (r.ret ≡ w.ret) × (r.calls_back ≡ w.request.calls_back)

-- Its counts are its own, but the ports keep their buffers.
abbrev pub KeepsPorts : BlockWork Model → Work → Type 0
KeepsPorts w r =
    (in_bufps r.wio.inputs ≡ in_bufps w.wio.inputs)
    × (out_bufps r.wio.outputs ≡ out_bufps w.wio.outputs)

-- What a work that returned has done.
abbrev Worked : Surroundings → WorkIo → Bool → BlockWork Model → Type 0
Worked env wio async w =
    (w.ret ≡ work_ok)
    × (w.wio.inputs ≡ wio.inputs)
    × (w.request.calls_back ≡ (async && env.accepted))
    × (is_empty wio.inputs ≡ false)

infer-calls_back :
    (o : Model) (ins outs : List (Option BufferView)) (batch_size : ℕ) (accepted async : Bool)
    → o.async ≡ some async
    → Holds
        (λ r. r.1.calls_back ≡ (async && accepted))
        (infer_batch_zerocopy o ins outs batch_size accepted)
unfolding infer_batch_zerocopy read_async
infer-calls_back o ins outs batch_size accepted async e =
    Holds->>= _ (prepare_inputs batch_size o.input_ptrs 0 ins) _ (λ is.
      Holds->>= _ (prepare_outputs o.output_ptrs 0 outs) _
        (λ os. rw e (Holds->>= _ (deref o.client) _ (λ c. calls_back-and async accepted))))

read_input : (ws : List Input) → Holds (λ w. is_empty ws ≡ false) (at (get_elem? ws 0))
read_input [] = tt
read_input (w ∷ ws) = refl

work-Worked :
    (env : Surroundings) (b : TritonBlock Model) (wio : WorkIo) (async : Bool)
    → b.model.async ≡ some async
    → Holds (Worked env wio async) (work env b wio)
unfolding work
work-Worked env b wio async a = Holds->>= _ (at (get_elem? wio.outputs 0)) _ (λ out.
    Holds-seq _ _ (at (get_elem? wio.inputs 0)) _ (read_input wio.inputs) (λ in1 some_input.
      Holds->>= _ (at (get_elem? wio.inputs 1)) _ (λ in2.
        Holds->>= _ (items_per_batch b.model) _ (λ per.
          Holds->>= _ (div_size out.n_items (to_size per)) _ (λ batch.
            Holds-seq _ _ (infer_batch_zerocopy b.model _ _ batch env.accepted) _
              (infer-calls_back b.model _ _ batch env.accepted async a)
              (λ r back. (refl, refl, back, some_input)))))))

module _ (env : Surroundings) (b : TritonBlock Model) (rt : Runtime) (last fuel : ℕ) (p : Pass)
    (e : Exec) (w : BlockWork Model) where
  -- When the last block of the chain is a Triton block whose model is not asynchronous, its work
  -- returns, and the runtime passes on what it returned and whether its request calls back, the executor waits for ever for a callback that the request was never given.
  pub work_loop-synchronous :
      b.model.async ≡ some false
      → work env b (e.wio last) ≡ ok w
      → PassesOn w (rt.do_work_of (set_async_callback last ∷ e.history) last (e.wio last))
      → rt.is_async last ≡ true
      → work_loop (suc fuel) rt last last p e ≡ fault blocked_forever
  work_loop-synchronous a worked (same_ret, same_back) is_async =
      let (returned, _, back, _) =
        Holds-ok (Worked env (e.wio last) false) worked (work-Worked env b (e.wio last) false a) in
      work_loop-no_callback fuel rt last p e _ refl (inl (same_ret ∙ returned)) (same_back ∙ back)
      ∙ ap (λ t. fault (if t then blocked_forever else null_pointer)) is_async

  -- With an asynchronous model whose request the client accepts, the loop of the last block ends in
  -- its first round, with what the runtime left at its ports, and the status READY.
  pub work_loop-triton_block :
      b.model.async ≡ some true
      → env.accepted ≡ true
      → work env b (e.wio last) ≡ ok w
      → PassesOn w (rt.do_work_of (set_async_callback last ∷ e.history) last (e.wio last))
      → KeepsPorts w (rt.do_work_of (set_async_callback last ∷ e.history) last (e.wio last))
      → rt.is_async last ≡ true
      → (e' : Exec) × (work_loop (suc fuel) rt last last p e ≡ ok (record p { status = ready }, e'))
        × (e'.wio last
            ≡ (rt.do_work_of (set_async_callback last ∷ e.history) last (e.wio last)).wio)
  unfolding work_loop round last_round await_callback after_return is_dry_source
  work_loop-triton_block a accepted worked (same_ret, same_back) (ins, outs) is_async =
      let (returned, kept, back, some_input) =
        Holds-ok (Worked env (e.wio last) true) worked (work-Worked env b (e.wio last) true a) in
      let r = rt.do_work_of (set_async_callback last ∷ e.history) last (e.wio last) in
      let has_input : is_empty r.wio.inputs ≡ false =
        sym (in_bufps-is_empty r.wio.inputs)
        ∙ ap is_empty ins
        ∙ in_bufps-is_empty w.wio.inputs
        ∙ ap is_empty kept
        ∙ some_input in
      let e' : Exec = record (set_wio last r.wio e) {
        history = callback last ∷ do_work last ∷ set_async_callback last ∷ e.history;
      } in
      let turn : round rt last last p e ≡ ok (settled (record p { status = ready }), e') =
        rw (eqb_refl last) (
          rw (is_async, same_ret, same_back) (rw (returned, back, accepted) (rw has_input refl))) in
      (e', rw turn refl, rw (eqb_refl last) refl)
