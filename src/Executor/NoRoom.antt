-- ===== src/Executor/NoRoom.antt =====
-- Iterations whose inputs are ready and whose last block has no room for its outputs.
use gr4_torchdsp.Prelude.{
  ℕ, ◌<◌, ◌≡◌, sym, true, false, List, ◌∷◌, some, arith, ◌⊎◌, inl, inr, last?,
}
use gr4_torchdsp.Prelude.Int.{to_unsigned}
use gr4_torchdsp.Outcome.{ok}
use gr4_torchdsp.Runtime.{Runtime, History, Event, Output, WorkIo, blkd_out}
use gr4_torchdsp.Trace.{Extends, Extends-trans, Extends-mono}
use gr4_torchdsp.Executor.Ports.{check_inputs, check_outputs}
use gr4_torchdsp.Executor.Work.{Exec, set_wio}
use gr4_torchdsp.Executor.Iteration.{run_one_iteration, input_stage, output_stage, unclog}
use gr4_torchdsp.Executor.Blocked.{InputQuery, check_inputs-queries}
use gr4_torchdsp.Executor.Clogged.{OutputQuery, check_outputs-queries, unclog_outputs_all-queries}
use gr4_torchdsp.Executor.Checked.{check_outputs-ok}
use gr4_torchdsp.Executor.Behaved.{HasBuffers, set_wio-HasBuffers}
use gr4_torchdsp.Executor.Total.{unclog_outputs_all-ok}

abbrev PortQuery : Event → Type 0
PortQuery v = InputQuery v ⊎ OutputQuery v

-- The state once the first block's inputs were found ready.
abbrev after_inputs : Runtime → ℕ → Exec → Exec
after_inputs rt first e =
    let (r, ins, h) = check_inputs rt (e.wio first).inputs e.history in
    set_wio first (record { inputs = ins; outputs = (e.wio first).outputs })
      (record e { history = h })

output_stage-clogged :
    (fuel : ℕ) (rt : Runtime) (blocks : List ℕ) (first last : ℕ) (e : Exec) (outs : List Output)
    (h : History)
    → HasBuffers e
    → (rt.output_multiple_set last ≡ true → 0 < to_unsigned (rt.output_multiple last))
    → check_outputs rt last (e.wio last).outputs e.history ≡ ok (false, outs, h)
    → (e' : Exec) × (output_stage fuel rt blocks first last e ≡ ok (blkd_out, e'))
      × Extends OutputQuery e.history e'.history
      × ((b : ℕ) → (b ≡ last) ⊎ (e'.wio b ≡ e.wio b))
unfolding output_stage unclog
output_stage-clogged fuel rt blocks first last e outs h bufs divides c =
    let (r, outs', h', checked, _, kept, _) =
      check_outputs-ok rt last (e.wio last).outputs e.history divides in
    let same : outs' ≡ outs = cc (checked, c) in
    let io : WorkIo = record { inputs = (e.wio last).inputs; outputs = outs } in
    let e1 = set_wio last io (record e { history = h }) in
    let bufs1 =
      set_wio-HasBuffers last io (record e { history = h }) bufs
        (rw (sym same) (kept (bufs last))) in
    let (e2, run) = unclog_outputs_all-ok rt last blocks e1 bufs1 in
    let (grown, steady) = unclog_outputs_all-queries rt last blocks e1 e2 run in
    let asked = check_outputs-queries rt last (e.wio last).outputs outs false e.history h c in
    (
      e2,
      rw (c, run),
      Extends-trans OutputQuery e.history h e2.history asked grown,
      λ b. rw steady (ground arith),
    )

-- If the first block's inputs are ready and the last block's outputs have no room, the iteration
-- returns BLKD_OUT, provided that all outputs have buffers and the output multiple is not zero. It
-- does no block's work and posts nothing, whatever the fuel: all that it does outside is to ask
-- buffers what can be read or written and for tags, to call `output_blocked_callback` of buffers,
-- and to tell ports that room was made; and it leaves the `work_io` of every block but the first and
-- the last as it was.
run_one_iteration-blkd_out :
    (fuel : ℕ) (rt : Runtime) (d_blocks : List ℕ) (first : ℕ) (rest : List ℕ) (last : ℕ) (e : Exec)
    (outs : List Output) (h : History)
    → last? (first ∷ rest) ≡ some last
    → HasBuffers e
    → (rt.output_multiple_set last ≡ true → 0 < to_unsigned (rt.output_multiple last))
    → (check_inputs rt (e.wio first).inputs e.history).0 ≡ true
    → check_outputs rt last
        ((after_inputs rt first e).wio last).outputs
        (after_inputs rt first e).history
      ≡ ok (false, outs, h)
    → (e' : Exec) × (run_one_iteration fuel rt d_blocks (first ∷ rest) e ≡ ok (blkd_out, e'))
      × Extends PortQuery e.history e'.history
      × ((b : ℕ) → (b ≡ first) ⊎ ((b ≡ last) ⊎ (e'.wio b ≡ e.wio b)))
unfolding run_one_iteration input_stage
run_one_iteration-blkd_out fuel rt d_blocks first rest last e outs h l bufs divides go c =
    let e1 = after_inputs rt first e in
    let io : WorkIo = record {
      inputs = (check_inputs rt (e.wio first).inputs e.history).1;
      outputs = (e.wio first).outputs;
    } in
    let bufs1 =
      set_wio-HasBuffers first io
        (record e { history = (check_inputs rt (e.wio first).inputs e.history).2 }) bufs
        (bufs first) in
    let (e', run, grown, steady) =
      output_stage-clogged fuel rt (first ∷ rest) first last e1 outs h bufs1 divides c in
    let asked = check_inputs-queries rt (e.wio first).inputs e.history in
    (
      e',
      rw (l, go) run,
      Extends-trans PortQuery e.history e1.history e'.history
          (Extends-mono InputQuery PortQuery e.history e1.history (λ v q. inl q) asked)
          (Extends-mono OutputQuery PortQuery e1.history e'.history (λ v q. inr q) grown),
      λ b. let s = steady b in ground (arith),
    )
