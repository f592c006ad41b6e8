-- ===== src/Executor/Total.antt =====
-- Every iteration over blocks as the scheduler wants them returns.
use gr4_torchdsp.Prelude.{
  ℕ, suc, ◌≡◌, refl, ◌∙◌, Bool, false, List, [], ◌∷◌, some, inl, inr, ◌==◌, ◌&&◌, if◌then◌else◌,
  last?, All, Bool-cases, Option-cases,
}
use gr4_torchdsp.Outcome.{Outcome, ok}
use gr4_torchdsp.Runtime.{
  Runtime, History, Output, WorkIo, output_blocked_callback, notify_input, Status, blkd_out,
  blkd_in,
}
use gr4_torchdsp.Executor.Ports.{check_inputs}
use gr4_torchdsp.Executor.Checked.{HasBuffer, check_inputs-bufps, check_outputs-ok}
use gr4_torchdsp.Executor.Behaved.{
  WellBehaved, Wires, Fits, IsWired, HasPorts, HasBuffers, set_wio-IsWired, IsWired-HasPorts,
  IsWired-HasBuffers,
}
use gr4_torchdsp.Executor.Returns.{get_elem?-first, run_blocks-ok}
use gr4_torchdsp.Executor.Clogged.{unclog_outputs_all-queries}
use gr4_torchdsp.Executor.Work.{Exec, set_wio}
use gr4_torchdsp.Executor.Iteration.{
  finish, post_reads_all, notify_outputs, post_writes_all, notify_inputs, fresh_pass, unclog,
  unclog_outputs_of, unclog_outputs_all, work_stage, output_stage, input_stage, run_one_iteration,
}

finish-ok :
    (bs : List ℕ) (first last : ℕ) (e : Exec)
    → HasPorts first last e
    → (e' : Exec) × (finish bs first last e ≡ ok e') × (e'.wio ≡ e.wio)
unfolding finish
finish-ok bs first last e ports =
    let (i, iq) = get_elem?-first (e.wio first).inputs ports.0 in
    let (o, oq) = get_elem?-first (e.wio last).outputs ports.1 in
    let read = notify_outputs (e.wio first).inputs (post_reads_all e.wio bs e.history) in
    let written = post_writes_all o.n_produced e.wio bs read in
    (record e { history = notify_inputs (e.wio last).outputs written }, rw (iq, oq), refl)

unclog_outputs_of-ok :
    (rt : Runtime) (is_last : Bool) (ws : List Output) (h : History)
    → All HasBuffer ws
    → (h' : History) × (unclog_outputs_of rt is_last ws h ≡ ok h')
unfolding unclog_outputs_of
unclog_outputs_of-ok rt is_last [] h bufs = (h, refl)
unclog_outputs_of-ok rt is_last (w ∷ ws) h bufs = elim (Option-cases w.bufp) [
  | inl null ↦ absurd (bufs.0 null)
  | inr (b, q) ↦
      let called = output_blocked_callback b false ∷ h in
      let (h', run) =
        unclog_outputs_of-ok rt is_last ws
          (if rt.output_blocked_of h b false && is_last
            then notify_input w.port ∷ called
            else called)
          bufs.1 in
      (h', rw q run)
]

pub unclog_outputs_all-ok :
    (rt : Runtime) (last : ℕ) (bs : List ℕ) (e : Exec)
    → HasBuffers e
    → (e' : Exec) × (unclog_outputs_all rt last bs e ≡ ok e')
unfolding unclog_outputs_all
unclog_outputs_all-ok rt last [] e bufs = (e, refl)
unclog_outputs_all-ok rt last (b ∷ bs) e bufs =
    let (h, one) = unclog_outputs_of-ok rt (b == last) (e.wio b).outputs e.history (bufs b) in
    let (e', more) = unclog_outputs_all-ok rt last bs (record e { history = h }) bufs in
    (e', rw one more)

-- A call that returns, and leaves ports and buffers in place.
abbrev Returned : Wires → Outcome (Status × Exec) → Type 0
Returned wires o = (s : Status) × (e' : Exec) × (o ≡ ok (s, e')) × IsWired wires e'

module _ (rt : Runtime) (first last : ℕ) (wires : Wires) (good : WellBehaved wires rt first last)
    (fuel : ℕ) (bs : List ℕ) where
  work_stage-ok :
      (e : Exec) → IsWired wires e → Returned wires (work_stage (suc fuel) rt bs first last e)
  unfolding work_stage unclog
  work_stage-ok e sound =
      let (p, e1, worked, sound1, flags) =
        run_blocks-ok rt first last wires good fuel bs fresh_pass e sound in
      let (e2, finished, same) =
        finish-ok bs first last e1 (IsWired-HasPorts wires rt first last good e1 sound1) in
      (p.status, e2, rw (worked, finished, flags.0, flags.1), rw same sound1)

  output_stage-ok :
      (e : Exec) → IsWired wires e → Returned wires (output_stage (suc fuel) rt bs first last e)
  unfolding output_stage unclog
  output_stage-ok e sound =
      let (r, outs, h, checked, _, _, same) =
        check_outputs-ok rt last (e.wio last).outputs e.history good.divides in
      let io : WorkIo = record { inputs = (e.wio last).inputs; outputs = outs } in
      let e1 = record e { history = h } in
      let sound1 = set_wio-IsWired wires last io e1 ((sound last).0, same ∙ (sound last).1) sound in
      elim (Bool-cases r) [
        | inl go ↦
            let (s, e', run, sound') = work_stage-ok (set_wio last io e1) sound1 in
            (s, e', rw (checked, go) run, sound')
        | inr stop ↦
            let (e', run) =
              unclog_outputs_all-ok rt last bs (set_wio last io e1)
                (IsWired-HasBuffers wires rt first last good (set_wio last io e1) sound1) in
            let (_, same) = unclog_outputs_all-queries rt last bs (set_wio last io e1) e' run in
            (blkd_out, e', rw (checked, stop, run), rw same sound1)
      ]

-- The iteration returns on one round of fuel for each block's loop, if the blocks behave as the
-- scheduler asks (at the ports of the wiring their work finishes at once with OK or DONE and leaves
-- the ports in place, the last one is asynchronous, its requests call back and its output multiple,
-- if set, is not zero), the first block has an input, the last one an output, all outputs have
-- buffers, and the `work_io` objects are wired. No index is out of range, no null pointer is used and
-- no divisor is zero on the way, and the next iteration finds them wired again.
pub run_one_iteration-returns :
    (rt : Runtime) (fuel : ℕ) (d_blocks : List ℕ) (first : ℕ) (rest : List ℕ) (last : ℕ)
    (wires : Wires) (e : Exec)
    → last? (first ∷ rest) ≡ some last
    → WellBehaved wires rt first last
    → IsWired wires e
    → (s : Status) × (e' : Exec) × (run_one_iteration (suc fuel) rt d_blocks (first ∷ rest) e
        ≡ ok (s, e'))
      × IsWired wires e'
unfolding run_one_iteration input_stage
run_one_iteration-returns rt fuel d_blocks first rest last wires e l good sound =
    let (r, ins, h) = check_inputs rt (e.wio first).inputs e.history in
    let io : WorkIo = record { inputs = ins; outputs = (e.wio first).outputs } in
    let e1 = record e { history = h } in
    let fits : Fits wires first io =
      (check_inputs-bufps rt (e.wio first).inputs e.history ∙ (sound first).0, (sound first).1) in
    let sound1 = set_wio-IsWired wires first io e1 fits sound in
    elim (Bool-cases (check_inputs rt (e.wio first).inputs e.history).0) [
      | inl go ↦
          let (s, e', run, sound') =
            output_stage-ok rt first last wires good fuel (first ∷ rest) (set_wio first io e1)
              sound1 in
          (s, e', rw (l, go) run, sound')
      | inr stop ↦ (blkd_in, set_wio first io e1, rw (l, stop), sound1)
    ]
