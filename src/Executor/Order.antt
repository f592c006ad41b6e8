-- ===== src/Executor/Order.antt =====
-- In which order graph_executor::run_one_iteration, schedulers/triton/lib/graph_executor.cc, calls the
-- blocks' work.
use gr4_torchdsp.Prelude.{
  ℕ, suc, ◌≡◌, sym, ap, ◌∙◌, List, ◌∷◌, ◌++◌, some, ◌⊎◌, inl, inr, last?, Bool-cases,
}
use gr4_torchdsp.Outcome.{ok, >>=-eq-ok, ok-snd, ok-fst}
use gr4_torchdsp.Runtime.{Runtime, History, WorkIo, Status, blkd_in, blkd_out}
use gr4_torchdsp.Trace.{Extends-mono}
use gr4_torchdsp.Executor.Ports.{check_inputs}
use gr4_torchdsp.Executor.Work.{Exec, set_wio, run_blocks}
use gr4_torchdsp.Executor.Iteration.{
  finish, fresh_pass, work_stage, output_stage, input_stage, run_one_iteration,
}
use gr4_torchdsp.Executor.Checked.{check_inputs-bufps, check_outputs-ok}
use gr4_torchdsp.Executor.Behaved.{Wires, IsWired, WellBehaved, set_wio-IsWired}
use gr4_torchdsp.Executor.Total.{run_one_iteration-returns}
use gr4_torchdsp.Executor.Blocked.{InputQuery, check_inputs-queries}
use gr4_torchdsp.Executor.Clogged.{OutputQuery, check_outputs-queries}
use gr4_torchdsp.Executor.Unclogging.{
  Still, unclog-quiet, unclog-status, OutputQuery-Still, InputQuery-Still,
}
use gr4_torchdsp.Executor.Idle.{workers, workers-Still, finish-Idle}
use gr4_torchdsp.Executor.Turns.{streaming, run_blocks-order}

-- No block's work is called and the status says why, or that of each block that is not hierarchical
-- is called once, in the order of the list.
abbrev pub InOrder : Runtime → List ℕ → History → Status → Exec → Type 0
InOrder rt blocks h s e =
    ((workers e.history ≡ workers h) × ((s ≡ blkd_in) ⊎ (s ≡ blkd_out)))
    ⊎ (workers e.history ≡ workers h ++ streaming rt blocks)

module _ (rt : Runtime) (first last : ℕ) (wires : Wires) (good : WellBehaved wires rt first last)
    (fuel : ℕ) (blocks : List ℕ) where
  work_stage-order :
      (e : Exec) (s : Status) (e' : Exec)
      → IsWired wires e
      → work_stage (suc fuel) rt blocks first last e ≡ ok (s, e')
      → workers e'.history ≡ workers e.history ++ streaming rt blocks
  unfolding work_stage
  work_stage-order e s e' wired q =
      let ((p, f), worked, more) =
        >>=-eq-ok (run_blocks (suc fuel) rt first last blocks fresh_pass e) _ q in
      let (g, posted, last_part) = >>=-eq-ok (finish blocks first last f) _ more in
      workers-Still g.history e'.history (unclog-quiet rt blocks first last p g s e' last_part).0
      ∙ finish-Idle blocks first last f g posted
      ∙ run_blocks-order rt first last wires good fuel blocks fresh_pass e p f wired worked

  InOrder-after :
      (h k : History) (s : Status) (e : Exec)
      → workers k ≡ workers h
      → InOrder rt blocks k s e
      → InOrder rt blocks h s e
  InOrder-after h k s e before (inl (none_called, why)) = inl (none_called ∙ before, why)
  InOrder-after h k s e before (inr called) =
      inr (called ∙ ap (λ ws. ws ++ streaming rt blocks) before)

  output_stage-order :
      (e : Exec) (s : Status) (e' : Exec)
      → IsWired wires e
      → output_stage (suc fuel) rt blocks first last e ≡ ok (s, e')
      → InOrder rt blocks e.history s e'
  unfolding output_stage
  output_stage-order e s e' wired q =
      let (r, outs, h, checked, _, _, same) =
        check_outputs-ok rt last (e.wio last).outputs e.history good.divides in
      let io : WorkIo = record { inputs = (e.wio last).inputs; outputs = outs } in
      let f = set_wio last io (record e { history = h }) in
      let wired_f : IsWired wires f =
        set_wio-IsWired wires last io (record e { history = h })
          ((wired last).0, same ∙ (wired last).1) wired in
      let asked = workers-Still e.history h (
        Extends-mono OutputQuery Still e.history h OutputQuery-Still
          (check_outputs-queries rt last (e.wio last).outputs outs r e.history h checked)) in
      InOrder-after e.history h s e' asked (elim (Bool-cases r) [
        | inl go ↦ inr (work_stage-order f s e' wired_f (rw (checked, go) at q))
        | inr stop ↦
            let unclogged = rw (checked, stop) at q in
            inl (
              workers-Still h e'.history (unclog-quiet rt blocks first last _ f s e' unclogged).0,
              inr (unclog-status rt blocks first last _ f s e' unclogged),
            )
      ])

  input_stage-order :
      (e : Exec) (s : Status) (e' : Exec)
      → IsWired wires e
      → input_stage (suc fuel) rt blocks first last e ≡ ok (s, e')
      → InOrder rt blocks e.history s e'
  unfolding input_stage
  input_stage-order e s e' wired q =
      let (r, ins, h) = check_inputs rt (e.wio first).inputs e.history in
      let io : WorkIo = record { inputs = ins; outputs = (e.wio first).outputs } in
      let f = set_wio first io (record e { history = h }) in
      let wired_f : IsWired wires f =
        set_wio-IsWired wires first io (record e { history = h })
          (check_inputs-bufps rt (e.wio first).inputs e.history ∙ (wired first).0, (wired first).1)
          wired in
      let asked = workers-Still e.history h (
        Extends-mono InputQuery Still e.history h InputQuery-Still
          (check_inputs-queries rt (e.wio first).inputs e.history)) in
      InOrder-after e.history h s e' asked (elim (Bool-cases r) [
        | inl go ↦ output_stage-order f s e' wired_f (rw go at q)
        | inr stop ↦
            let stopped = rw stop at q in
            inl (ap (λ x. workers x.history) (sym (ok-snd stopped)), inl (sym (ok-fst stopped)))
      ])

pub run_one_iteration-InOrder :
    (rt : Runtime) (fuel : ℕ) (d_blocks : List ℕ) (first : ℕ) (rest : List ℕ) (last : ℕ)
    (wires : Wires) (e : Exec) (s : Status) (e' : Exec)
    → last? (first ∷ rest) ≡ some last
    → WellBehaved wires rt first last
    → IsWired wires e
    → run_one_iteration (suc fuel) rt d_blocks (first ∷ rest) e ≡ ok (s, e')
    → InOrder rt (first ∷ rest) e.history s e'
unfolding run_one_iteration
run_one_iteration-InOrder rt fuel d_blocks first rest last wires e s e' l good wired q =
    let staged : input_stage (suc fuel) rt (first ∷ rest) first last e ≡ ok (s, e') = rw l at q in
    input_stage-order rt first last wires good fuel (first ∷ rest) e s e' wired staged

-- One round of fuel for each block's loop is enough for an iteration to return, if the blocks behave
-- as the scheduler asks: at the ports of the wiring their work finishes at once with OK or DONE and
-- leaves the ports in place, the last one is asynchronous, its requests call back and its output
-- multiple, if set, is not zero, the first block has an input, the last one an output, all outputs
-- have buffers, and the `work_io` objects are wired. No index is out of range, no null pointer is
-- used and no divisor is zero on the way. The iteration has called the work of each block that is not
-- hierarchical exactly once, in the order of the list, or has called no work at all, and then its
-- status is BLKD_IN or BLKD_OUT; and the next iteration finds the objects wired again.
pub run_one_iteration-order :
    (rt : Runtime) (fuel : ℕ) (d_blocks : List ℕ) (first : ℕ) (rest : List ℕ) (last : ℕ)
    (wires : Wires) (e : Exec)
    → last? (first ∷ rest) ≡ some last
    → WellBehaved wires rt first last
    → IsWired wires e
    → (s : Status) × (e' : Exec) × (run_one_iteration (suc fuel) rt d_blocks (first ∷ rest) e
        ≡ ok (s, e'))
      × InOrder rt (first ∷ rest) e.history s e'
      × IsWired wires e'
run_one_iteration-order rt fuel d_blocks first rest last wires e l good wired =
    let (s, e', q, wired') =
      run_one_iteration-returns rt fuel d_blocks first rest last wires e l good wired in
    (
      s,
      e',
      q,
      run_one_iteration-InOrder rt fuel d_blocks first rest last wires e s e' l good wired q,
      wired',
    )
