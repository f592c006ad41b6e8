-- ===== src/Executor/Iteration.antt =====
-- graph_executor::run_one_iteration of schedulers/triton/lib/graph_executor.cc. What follows the
-- work calls, lines 255 to 316, and the whole function.
use gr4_torchdsp.Prelude.{
  ℕ, Bool, true, false, ◌&&◌, List, [], ◌∷◌, none, some, ◌==◌, if◌then◌else◌, get_elem?, last?,
}
use gr4_torchdsp.Outcome.{Outcome, ok, at, deref, ◌>>=◌}
use gr4_torchdsp.Runtime.{
  Runtime, History, Input, Output, WorkIo, Status, ready, blkd_in, blkd_out, post_read, post_write,
  notify_output, notify_input, input_blocked_callback, output_blocked_callback,
}
use gr4_torchdsp.Executor.Ports.{check_inputs, check_outputs, s_min_items_to_process}
use gr4_torchdsp.Executor.Work.{Exec, Pass, set_wio, is_empty, run_blocks}

-- lines 257 to 265
unfoldable pub post_reads : List Input → History → History
post_reads [] h = h
post_reads (w ∷ ws) h =
    post_reads ws (elim w.bufp [ none ↦ h | some b ↦ post_read b w.n_consumed ∷ h ])

-- lines 256 to 266
unfoldable pub post_reads_all : (ℕ → WorkIo) → List ℕ → History → History
unfolding post_reads
post_reads_all wio [] h = h
post_reads_all wio (b ∷ bs) h = post_reads_all wio bs (post_reads (wio b).inputs h)

-- lines 268 to 270
unfoldable pub notify_outputs : List Input → History → History
notify_outputs [] h = h
notify_outputs (w ∷ ws) h = notify_outputs ws (notify_output w.port ∷ h)

-- lines 274 to 283: every buffer is told the count of the last block's first output
unfoldable pub post_writes : ℕ → List Output → History → History
post_writes np [] h = h
post_writes np (w ∷ ws) h =
    post_writes np ws (elim w.bufp [ none ↦ h | some b ↦ post_write b np ∷ h ])

unfoldable pub post_writes_all : ℕ → (ℕ → WorkIo) → List ℕ → History → History
unfolding post_writes
post_writes_all np wio [] h = h
post_writes_all np wio (b ∷ bs) h = post_writes_all np wio bs (post_writes np (wio b).outputs h)

-- lines 286 to 288
unfoldable pub notify_inputs : List Output → History → History
notify_inputs [] h = h
notify_inputs (w ∷ ws) h = notify_inputs ws (notify_input w.port ∷ h)

-- lines 255 to 288; `inputs()[0]` and `outputs()[0]` are read whether or not there is one
unfoldable pub finish : List ℕ → ℕ → ℕ → Exec → Outcome Exec
unfolding post_reads_all notify_outputs post_writes_all notify_inputs
finish blocks first last e = at (get_elem? (e.wio first).inputs 0) >>= λ _.
    let h = notify_outputs (e.wio first).inputs (post_reads_all e.wio blocks e.history) in
    at (get_elem? (e.wio last).outputs 0) >>= λ o. ok (record e {
      history = notify_inputs (e.wio last).outputs (post_writes_all o.n_produced e.wio blocks h);
    })

-- lines 297 to 303; `p_buf` is not tested here
unfoldable pub unclog_inputs_of : Runtime → Bool → List Input → History → Outcome History
unclog_inputs_of rt is_first [] h = ok h
unclog_inputs_of rt is_first (w ∷ ws) h = deref w.bufp >>= λ b.
    let kicked = rt.input_blocked_of h b s_min_items_to_process in
    let h' = input_blocked_callback b s_min_items_to_process ∷ h in
    unclog_inputs_of rt is_first ws (if kicked && is_first then notify_output w.port ∷ h' else h')

unfoldable pub unclog_inputs_all : Runtime → ℕ → List ℕ → Exec → Outcome Exec
unfolding unclog_inputs_of
unclog_inputs_all rt first [] e = ok e
unclog_inputs_all rt first (b ∷ bs) e =
    unclog_inputs_of rt (b == first) (e.wio b).inputs e.history >>= λ h.
    unclog_inputs_all rt first bs (record e { history = h })

-- lines 309 to 314
unfoldable pub unclog_outputs_of : Runtime → Bool → List Output → History → Outcome History
unclog_outputs_of rt is_last [] h = ok h
unclog_outputs_of rt is_last (w ∷ ws) h = deref w.bufp >>= λ b.
    let kicked = rt.output_blocked_of h b false in
    let h' = output_blocked_callback b false ∷ h in
    unclog_outputs_of rt is_last ws (if kicked && is_last then notify_input w.port ∷ h' else h')

unfoldable pub unclog_outputs_all : Runtime → ℕ → List ℕ → Exec → Outcome Exec
unfolding unclog_outputs_of
unclog_outputs_all rt last [] e = ok e
unclog_outputs_all rt last (b ∷ bs) e =
    unclog_outputs_of rt (b == last) (e.wio b).outputs e.history >>= λ h.
    unclog_outputs_all rt last bs (record e { history = h })

-- lines 292 to 319
unfoldable pub unclog : Runtime → List ℕ → ℕ → ℕ → Pass → Exec → Outcome (Status × Exec)
unfolding unclog_inputs_all unclog_outputs_all
unclog rt blocks first last p e =
    if p.unclog_inputs
    then (unclog_inputs_all rt first blocks e >>= λ e'. ok (p.status, e'))
    else if p.unclog_outputs
    then (unclog_outputs_all rt last blocks e >>= λ e'. ok (p.status, e'))
    else ok (p.status, e)

abbrev pub fresh_pass : Pass
fresh_pass = record { status = ready; unclog_inputs = false; unclog_outputs = false }

-- lines 149 to 319, once the ports are checked
unfoldable pub work_stage : ℕ → Runtime → List ℕ → ℕ → ℕ → Exec → Outcome (Status × Exec)
work_stage fuel rt blocks first last e =
    run_blocks fuel rt first last blocks fresh_pass e >>= λ (p, e').
    finish blocks first last e' >>= λ e''. unclog rt blocks first last p e''

-- lines 80 to 146, and then the work or the unclogging
unfoldable pub output_stage : ℕ → Runtime → List ℕ → ℕ → ℕ → Exec → Outcome (Status × Exec)
output_stage fuel rt blocks first last e =
    check_outputs rt last (e.wio last).outputs e.history >>= λ (r, outs, h).
    let e' =
      set_wio last (record { inputs = (e.wio last).inputs; outputs = outs })
        (record e { history = h }) in
    if r
    then work_stage fuel rt blocks first last e'
    else unclog rt blocks first last
        (record fresh_pass { status = blkd_out; unclog_outputs = true }) e'

-- lines 36 to 78: an input that is not ready ends the iteration
unfoldable pub input_stage : ℕ → Runtime → List ℕ → ℕ → ℕ → Exec → Outcome (Status × Exec)
input_stage fuel rt blocks first last e =
    let (r, ins, h) = check_inputs rt (e.wio first).inputs e.history in
    let e' =
      set_wio first (record { inputs = ins; outputs = (e.wio first).outputs })
        (record e { history = h }) in
    if r then output_stage fuel rt blocks first last e' else ok (blkd_in, e')

unfoldable pub run_one_iteration : ℕ → Runtime → List ℕ → List ℕ → Exec → Outcome (Status × Exec)
run_one_iteration fuel rt d_blocks given e =
    let blocks = if is_empty given then d_blocks else given in
    at (get_elem? blocks 0) >>= λ first.
    at (last? blocks) >>= λ last. input_stage fuel rt blocks first last e
