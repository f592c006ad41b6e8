-- ===== src/Executor/Clogged.antt =====
-- Iterations whose last block has no room for its outputs.
use gr4_torchdsp.Prelude.{
  ℕ, ◌≡◌, refl, Bool, true, false, List, [], ◌∷◌, Option, none, some, arith, if_ind, ◌==◌, ◌&&◌,
}
use gr4_torchdsp.Outcome.{Outcome, ok, >>=-eq-ok, deref}
use gr4_torchdsp.Runtime.{
  Runtime, History, Event, Output, write_info, output_blocked_callback, notify_input,
}
use gr4_torchdsp.Trace.{Extends, Extends-refl, Extends-one, Extends-trans, Extends-cons}
use gr4_torchdsp.Executor.Ports.{check_output, check_outputs, resume_outputs}
use gr4_torchdsp.Executor.Work.{Exec}
use gr4_torchdsp.Executor.Iteration.{unclog_outputs_of, unclog_outputs_all}

-- A question to an output's buffer, or the message that room was made.
abbrev pub OutputQuery : Event → Type 0
OutputQuery (write_info b) = Unit
OutputQuery (output_blocked_callback b f) = Unit
OutputQuery (notify_input p) = Unit
OutputQuery _ = ⊥

pub check_output-queries :
    (rt : Runtime) (last : ℕ) (w w' : Output) (r : Bool) (h h' : History) (o : Option ℕ)
    → w.bufp ≡ o
    → check_output rt last w h ≡ ok (r, w', h')
    → Extends OutputQuery h h'
unfolding check_output
check_output-queries rt last w w' r h h' none e q =
    let same : h' ≡ h = ground arith in rw same (Extends-refl OutputQuery h)
check_output-queries rt last w w' r h h' (some b) e q =
    let asked : h' ≡ write_info b ∷ h = ground arith in
    rw asked (Extends-one OutputQuery (write_info b) h tt)

resume_outputs-queries :
    (ws ws' : List Output) (rest : History → Outcome (Bool × List Output × History)) (r r' : Bool)
    (w : Output) (a h h' : History)
    → Extends OutputQuery a h
    → ((s : Bool) (us : List Output) (k : History)
        → rest h ≡ ok (s, us, k)
        → Extends OutputQuery h k)
    → resume_outputs ws rest (r, w, h) ≡ ok (r', ws', h')
    → Extends OutputQuery a h'
resume_outputs-queries ws ws' rest true r' w a h h' one more q =
    let ((s, us, k), first, second) = >>=-eq-ok (rest h) _ q in
    let same : h' ≡ k = ground arith in
    rw same (Extends-trans OutputQuery a h k one (more s us k first))
resume_outputs-queries ws ws' rest false r' w a h h' one more q =
    let same : h' ≡ h = ground arith in rw same one

pub check_outputs-queries :
    (rt : Runtime) (last : ℕ) (ws ws' : List Output) (r : Bool) (h h' : History)
    → check_outputs rt last ws h ≡ ok (r, ws', h')
    → Extends OutputQuery h h'
unfolding check_outputs
check_outputs-queries rt last [] ws' r h h' q =
    let same : h' ≡ h = ground arith in rw same (Extends-refl OutputQuery h)
check_outputs-queries rt last (w ∷ ws) ws' r h h' q =
    let (p, first, second) = >>=-eq-ok (check_output rt last w h) _ q in
    resume_outputs-queries ws ws' (check_outputs rt last ws) p.0 r p.1 h p.2 h'
      (check_output-queries rt last w p.1 p.0 h p.2 w.bufp refl first)
      (λ s us k m. check_outputs-queries rt last ws us s p.2 k m) second

unclog_outputs_of-queries :
    (rt : Runtime) (is_last : Bool) (ws : List Output) (h h' : History)
    → unclog_outputs_of rt is_last ws h ≡ ok h'
    → Extends OutputQuery h h'
unfolding unclog_outputs_of
unclog_outputs_of-queries rt is_last [] h h' q =
    let same : h' ≡ h = ground arith in rw same (Extends-refl OutputQuery h)
unclog_outputs_of-queries rt is_last (w ∷ ws) h h' q =
    let (b, _, second) = >>=-eq-ok (deref w.bufp) _ q in
    let called = output_blocked_callback b false ∷ h in
    let told = Extends-one OutputQuery (output_blocked_callback b false) h tt in
    Extends-trans OutputQuery h _ h'
      (if_ind (Extends OutputQuery h) (rt.output_blocked_of h b false && is_last)
        (notify_input w.port ∷ called) called
        (Extends-cons OutputQuery (notify_input w.port) h called tt told) told)
      (unclog_outputs_of-queries rt is_last ws _ h' second)

pub unclog_outputs_all-queries :
    (rt : Runtime) (last : ℕ) (bs : List ℕ) (e e' : Exec)
    → unclog_outputs_all rt last bs e ≡ ok e'
    → Extends OutputQuery e.history e'.history × (e'.wio ≡ e.wio)
unfolding unclog_outputs_all
unclog_outputs_all-queries rt last [] e e' q =
    let same : e' ≡ e = ground arith in rw same (Extends-refl OutputQuery e.history, refl)
unclog_outputs_all-queries rt last (b ∷ bs) e e' q =
    let (h, first, second) =
      >>=-eq-ok (unclog_outputs_of rt (b == last) (e.wio b).outputs e.history) _ q in
    let (grown, kept) =
      unclog_outputs_all-queries rt last bs (record e { history = h }) e' second in
    let one = unclog_outputs_of-queries rt (b == last) (e.wio b).outputs e.history h first in
    (Extends-trans OutputQuery e.history h e'.history one grown, kept)
