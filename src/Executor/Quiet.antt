-- ===== src/Executor/Quiet.antt =====
-- The work calls of an iteration, lines 149 to 253 of schedulers/triton/lib/graph_executor.cc: they
-- post nothing.
use gr4_torchdsp.Prelude.{
  ℕ, zero, suc, ◌≡◌, sym, ap, subst, get_elem?, Bool, true, false, List, [], ◌∷◌, ◌==◌, inl, inr,
  Bool-cases,
}
use gr4_torchdsp.Outcome.{Outcome, ok, >>=-eq-ok, ok-snd, ok-injective, if_fault-ok}
use gr4_torchdsp.Runtime.{
  Runtime, WorkIo, WorkReturn, work_ok, work_done, insufficient_input_items,
  insufficient_output_items, other_return, set_async_callback, do_work, callback,
}
use gr4_torchdsp.Trace.{Extends, Extends-refl, Extends-one, Extends-trans, Extends-cons}
use gr4_torchdsp.Executor.Work.{
  Exec, set_wio, Pass, Round, settled, again, await_callback, last_round, inner_round, round,
  work_loop, go_round, prepare, run_block, run_blocks, assign_inputs, assign_outputs,
}
use gr4_torchdsp.Executor.Totals.{Silent}

abbrev pub Grows : Exec → Exec → Type 0
Grows e e' = Extends Silent e.history e'.history

await_callback-Grows :
    (b : ℕ) (ret : WorkReturn) (io : WorkIo) (c : Bool) (p : Pass) (e : Exec) (r : Round)
    (e' : Exec)
    → await_callback b ret io c p e ≡ ok (r, e')
    → Grows e e'
unfolding await_callback
await_callback-Grows b work_ok io true p e r e' q =
    rw (sym (ok-snd q)) (Extends-one Silent (callback b) e.history tt)
await_callback-Grows b work_done io true p e r e' q =
    rw (sym (ok-snd q)) (Extends-one Silent (callback b) e.history tt)
await_callback-Grows b work_ok io false p e r e' q = cc
await_callback-Grows b work_done io false p e r e' q = cc
await_callback-Grows b insufficient_input_items io c p e r e' q =
    rw (sym (ok-snd q)) (Extends-refl Silent e.history)
await_callback-Grows b insufficient_output_items io c p e r e' q =
    rw (sym (ok-snd q)) (Extends-refl Silent e.history)
await_callback-Grows b (other_return n) io c p e r e' q =
    rw (sym (ok-snd q)) (Extends-refl Silent e.history)

last_round-Grows :
    (rt : Runtime) (b : ℕ) (p : Pass) (e : Exec) (r : Round) (e' : Exec)
    → last_round rt b p e ≡ ok (r, e')
    → Grows e e'
unfolding last_round
last_round-Grows rt b p e r e' q =
    let h = set_async_callback b ∷ e.history in
    let w = rt.do_work_of h b (e.wio b) in
    Extends-trans Silent e.history (do_work b ∷ h) e'.history
      (Extends-cons Silent (do_work b) e.history h tt
        (Extends-one Silent (set_async_callback b) e.history tt))
      (await_callback-Grows b w.ret w.wio w.calls_back p _ r e' (if_fault-ok (rt.is_async b) _ _ q))

round-Grows :
    (rt : Runtime) (last b : ℕ) (p : Pass) (e : Exec) (r : Round) (e' : Exec)
    → round rt last b p e ≡ ok (r, e')
    → Grows e e'
unfolding round inner_round
round-Grows rt last b p e r e' q = elim (Bool-cases (b == last)) [
  | inl is_last ↦ last_round-Grows rt b p e r e' (rw is_last at q)
  | inr inner ↦
      let made : ok (inner_round rt b p e) ≡ ok (r, e') = rw inner at q in
      rw (sym (ok-snd made)) (Extends-one Silent (do_work b) e.history tt)
]

go_round-Grows :
    (rest : Pass → Exec → Outcome (Pass × Exec)) (r : Round) (e : Exec) (p' : Pass) (e' : Exec)
    → ((p : Pass) → rest p e ≡ ok (p', e') → Grows e e')
    → go_round rest (r, e) ≡ ok (p', e')
    → Grows e e'
go_round-Grows rest (settled p) e p' e' more q = rw (sym (ok-snd q)) (Extends-refl Silent e.history)
go_round-Grows rest (again p) e p' e' more q = more p q

work_loop-Grows :
    (fuel : ℕ) (rt : Runtime) (last b : ℕ) (p : Pass) (e : Exec) (p' : Pass) (e' : Exec)
    → work_loop fuel rt last b p e ≡ ok (p', e')
    → Grows e e'
unfolding work_loop
work_loop-Grows zero rt last b p e p' e' q = cc
work_loop-Grows (suc fuel) rt last b p e p' e' q =
    let ((r, f), one, more) = >>=-eq-ok (round rt last b p e) _ q in
    Extends-trans Silent e.history f.history e'.history (round-Grows rt last b p e r f one)
      (go_round-Grows _ r f p' e' (λ s. work_loop-Grows fuel rt last b s f p' e') more)

-- The counts are reset without a call.
pub prepare-history :
    (first last b : ℕ) (e e' : Exec) → prepare first last b e ≡ ok e' → e'.history ≡ e.history
unfolding prepare
prepare-history first last b e e' q =
    let (ins, _, q1) =
      >>=-eq-ok (assign_inputs (get_elem? (e.wio first).inputs 0) (e.wio b).inputs) _ q in
    let f = set_wio b (record { inputs = ins; outputs = (e.wio b).outputs }) e in
    let (outs, _, q2) =
      >>=-eq-ok (assign_outputs (get_elem? (f.wio last).outputs 0) (f.wio b).outputs) _ q1 in
    ap (λ x. x.history) (sym (ok-injective q2))

Grows-same :
    {A : Type 0} (p p' : A) (e e' : Exec)
    → ◌≡◌ {A = Outcome (A × Exec)} (ok (p, e)) (ok (p', e'))
    → Grows e e' × (e'.wio ≡ e.wio)
Grows-same p p' e e' q =
    let same : e ≡ e' = ok-snd q in
    (subst (Grows e) same (Extends-refl Silent e.history), ap (λ x. x.wio) (sym same))

run_block-Grows :
    (fuel : ℕ) (rt : Runtime) (first last b : ℕ) (p : Pass) (e : Exec) (p' : Pass) (e' : Exec)
    → run_block fuel rt first last b p e ≡ ok (p', e')
    → Grows e e'
unfolding run_block
run_block-Grows fuel rt first last b p e p' e' q = elim (Bool-cases (rt.is_hier b)) [
  | inl hier ↦ (Grows-same p p' e e' (rw hier at q)).0
  | inr plain ↦
      let (f, one, more) =
        >>=-eq-ok (prepare first last b e) (work_loop fuel rt last b p) (rw plain at q) in
      rw (sym (prepare-history first last b e f one))
        (work_loop-Grows fuel rt last b p f p' e' more)
]

pub run_blocks-Grows :
    (fuel : ℕ) (rt : Runtime) (first last : ℕ) (bs : List ℕ) (p : Pass) (e : Exec) (p' : Pass)
    (e' : Exec)
    → run_blocks fuel rt first last bs p e ≡ ok (p', e')
    → Grows e e'
unfolding run_blocks
run_blocks-Grows fuel rt first last [] p e p' e' q =
    rw (sym (ok-snd q)) (Extends-refl Silent e.history)
run_blocks-Grows fuel rt first last (b ∷ bs) p e p' e' q =
    let ((s, f), one, more) = >>=-eq-ok (run_block fuel rt first last b p e) _ q in
    Extends-trans Silent e.history f.history e'.history
      (run_block-Grows fuel rt first last b p e s f one)
      (run_blocks-Grows fuel rt first last bs s f p' e' more)
