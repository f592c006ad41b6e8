-- ===== src/Executor/Returns.antt =====
-- Why the work calls of an iteration over well-behaved blocks return.
use gr4_torchdsp.Prelude.{
  ℕ, suc, ◌≡◌, refl, ap, ◌∙◌, Bool, true, false, List, [], ◌∷◌, some, arith, inl, inr, ◌==◌,
  get_elem?, Bool-cases,
}
use gr4_torchdsp.Outcome.{Outcome, ok}
use gr4_torchdsp.Runtime.{
  Runtime, History, Input, Output, WorkIo, WorkReturn, work_ok, work_done, insufficient_input_items,
  insufficient_output_items, other_return, set_async_callback, callback, do_work,
}
use gr4_torchdsp.Executor.Checked.{in_bufps, out_bufps}
use gr4_torchdsp.Executor.Work.{
  Exec, Pass, settled, is_empty, set_wio, assign_inputs, assign_outputs, after_return,
  await_callback, round, work_loop, prepare, run_block, run_blocks,
}
use gr4_torchdsp.Executor.Behaved.{
  Finishes, WellBehaved, Wires, IsWired, set_wio-IsWired, IsWired-HasPorts,
}

pub get_elem?-first {ℓ} :
    {A : Type ℓ} (xs : List A) → is_empty xs ≡ false → (x : A) × (get_elem? xs 0 ≡ some x)
get_elem?-first [] h = absurd (cc)
get_elem?-first (x ∷ xs) h = (x, refl)

assign_inputs-ok :
    (f : Input) (ws : List Input)
    → (ins : List Input) × (assign_inputs (some f) ws ≡ ok ins) × (in_bufps ins ≡ in_bufps ws)
unfolding assign_inputs
assign_inputs-ok f [] = ([], refl, refl)
assign_inputs-ok f (w ∷ ws) =
    let (ins, q, same) = assign_inputs-ok f ws in
    (record w { n_items = f.n_items; n_consumed = 0 } ∷ ins, rw q refl, ap (◌∷◌ w.bufp) same)

assign_outputs-ok :
    (l : Output) (ws : List Output)
    → (outs : List Output) × (assign_outputs (some l) ws ≡ ok outs)
      × (out_bufps outs ≡ out_bufps ws)
unfolding assign_outputs
assign_outputs-ok l [] = ([], refl, refl)
assign_outputs-ok l (w ∷ ws) =
    let (outs, q, same) = assign_outputs-ok l ws in
    (record w { n_items = l.n_items; n_produced = 0 } ∷ outs, rw q refl, ap (◌∷◌ w.bufp) same)

pub prepare-ok :
    (wires : Wires) (rt : Runtime) (first last : ℕ) (good : WellBehaved wires rt first last) (b : ℕ)
    (e : Exec)
    → IsWired wires e
    → (e' : Exec) × (prepare first last b e ≡ ok e') × IsWired wires e'
unfolding prepare
prepare-ok wires rt first last good b e wired =
    let (f, fq) =
      get_elem?-first (e.wio first).inputs (IsWired-HasPorts wires rt first last good e wired).0 in
    let (ins, iq, kept_inputs) = assign_inputs-ok f (e.wio b).inputs in
    let io1 : WorkIo = record { inputs = ins; outputs = (e.wio b).outputs } in
    let e1 = set_wio b io1 e in
    let wired1 = set_wio-IsWired wires b io1 e (kept_inputs ∙ (wired b).0, (wired b).1) wired in
    let (l, lq) =
      get_elem?-first (e1.wio last).outputs
        (IsWired-HasPorts wires rt first last good e1 wired1).1 in
    let (outs, oq, kept_outputs) = assign_outputs-ok l (e1.wio b).outputs in
    let io : WorkIo = record { inputs = ins; outputs = outs } in
    (
      set_wio b io e1,
      rw (fq, iq, lq, oq),
      set_wio-IsWired wires b io e1 (kept_inputs ∙ (wired b).0, kept_outputs ∙ (wired1 b).1) wired1,
    )

abbrev pub SameFlags : Pass → Pass → Type 0
SameFlags p q = (p.unclog_inputs ≡ q.unclog_inputs) × (p.unclog_outputs ≡ q.unclog_outputs)

after_return-settled :
    (ret : WorkReturn) (io : WorkIo) (p : Pass)
    → Finishes ret
    → (p' : Pass) × (after_return ret io p ≡ settled p') × SameFlags p' p
unfolding after_return
after_return-settled work_ok io p h = (_, refl, (refl, refl))
after_return-settled work_done io p h = (_, refl, (refl, refl))
after_return-settled insufficient_input_items io p h = absurd h
after_return-settled insufficient_output_items io p h = absurd h
after_return-settled (other_return n) io p h = absurd h

await_callback-settled :
    (b : ℕ) (ret : WorkReturn) (io : WorkIo) (c : Bool) (p : Pass) (e : Exec)
    → Finishes ret
    → c ≡ true
    → (p' : Pass) × (await_callback b ret io c p e
        ≡ ok (settled p', record e { history = callback b ∷ e.history }))
      × SameFlags p' p
unfolding await_callback
await_callback-settled b work_ok io true p e h t = (_, refl, (refl, refl))
await_callback-settled b work_done io true p e h t = (_, refl, (refl, refl))
await_callback-settled b work_ok io false p e h t = cc
await_callback-settled b work_done io false p e h t = cc
await_callback-settled b insufficient_input_items io c p e h t = absurd h
await_callback-settled b insufficient_output_items io c p e h t = absurd h
await_callback-settled b (other_return n) io c p e h t = absurd h

module _ (rt : Runtime) (first last : ℕ) (wires : Wires)
    (good : WellBehaved wires rt first last) where
  abbrev TurnReturns : ℕ → Pass → Exec → Type 0
  TurnReturns b p e =
      (p' : Pass) × (e' : Exec) × (round rt last b p e ≡ ok (settled p', e'))
      × IsWired wires e'
      × SameFlags p' p

  worked :
      (h : History) (b : ℕ) (k : History) (e : Exec)
      → IsWired wires e
      → IsWired wires (record (set_wio b (rt.do_work_of h b (e.wio b)).wio e) { history = k })
  worked h b k e wired =
      set_wio-IsWired wires b (rt.do_work_of h b (e.wio b)).wio (record e { history = k })
        (good.keeps h b (e.wio b) (wired b)) wired

  last_turn :
      (b : ℕ) (p : Pass) (e : Exec)
      → b ≡ last
      → (b == last) ≡ true
      → IsWired wires e
      → TurnReturns b p e
  unfolding round
  last_turn b p e same is_last ports =
      let h = set_async_callback b ∷ e.history in
      let r = rt.do_work_of h b (e.wio b) in
      let async : rt.is_async b ≡ true = rw same good.async in
      let calls : r.calls_back ≡ true =
        rw same (good.calls_back (set_async_callback last ∷ e.history) (e.wio last) (ports last)) in
      let (p', q, flags) =
        await_callback-settled b r.ret r.wio r.calls_back p
          (record (set_wio b r.wio e) { history = do_work b ∷ h })
          (good.finishes h b (e.wio b) (ports b)) calls in
      (
        p',
        record (set_wio b r.wio e) { history = callback b ∷ do_work b ∷ h },
        rw (is_last, async, q),
        worked h b (callback b ∷ do_work b ∷ h) e ports,
        flags,
      )

  inner_turn :
      (b : ℕ) (p : Pass) (e : Exec) → (b == last) ≡ false → IsWired wires e → TurnReturns b p e
  unfolding round
  inner_turn b p e inner ports =
      let r = rt.do_work_of e.history b (e.wio b) in
      let (p', q, flags) =
        after_return-settled r.ret r.wio p (good.finishes e.history b (e.wio b) (ports b)) in
      (
        p',
        record (set_wio b r.wio e) { history = do_work b ∷ e.history },
        rw (inner, q),
        worked e.history b (do_work b ∷ e.history) e ports,
        flags,
      )

  abbrev pub RunReturns : Outcome (Pass × Exec) → Pass → Type 0
  RunReturns o p = (p' : Pass) × (e' : Exec) × (o ≡ ok (p', e')) × IsWired wires e' × SameFlags p' p

  pub run_block-ok :
      (fuel b : ℕ) (p : Pass) (e : Exec)
      → IsWired wires e
      → RunReturns (run_block (suc fuel) rt first last b p e) p
  unfolding run_block work_loop
  run_block-ok fuel b p e ports = elim (Bool-cases (rt.is_hier b)) [
    | inl hier ↦ (p, e, rw hier, ports, (refl, refl))
    | inr plain ↦
        let (e1, prepared, ports1) = prepare-ok wires rt first last good b e ports in
        let (p', e', turned, ports', flags) = turn b p e1 ports1 in
        (p', e', rw (plain, prepared, turned), ports', flags)
  ]
    where
      turn : (b : ℕ) (p : Pass) (e : Exec) → IsWired wires e → TurnReturns b p e
      turn b p e h = elim (Bool-cases (b == last)) [
        | inl is_last ↦ last_turn b p e (ground arith) is_last h
        | inr inner ↦ inner_turn b p e inner h
      ]

  pub run_blocks-ok :
      (fuel : ℕ) (bs : List ℕ) (p : Pass) (e : Exec)
      → IsWired wires e
      → RunReturns (run_blocks (suc fuel) rt first last bs p e) p
  unfolding run_blocks
  run_blocks-ok fuel [] p e ports = (p, e, refl, ports, (refl, refl))
  run_blocks-ok fuel (b ∷ bs) p e ports =
      let (p1, e1, one, ports1, flags1) = run_block-ok fuel b p e ports in
      let (p', e', more, ports', flags) = run_blocks-ok fuel bs p1 e1 ports1 in
      (p', e', rw (one, more), ports', (flags.0 ∙ flags1.0, flags.1 ∙ flags1.1))
