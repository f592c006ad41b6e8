-- ===== src/Executor/Turns.antt =====
-- How often the loop over the blocks of graph_executor::run_one_iteration,
-- schedulers/triton/lib/graph_executor.cc, calls each block's work.
use mathlib.Core.List.{append_assoc, append-nil}
use gr4_torchdsp.Prelude.{
  ℕ, zero, suc, ◌≡◌, refl, sym, ap, ◌∙◌, Bool, true, false, List, [], ◌∷◌, ◌++◌, inl, inr, ◌==◌,
  if◌then◌else◌, Bool-cases, subst,
}
use gr4_torchdsp.Outcome.{Outcome, ok, >>=-eq-ok, ok-snd, ok-fst, if_fault-ok}
use gr4_torchdsp.Runtime.{
  Runtime, WorkIo, WorkReturn, work_ok, work_done, insufficient_input_items,
  insufficient_output_items, other_return, set_async_callback,
}
use gr4_torchdsp.Executor.Work.{
  Exec, Pass, Round, settled, again, await_callback, after_return, last_round, inner_round, round,
  work_loop, go_round, run_block, run_blocks,
}
use gr4_torchdsp.Executor.Behaved.{Finishes, Wires, IsWired, WellBehaved}
use gr4_torchdsp.Executor.Returns.{prepare-ok, run_block-ok}
use gr4_torchdsp.Executor.Quiet.{prepare-history}
use gr4_torchdsp.Executor.Idle.{workers}

-- The blocks that are not hierarchical.
unfoldable pub streaming : Runtime → List ℕ → List ℕ
streaming rt [] = []
streaming rt (b ∷ bs) = let rest = streaming rt bs in if rt.is_hier b then rest else b ∷ rest

-- The work of `b` is called once more.
abbrev Calls : ℕ → Exec → Exec → Type 0
Calls b e e' = workers e'.history ≡ workers e.history ++ b ∷ []

await_callback-Calls :
    (b : ℕ) (ret : WorkReturn) (io : WorkIo) (c : Bool) (p : Pass) (e : Exec) (r : Round)
    (e' : Exec)
    → Finishes ret
    → await_callback b ret io c p e ≡ ok (r, e')
    → (workers e'.history ≡ workers e.history) × (p' : Pass) × (r ≡ settled p')
unfolding await_callback after_return
await_callback-Calls b work_ok io true p e r e' f q = (
  ap (λ x. workers x.history) (sym (ok-snd q)) ∙ append-nil (workers e.history),
  _,
  sym (ok-fst q),
)
await_callback-Calls b work_done io true p e r e' f q = (
  ap (λ x. workers x.history) (sym (ok-snd q)) ∙ append-nil (workers e.history),
  _,
  sym (ok-fst q),
)
await_callback-Calls b work_ok io false p e r e' f q = cc
await_callback-Calls b work_done io false p e r e' f q = cc
await_callback-Calls b insufficient_input_items io c p e r e' f q = absurd f
await_callback-Calls b insufficient_output_items io c p e r e' f q = absurd f
await_callback-Calls b (other_return n) io c p e r e' f q = absurd f

after_return-settled :
    (ret : WorkReturn) (io : WorkIo) (p : Pass)
    → Finishes ret
    → (p' : Pass) × (after_return ret io p ≡ settled p')
unfolding after_return
after_return-settled work_ok io p f = (_, refl)
after_return-settled work_done io p f = (_, refl)
after_return-settled insufficient_input_items io p f = absurd f
after_return-settled insufficient_output_items io p f = absurd f
after_return-settled (other_return n) io p f = absurd f

module _ (rt : Runtime) (first last : ℕ) (wires : Wires)
    (good : WellBehaved wires rt first last) where
  round-Calls :
      (b : ℕ) (p : Pass) (e : Exec) (r : Round) (e' : Exec)
      → IsWired wires e
      → round rt last b p e ≡ ok (r, e')
      → Calls b e e' × (p' : Pass) × (r ≡ settled p')
  unfolding round last_round inner_round
  round-Calls b p e r e' wired q = elim (Bool-cases (b == last)) [
    | inl is_last ↦
        let h = set_async_callback b ∷ e.history in
        let w = rt.do_work_of h b (e.wio b) in
        let (waited, p', settles) =
          await_callback-Calls b w.ret w.wio w.calls_back p _ r e'
            (good.finishes h b (e.wio b) (wired b))
            (if_fault-ok (rt.is_async b) _ _ (rw is_last at q)) in
        (waited ∙ ap (λ ws. ws ++ b ∷ []) (append-nil (workers e.history)), p', settles)
    | inr inner ↦
        let made : ok (inner_round rt b p e) ≡ ok (r, e') = rw inner at q in
        let w = rt.do_work_of e.history b (e.wio b) in
        let (p', settles) =
          after_return-settled w.ret w.wio p (good.finishes e.history b (e.wio b) (wired b)) in
        (ap (λ x. workers x.history) (sym (ok-snd made)), p', sym (ok-fst made) ∙ settles)
  ]

  go_round-settled :
      (rest : Pass → Exec → Outcome (Pass × Exec)) (r : Round) (e : Exec) (p p' : Pass) (e' : Exec)
      → r ≡ settled p
      → go_round rest (r, e) ≡ ok (p', e')
      → e ≡ e'
  go_round-settled rest (settled s) e p p' e' m q = ok-snd q
  go_round-settled rest (again s) e p p' e' m q = cc

  work_loop-Calls :
      (fuel b : ℕ) (p : Pass) (e : Exec) (p' : Pass) (e' : Exec)
      → IsWired wires e
      → work_loop fuel rt last b p e ≡ ok (p', e')
      → Calls b e e'
  unfolding work_loop
  work_loop-Calls zero b p e p' e' wired q = cc
  work_loop-Calls (suc fuel) b p e p' e' wired q =
      let ((r, f), one, more) = >>=-eq-ok (round rt last b p e) _ q in
      let (calls, s, settles) = round-Calls b p e r f wired one in
      let same = go_round-settled _ r f s p' e' settles more in
      ap (λ x. workers x.history) (sym same) ∙ calls

  pub run_blocks-order :
      (fuel : ℕ) (bs : List ℕ) (p : Pass) (e : Exec) (p' : Pass) (e' : Exec)
      → IsWired wires e
      → run_blocks (suc fuel) rt first last bs p e ≡ ok (p', e')
      → workers e'.history ≡ workers e.history ++ streaming rt bs
  unfolding run_blocks run_block streaming
  run_blocks-order fuel [] p e p' e' wired q =
      ap (λ x. workers x.history) (sym (ok-snd q)) ∙ sym (append-nil (workers e.history))
  run_blocks-order fuel (b ∷ bs) p e p' e' wired q =
      let ((s, f), one, more) = >>=-eq-ok (run_block (suc fuel) rt first last b p e) _ q in
      let (_, _, returned, wired1, _) = run_block-ok rt first last wires good fuel b p e wired in
      let wired_f = subst (IsWired wires) (ok-snd (sym returned ∙ one)) wired1 in
      let rest = run_blocks-order fuel bs s f p' e' wired_f more in
      elim (Bool-cases (rt.is_hier b)) [
        | inl hier ↦
            let same : e ≡ f = ok-snd (rw (hier, run_block) at one) in
            rw hier (rest ∙ ap (λ x. workers x.history ++ streaming rt bs) (sym same))
        | inr plain ↦
            let (g, prepared, wired_g) = prepare-ok wires rt first last good b e wired in
            let loop : work_loop (suc fuel) rt last b p g ≡ ok (s, f) =
              rw (plain, run_block, prepared) at one in
            let calls = work_loop-Calls (suc fuel) b p g s f wired_g loop in
            rw plain (
              rest
              ∙ ap (λ ws. ws ++ streaming rt bs)
                  (calls
                    ∙ ap (λ h. workers h ++ b ∷ []) (prepare-history first last b e g prepared))
              ∙ append_assoc (workers e.history) (b ∷ []) (streaming rt bs))
      ]
