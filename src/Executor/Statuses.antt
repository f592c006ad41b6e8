-- ===== src/Executor/Statuses.antt =====
-- Which block decides the status that an iteration returns.
use gr4_torchdsp.Prelude.{
  ℕ, zero, suc, ◌≡◌, refl, ◌∙◌, Bool, true, false, List, [], ◌∷◌, ◌++◌, arith, inl, inr, Bool-cases,
  ◌==◌,
}
use gr4_torchdsp.Outcome.{Outcome, ok, fault, ◌>>=◌, >>=-eq-ok}
use gr4_torchdsp.Runtime.{
  Runtime, WorkIo, WorkReturn, work_ok, work_done, insufficient_input_items,
  insufficient_output_items, other_return,
}
use gr4_torchdsp.Executor.Work.{
  Exec, Pass, Round, settled, again, after_return, await_callback, last_round, round, go_round,
  work_loop, prepare, run_block, run_blocks,
}

-- Two ends of a turn that agree in all but the flags.
abbrev SameRound : Round × Exec → Round × Exec → Type 0
SameRound (settled p, e) (settled q, f) = (p.status ≡ q.status) × (e ≡ f)
SameRound (settled p, e) (again q, f) = ⊥
SameRound (again p, e) (settled q, f) = ⊥
SameRound (again p, e) (again q, f) = e ≡ f

abbrev SameOutcome : Outcome (Round × Exec) → Outcome (Round × Exec) → Type 0
SameOutcome (ok r) (ok s) = SameRound r s
SameOutcome (ok r) (fault y) = ⊥
SameOutcome (fault x) (ok s) = ⊥
SameOutcome (fault x) (fault y) = x ≡ y

abbrev pub SameStatus : Outcome (Pass × Exec) → Outcome (Pass × Exec) → Type 0
SameStatus (ok (p, e)) (ok (q, f)) = (p.status ≡ q.status) × (e ≡ f)
SameStatus (ok r) (fault y) = ⊥
SameStatus (fault x) (ok s) = ⊥
SameStatus (fault x) (fault y) = x ≡ y

after_return-same :
    (ret : WorkReturn) (io : WorkIo) (p q : Pass) (e : Exec)
    → SameRound (after_return ret io p, e) (after_return ret io q, e)
unfolding after_return
after_return-same work_ok io p q e = (refl, refl)
after_return-same work_done io p q e = (refl, refl)
after_return-same insufficient_input_items io p q e = refl
after_return-same insufficient_output_items io p q e = refl
after_return-same (other_return n) io p q e = refl

await_callback-same :
    (b : ℕ) (ret : WorkReturn) (io : WorkIo) (c : Bool) (p q : Pass) (e : Exec)
    → SameOutcome (await_callback b ret io c p e) (await_callback b ret io c q e)
unfolding await_callback
await_callback-same b work_ok io true p q e = (refl, refl)
await_callback-same b work_done io true p q e = (refl, refl)
await_callback-same b work_ok io false p q e = refl
await_callback-same b work_done io false p q e = refl
await_callback-same b insufficient_input_items io c p q e = (refl, refl)
await_callback-same b insufficient_output_items io c p q e = (refl, refl)
await_callback-same b (other_return n) io c p q e = refl

round-same :
    (rt : Runtime) (last b : ℕ) (p q : Pass) (e : Exec)
    → SameOutcome (round rt last b p e) (round rt last b q e)
unfolding round
round-same rt last b p q e = elim (Bool-cases (b == last)) [
  | inl is_last ↦
      rw (is_last, round)
        (elim (Bool-cases (rt.is_async b)) [
          | inl async ↦ rw (async, last_round) (await_callback-same b _ _ _ p q _)
          | inr sync ↦ rw (sync, last_round) refl
        ])
  | inr inner ↦ rw (inner, round) (after_return-same _ _ p q _)
]

go_round-same :
    (k : Pass → Exec → Outcome (Pass × Exec)) (x y : Outcome (Round × Exec))
    → ((p q : Pass) (e : Exec) → SameStatus (k p e) (k q e))
    → SameOutcome x y
    → SameStatus (x >>= go_round k) (y >>= go_round k)
go_round-same k (ok (settled p, e)) (ok (settled q, f)) h same = same
go_round-same k (ok (settled p, e)) (ok (again q, f)) h same = absurd same
go_round-same k (ok (again p, e)) (ok (settled q, f)) h same = absurd same
go_round-same k (ok (again p, e)) (ok (again q, f)) h same = rw same (h p q f)
go_round-same k (ok r) (fault y) h same = absurd same
go_round-same k (fault x) (ok s) h same = absurd same
go_round-same k (fault x) (fault y) h same = same

work_loop-same :
    (fuel : ℕ) (rt : Runtime) (last b : ℕ) (p q : Pass) (e : Exec)
    → SameStatus (work_loop fuel rt last b p e) (work_loop fuel rt last b q e)
unfolding work_loop
work_loop-same zero rt last b p q e = refl
work_loop-same (suc fuel) rt last b p q e =
    go_round-same (work_loop fuel rt last b) (round rt last b p e) (round rt last b q e)
      (work_loop-same fuel rt last b) (round-same rt last b p q e)

-- A block that works overwrites the status.
run_block-same :
    (fuel : ℕ) (rt : Runtime) (first last b : ℕ) (p q : Pass) (e : Exec)
    → rt.is_hier b ≡ false
    → SameStatus (run_block fuel rt first last b p e) (run_block fuel rt first last b q e)
unfolding run_block
run_block-same fuel rt first last b p q e h = rw (h, run_block) (after (prepare first last b e))
  where
    after :
        (o : Outcome Exec)
        → SameStatus (o >>= work_loop fuel rt last b p) (o >>= work_loop fuel rt last b q)
    after (ok f) = work_loop-same fuel rt last b p q f
    after (fault x) = refl

SameStatus-ok :
    (x y : Outcome (Pass × Exec)) (r : Pass) (e : Exec)
    → x ≡ ok (r, e)
    → SameStatus x y
    → (t : Pass) × (y ≡ ok (t, e)) × (t.status ≡ r.status)
SameStatus-ok (ok (p, f)) (ok (t, g)) r e run same = (t, ground arith, ground arith)
SameStatus-ok (ok p) (fault y) r e run same = absurd same
SameStatus-ok (fault x) y r e run same = ground arith

-- The status of a whole iteration's work is the last working block's alone: it is what that block's
-- turn would have set in the same state after any other history of statuses `q`. In particular the
-- DONE of an earlier block is lost.
pub run_blocks-last_status :
    (fuel : ℕ) (rt : Runtime) (first last : ℕ) (bs : List ℕ) (b : ℕ) (p r q : Pass) (e e' : Exec)
    → rt.is_hier b ≡ false
    → run_blocks fuel rt first last (bs ++ b ∷ []) p e ≡ ok (r, e')
    → (f : Exec) × (t : Pass) × (s : Pass) × (run_blocks fuel rt first last bs p e ≡ ok (s, f))
      × (run_block fuel rt first last b q f ≡ ok (t, e'))
      × (t.status ≡ r.status)
unfolding run_blocks
run_blocks-last_status fuel rt first last [] b p r q e e' h run =
    let ((p', f'), one, more) = >>=-eq-ok (run_block fuel rt first last b p e) _ run in
    let (t, after, same) =
      SameStatus-ok _ (run_block fuel rt first last b q e) r e' (one ∙ more)
        (run_block-same fuel rt first last b p q e h) in
    (e, t, p, refl, after, same)
run_blocks-last_status fuel rt first last (a ∷ bs) b p r q e e' h run =
    let ((p', f'), one, more) = >>=-eq-ok (run_block fuel rt first last a p e) _ run in
    let (f, t, s, before, after, same) =
      run_blocks-last_status fuel rt first last bs b p' r q f' e' h more in
    (f, t, s, rw one before, after, same)
