-- ===== src/Tests/Executor.antt =====
-- Iterations over the chain of two blocks.
use gr4_torchdsp.Prelude.{
  ◌⊎◌, if◌then◌else◌, ℕ, ◌≡◌, refl, [], ◌∷◌, arith, inl, inr, ◌==◌, Bool-cases, All, some,
}
use gr4_torchdsp.Prelude.Int.{to_int, to_size}
use gr4_torchdsp.Outcome.{Outcome, ok, fault, out_of_fuel}
use gr4_torchdsp.Runtime.{ready, blkd_in, Status, write_info}
use gr4_torchdsp.Trace.{Extends}
use gr4_torchdsp.Executor.Ports.{round_down, check_input, check_inputs, check_output, check_outputs}
use gr4_torchdsp.Executor.Work.{
  Exec, Pass, run_block, run_blocks, work_loop, prepare, round, is_dry_source,
}
use gr4_torchdsp.Executor.Iteration.{
  fresh_pass, input_stage, output_stage, work_stage, finish, unclog, run_one_iteration,
}
use gr4_torchdsp.Executor.Inputs.{InputGranted, check_inputs-granted}
use gr4_torchdsp.Executor.Outputs.{OutputGranted, check_outputs-granted}
use gr4_torchdsp.Executor.Dry.{QueryBehind, run_one_iteration-dry}
use gr4_torchdsp.Executor.Statuses.{run_blocks-last_status}
use gr4_torchdsp.Executor.Loops.{work_loop-spins}
use gr4_torchdsp.Executor.Behaved.{WellBehaved, Wires, IsThere, IsWired}
use gr4_torchdsp.Executor.Totals.{reads_posted, writes_posted}
use gr4_torchdsp.Executor.Posts.{PostsOnce, run_one_iteration-PostsOnce}
use gr4_torchdsp.Executor.Order.{InOrder, run_one_iteration-order}
use gr4_torchdsp.Tests.Fixtures.{
  consuming, in_port, out_port, chain, flowing, starved, first_done, unsatisfied,
}

round_down_runs : round_down 30 4 ≡ ok 28
unfolding round_down
round_down_runs = refl

check_inputs-granted_example :
    All
      (InputGranted flowing [] (check_inputs flowing (in_port ∷ []) []).2)
      (check_inputs flowing (in_port ∷ []) []).1
unfolding check_inputs check_input to_int
check_inputs-granted_example =
    check_inputs-granted flowing (in_port ∷ []) [] (λ b. omega arith) refl

check_outputs-granted_example :
    All (OutputGranted flowing 2 [] (write_info 102 ∷ [])) (record out_port { n_items = 28 } ∷ [])
unfolding check_outputs check_output to_size
check_outputs-granted_example =
    check_outputs-granted flowing 2 (out_port ∷ []) (record out_port { n_items = 28 } ∷ []) []
      (write_info 102 ∷ []) refl

run_one_iteration-dry_example :
    (e' : Exec) × (run_one_iteration 0 starved (1 ∷ 2 ∷ []) (1 ∷ 2 ∷ []) chain ≡ ok (blkd_in, e'))
    × Extends (QueryBehind (chain.wio 1).inputs) [] e'.history
    × ((b : ℕ) → (b ≡ 1) ⊎ (e'.wio b ≡ chain.wio b))
unfolding to_int
run_one_iteration-dry_example =
    run_one_iteration-dry 0 starved (1 ∷ 2 ∷ []) 1 (2 ∷ []) chain
      (inl (100, refl, (λ h. inr (inr (omega arith, refl)))))

-- The second part of a result, or what stands in for it.
abbrev part : {A B : Type 0} → Outcome (A × B) → B → B
part (ok (a, b)) d = b
part (fault x) d = d

abbrev pub chain_wires : Wires
chain_wires b =
    if b == 1
    then (some 100 ∷ [], some 101 ∷ [])
    else if b == 2
    then (some 101 ∷ [], some 102 ∷ [])
    else ([], [])

buffered_outputs : (b : ℕ) → All IsThere (chain_wires b).1
buffered_outputs b = elim (Bool-cases (b == 1)) [
  | inl first ↦ rw first ((λ e. cc), tt)
  | inr other ↦ elim (Bool-cases (b == 2)) [
    | inl last ↦ rw (other, last) ((λ e. cc), tt)
    | inr none_ ↦ rw (other, none_) tt
  ]
]

pub flowing-WellBehaved : WellBehaved chain_wires flowing 1 2
flowing-WellBehaved = record {
  finishes = λ h b io fits. tt;
  async = refl;
  calls_back = λ h io fits. refl;
  keeps = λ h b io fits. fits;
  divides = λ e. omega arith;
  has_input = refl;
  has_output = refl;
  has_buffers = buffered_outputs;
}

pub chain-IsWired : IsWired chain_wires chain
chain-IsWired b = elim (Bool-cases (b == 1)) [
  | inl first ↦ rw first (refl, refl)
  | inr other ↦ elim (Bool-cases (b == 2)) [
    | inl last ↦ rw (other, last) (refl, refl)
    | inr none_ ↦ rw (other, none_) (refl, refl)
  ]
]

-- Block 1 returns DONE and block 2 OK.
run_blocks-last_status_example :
    let e' = part (run_blocks 1 first_done 1 2 (1 ∷ 2 ∷ []) fresh_pass chain) chain in
    (f : Exec) × (t : Pass) × (s : Pass) × (run_blocks 1 first_done 1 2 (1 ∷ []) fresh_pass chain
      ≡ ok (s, f))
    × (run_block 1 first_done 1 2 2 fresh_pass f ≡ ok (t, e'))
    × (t.status ≡ ready)
unfolding run_blocks run_block prepare work_loop round is_dry_source
run_blocks-last_status_example =
    run_blocks-last_status 1 first_done 1 2 (1 ∷ []) 2 fresh_pass fresh_pass fresh_pass chain
      (part (run_blocks 1 first_done 1 2 (1 ∷ 2 ∷ []) fresh_pass chain) chain) refl refl

-- Block 1 is done, and the iteration does not say so.
first_done_lost :
    (e' : Exec) × (run_one_iteration 1 first_done [] (1 ∷ 2 ∷ []) chain ≡ ok (ready, e'))
unfolding run_one_iteration input_stage check_inputs check_input to_int to_size output_stage
    check_outputs check_output work_stage run_blocks run_block prepare work_loop round is_dry_source
    finish unclog
first_done_lost = (part (run_one_iteration 1 first_done [] (1 ∷ 2 ∷ []) chain) chain, refl)

work_loop-spins_example : work_loop 1000 unsatisfied 2 1 fresh_pass chain ≡ fault out_of_fuel
work_loop-spins_example = work_loop-spins 1000 unsatisfied 2 1 fresh_pass chain refl (λ h io. tt)

abbrev after_consuming : Exec
after_consuming = part (run_one_iteration 1 consuming [] (1 ∷ 2 ∷ []) chain) chain

run_one_iteration-PostsOnce_example : PostsOnce (1 ∷ 2 ∷ []) 2 [] after_consuming
unfolding run_one_iteration input_stage check_inputs check_input to_int to_size output_stage
    check_outputs check_output work_stage run_blocks run_block prepare work_loop round is_dry_source
    finish unclog
run_one_iteration-PostsOnce_example =
    run_one_iteration-PostsOnce 1 consuming [] 1 (2 ∷ []) 2 chain ready after_consuming refl refl

-- Buffer 101 lies between the two blocks.
consumed_and_produced :
    (reads_posted 100 after_consuming.history ≡ 70)
    × (reads_posted 101 after_consuming.history ≡ 70)
    × (writes_posted 101 after_consuming.history ≡ 28)
    × (writes_posted 102 after_consuming.history ≡ 28)
unfolding run_one_iteration input_stage check_inputs check_input to_int to_size output_stage
    check_outputs check_output work_stage run_blocks run_block prepare work_loop round is_dry_source
    finish unclog
consumed_and_produced = (refl, refl, refl, refl)

run_one_iteration-order_example :
    (s : Status) × (e' : Exec) × (run_one_iteration 1 flowing [] (1 ∷ 2 ∷ []) chain ≡ ok (s, e'))
    × InOrder flowing (1 ∷ 2 ∷ []) [] s e'
    × IsWired chain_wires e'
run_one_iteration-order_example =
    run_one_iteration-order flowing 0 [] 1 (2 ∷ []) 2 chain_wires chain refl flowing-WellBehaved
      chain-IsWired
