-- ===== src/Tests/Chain.antt =====
-- A flowgraph of two blocks under the executor, the second of them the Triton block of Tests.Block.
use gr4_torchdsp.Prelude.{
  ℕ, ◌*◌, ◌<◌, ◌≡◌, refl, true, false, List, [], ◌∷◌, some, arith, ap, subst, sym, All, inl, inr,
  Bool-cases, ◌==◌, if◌then◌else◌,
}
use gr4_torchdsp.Outcome.{Outcome, ok, fault}
use gr4_torchdsp.Runtime.{
  Runtime, History, Input, Output, WorkIo, Work, Status, work_ok, other_return, write_info,
}
use gr4_torchdsp.Executor.Work.{Exec, prepare, assign_inputs, assign_outputs}
use gr4_torchdsp.Executor.Iteration.{run_one_iteration}
use gr4_torchdsp.Executor.Checked.{in_bufps, out_bufps}
use gr4_torchdsp.Executor.Behaved.{Wires, Finishes, Fits, IsThere, IsWired}
use gr4_torchdsp.Executor.Order.{InOrder}
use gr4_torchdsp.Block.Serving.{Serves, IsPlugged, Served, work-Serves}
use gr4_torchdsp.Block.Lifetime.{Lifetime, made, told}
use gr4_torchdsp.Block.Whole.{IsFor, work-whole}
use gr4_torchdsp.Executor.Ports.{check_output, check_outputs}
use gr4_torchdsp.Prelude.Int.{to_size}
use gr4_torchdsp.Block.Chain.{TritonChain, run_one_iteration-TritonChain}
use gr4_torchdsp.Block.Work.{BlockWork, work, set_async_callback, triton_block_triton}
use gr4_torchdsp.Tests.Fixtures.{mid_in, out_port, flowing, first_io, no_io, returns}
use gr4_torchdsp.Tests.Model.{adder, adder-HasShape}
use gr4_torchdsp.Tests.Json.{client}
use gr4_torchdsp.Tests.Block.{block, env, produced, per_batch}
use gr4_torchdsp.Model.Configure.{Model}
use gr4_torchdsp.Model.Interface.{triton_model_impl}

-- Block 2 ends the flowgraph and is a Triton block with two inputs; block 1 stands before it.
abbrev pub triton_wires : Wires
triton_wires b =
    if b == 1
    then (some 100 ∷ [], some 101 ∷ [])
    else if b == 2
    then (some 101 ∷ some 103 ∷ [], some 102 ∷ [])
    else ([], [])

-- The runtime counts all items of the inputs as consumed.
abbrev consumed : List Input → List Input
consumed [] = []
consumed (w ∷ ws) = record w { n_consumed = w.n_items } ∷ consumed ws

consumed-bufps : (ws : List Input) → in_bufps (consumed ws) ≡ in_bufps ws
consumed-bufps [] = refl
consumed-bufps (w ∷ ws) = ap (◌∷◌ w.bufp) (consumed-bufps ws)

abbrev synced : BlockWork Model → Work
synced w = record {
  ret = w.ret;
  wio = record { inputs = consumed w.wio.inputs; outputs = w.wio.outputs };
  calls_back = w.request.calls_back;
}

abbrev work_of : Outcome (BlockWork Model) → WorkIo → Work
work_of (ok w) io = synced w
work_of (fault x) io = returns (other_return 0) false io

abbrev triton_runtime : Runtime
triton_runtime = record flowing {
  do_work_of =
      λ h b io. if b == 2 then work_of (work env (block true) io) io else returns work_ok true io;
}

at_two : (P : ℕ → Type 0) (b : ℕ) → (b == 2) ≡ true → P 2 → P b
at_two P b is p = let same : 2 ≡ b = ground arith in subst P same p

pub state_two : Serves (triton_wires 2).0 (triton_wires 2).1 (block true)
state_two = record {
  per = 4;
  per_batch = per_batch true;
  positive = omega arith;
  async = refl;
  connected = (client, refl);
  shapes = adder-HasShape true;
  enough_inputs = omega arith;
  enough_outputs = omega arith;
}

pub ports_two : IsPlugged (triton_wires 2).0 (triton_wires 2).1
ports_two = (omega arith, omega arith, ((λ e. cc), ((λ e. cc), tt)), ((λ e. cc), tt))

produced-bufps : (n : ℕ) (ws : List Output) → out_bufps (produced n ws) ≡ out_bufps ws
produced-bufps n [] = refl
produced-bufps n (w ∷ ws) = ap (◌∷◌ w.bufp) (produced-bufps n ws)

buffered : (b : ℕ) → All IsThere (triton_wires b).1
buffered b = elim (Bool-cases (b == 1)) [
  | inl first ↦ rw first ((λ e. cc), tt)
  | inr other ↦ elim (Bool-cases (b == 2)) [
    | inl last ↦ rw (other, last) ((λ e. cc), tt)
    | inr none_ ↦ rw (other, none_) tt
  ]
]

plain_turn :
    (h : History) (b : ℕ) (io : WorkIo)
    → (b == 2) ≡ false
    → triton_runtime.do_work_of h b io ≡ returns work_ok true io
plain_turn h b io other = rw other refl

two_blocks : TritonChain triton_wires triton_runtime 1 2
two_blocks = record {
  is_triton = λ b. b == 2;
  block_made = λ b. block true;
  block_at = λ h b. block true;
  lives = λ h b is. made;
  env_at = λ h. env;
  runs = λ h b io w is worked. rw (is, worked) ((refl, refl), (consumed-bufps w.wio.inputs, refl));
  serves = λ b is.
      at_two (λ k. Serves (triton_wires k).0 (triton_wires k).1 (block true)) b is state_two;
  plugged = λ b is. at_two (λ k. IsPlugged (triton_wires k).0 (triton_wires k).1) b is ports_two;
  accepted = λ h. refl;
  produces = λ h n ws. produced-bufps n ws;
  others = λ h b io other fits.
      let same = sym (plain_turn h b io other) in
      subst (λ r. Finishes r.ret × Fits triton_wires b r.wio) same (tt, fits);
  ends_in_triton = refl;
  async = refl;
  divides = λ e. omega arith;
  has_input = refl;
  has_buffers = buffered;
}

abbrev pub side_in : Input
side_in = record { port = 14; bufp = some 103; n_items = 0; n_consumed = 0 }

abbrev pub triton_io : WorkIo
triton_io = record { inputs = mid_in ∷ side_in ∷ []; outputs = out_port ∷ [] }

work-Serves_example : Served env (block true) triton_io (some 101 ∷ some 103 ∷ []) (some 102 ∷ [])
work-Serves_example =
    work-Serves env (block true) triton_io (some 101 ∷ some 103 ∷ []) (some 102 ∷ []) (refl, refl)
      state_two ports_two

abbrev two_block_exec : Exec
two_block_exec = record {
  wio = λ b. if b == 1 then first_io else if b == 2 then triton_io else no_io;
  history = [];
}

two_blocks-IsWired : IsWired triton_wires two_block_exec
two_blocks-IsWired b = elim (Bool-cases (b == 1)) [
  | inl first ↦ rw first (refl, refl)
  | inr other ↦ elim (Bool-cases (b == 2)) [
    | inl last ↦ rw (other, last) (refl, refl)
    | inr none_ ↦ rw (other, none_) (refl, refl)
  ]
]

run_one_iteration-TritonChain_example :
    (s : Status) × (e' : Exec) × (run_one_iteration 1 triton_runtime [] (1 ∷ 2 ∷ []) two_block_exec
      ≡ ok (s, e'))
    × IsWired triton_wires e'
    × InOrder triton_runtime (1 ∷ 2 ∷ []) [] s e'
run_one_iteration-TritonChain_example =
    run_one_iteration-TritonChain triton_wires triton_runtime 1 2 two_blocks 0 [] (2 ∷ [])
      two_block_exec refl two_blocks-IsWired

-- The executor before it prepares the Triton block: the checks have granted 28 items.
abbrev granted_exec : Exec
granted_exec = record two_block_exec {
  wio = λ b.
      if b == 1
      then first_io
      else if b == 2
      then record triton_io { outputs = record out_port { n_items = 28 } ∷ [] }
      else no_io;
}

abbrev or_else : Outcome Exec → Exec → Exec
or_else (ok e) d = e
or_else (fault x) d = d

abbrev prepared : Exec
prepared = or_else (prepare 1 2 2 granted_exec) granted_exec

made_with_multiple : triton_block_triton (some (adder true)) ≡ ok (block true)
unfolding triton_block_triton
made_with_multiple = rw (per_batch true) refl

given_callback :
    Lifetime
      (some 101 ∷ some 103 ∷ [])
      (some 102 ∷ [])
      (block true)
      (set_async_callback 5 (block true))
given_callback = told made 5 refl

work-whole_example :
    (w : BlockWork Model) × (count : ℕ) × (work env
        (set_async_callback 5 (block true))
        (prepared.wio 2)
      ≡ ok w)
    × (28 ≡ count * 4)
    × (0 < count)
    × All (IsFor count) w.request.inputs
unfolding prepare assign_inputs assign_outputs check_outputs check_output to_size
work-whole_example =
    work-whole flowing 1 2 (out_port ∷ []) [] (write_info 102 ∷ [])
      (record out_port { n_items = 28 }) [] 102 granted_exec prepared env (some 101 ∷ some 103 ∷ [])
      (some 102 ∷ []) (adder true) (block true) (set_async_callback 5 (block true)) refl refl refl
      refl made_with_multiple state_two ports_two given_callback refl refl (refl, refl)
