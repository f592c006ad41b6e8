-- ===== src/Tests/Block.antt =====
-- A block over the model of Tests.Model, with 4 items to a batch, and the chain that it ends.
use gr4_torchdsp.Prelude.{ℕ, ◌≡◌, refl, Bool, true, false, ◌&&◌, List, [], ◌∷◌, map, none, arith}
use gr4_torchdsp.Prelude.Int.{pos, to_int}
use gr4_torchdsp.Outcome.{ok, fault, blocked_forever}
use gr4_torchdsp.Runtime.{Runtime, Output, WorkIo, work_ok}
use gr4_torchdsp.Executor.Work.{Exec, work_loop}
use gr4_torchdsp.Executor.Iteration.{fresh_pass}
use gr4_torchdsp.Model.Metadata.{allocate_shm}
use gr4_torchdsp.Model.Configure.{Model, get_output_sizes, get_output_signature}
use gr4_torchdsp.Model.Requests.{requested}
use gr4_torchdsp.Block.Work.{TritonBlock, Surroundings, BlockWork, work, items_per_batch}
use gr4_torchdsp.Block.Batches.{work-batches}
use gr4_torchdsp.Block.Waiting.{work_loop-synchronous}
use gr4_torchdsp.Tests.Fixtures.{in_port, mid_in, out_port, flowing}
use gr4_torchdsp.Tests.Model.{adder, a_view, adder-HasShape}
use gr4_torchdsp.Tests.Json.{client}
use gr4_torchdsp.Model.Interface.{triton_model_impl}

abbrev pub block : Bool → TritonBlock Model
block async = record { model = adder async; output_multiple = pos 4; callback = none }

abbrev pub produced : ℕ → List Output → List Output
produced n ws = map {A = Output} (λ w. record w { n_produced = n }) ws

abbrev pub env : Surroundings
env = record {
  reader_view = λ b. a_view;
  buffer_view = λ b. a_view;
  produce_each = produced;
  accepted = true;
}

abbrev granted : Output
granted = record out_port { n_items = 28 }

abbrev block_io : WorkIo
block_io = record { inputs = in_port ∷ mid_in ∷ []; outputs = granted ∷ [] }

-- What the work of the block comes back with.
abbrev worked : Bool → BlockWork Model
worked async =
    let result = requested (adder async) (a_view ∷ a_view ∷ []) (a_view ∷ []) 7 (async && true) in
    record {
      ret = work_ok;
      wio = record block_io { outputs = produced 28 (granted ∷ []) };
      request = result.1;
      block = record (block async) { model = result.0 };
    }

pub per_batch : (async : Bool) → items_per_batch (adder async) ≡ ok (pos 4)
unfolding items_per_batch get_output_sizes get_output_signature allocate_shm to_int
per_batch async = refl

works_in_batches : work env (block true) block_io ≡ ok (worked true)
works_in_batches =
    work-batches env (block true) in_port mid_in [] granted [] (a_view ∷ a_view ∷ []) (a_view ∷ [])
      true 4 7 (per_batch true) (omega arith) (omega arith) refl (client, refl)
      (adder-HasShape true) (refl, omega arith) (refl, omega arith)

works_synchronously : work env (block false) block_io ≡ ok (worked false)
works_synchronously =
    work-batches env (block false) in_port mid_in [] granted [] (a_view ∷ a_view ∷ []) (a_view ∷ [])
      false 4 7 (per_batch false) (omega arith) (omega arith) refl (client, refl)
      (adder-HasShape false) (refl, omega arith) (refl, omega arith)

abbrev block_exec : Exec
block_exec = record { wio = λ b. block_io; history = [] }

-- The scheduler's view: block 2 is the Triton block, whose inputs the runtime counts as consumed.
abbrev triton_chain : Bool → Runtime
triton_chain async = record flowing {
  do_work_of = λ h b io. record {
    ret = work_ok;
    wio = record {
      inputs = record in_port { n_consumed = 7 } ∷ record mid_in { n_consumed = 7 } ∷ [];
      outputs = produced 28 (granted ∷ []);
    };
    calls_back = (worked async).request.calls_back;
  };
}

work_loop-synchronous_example :
    work_loop 1 (triton_chain false) 2 2 fresh_pass block_exec ≡ fault blocked_forever
work_loop-synchronous_example =
    work_loop-synchronous env (block false) (triton_chain false) 2 0 fresh_pass block_exec
      (worked false) refl works_synchronously (refl, refl) refl
