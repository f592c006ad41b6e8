-- ===== src/Tests/Fixtures.antt =====
-- A chain of two blocks, 1 and 2, over Triton buffers, and the runtimes that they meet.
use gr4_torchdsp.Prelude.{ℕ, Bool, true, false, [], ◌∷◌, some, ◌==◌, map, if◌then◌else◌}
use gr4_torchdsp.Prelude.Int.{pos}
use gr4_torchdsp.Runtime.{
  Runtime, Input, Output, WorkIo, Work, WorkReturn, BufferInfo, work_ok, work_done,
  insufficient_input_items,
}
use gr4_torchdsp.Executor.Work.{Exec}

abbrev pub in_port : Input
in_port = record { port = 10; bufp = some 100; n_items = 0; n_consumed = 0 }

abbrev pub mid_out : Output
mid_out = record { port = 11; bufp = some 101; n_items = 0; n_produced = 0 }

abbrev pub mid_in : Input
mid_in = record { port = 12; bufp = some 101; n_items = 0; n_consumed = 0 }

abbrev pub out_port : Output
out_port = record { port = 13; bufp = some 102; n_items = 0; n_produced = 0 }

abbrev pub first_io : WorkIo
first_io = record { inputs = in_port ∷ []; outputs = mid_out ∷ [] }

abbrev pub last_io : WorkIo
last_io = record { inputs = mid_in ∷ []; outputs = out_port ∷ [] }

abbrev pub no_io : WorkIo
no_io = record { inputs = []; outputs = [] }

abbrev pub chain : Exec
chain = record {
  wio = λ b. if b == 1 then first_io else if b == 2 then last_io else no_io;
  history = [];
}

abbrev pub info : ℕ → BufferInfo
info n = record { valid = true; n_items = pos n }

-- Work that returns `ret` and changes nothing; whether its request calls back.
abbrev pub returns : WorkReturn → Bool → WorkIo → Work
returns ret c io = record { ret = ret; wio = io; calls_back = c }

-- Every buffer has `readable` items and room for `room`; multiples of 4.
abbrev pub runtime : ℕ → ℕ → (ℕ → WorkReturn) → Bool → Runtime
runtime readable room ret c = record {
  max_buffer_read = λ b. 100;
  min_buffer_read = λ b. 2;
  max_buffer_fill = λ b. 50;
  min_buffer_fill = λ b. 0;
  read_info_of = λ h b. info readable;
  write_info_of = λ h b. info room;
  is_hier = λ b. false;
  output_multiple_set = λ b. true;
  output_multiple = λ b. 4;
  is_async = λ b. true;
  do_work_of = λ h b io. returns (ret b) c io;
  input_blocked_of = λ h b n. true;
  output_blocked_of = λ h b f. true;
}

-- Both blocks return OK and the last one's requests call back.
abbrev pub flowing : Runtime
flowing = runtime 70 30 (λ b. work_ok) true

-- One item to read where two are asked for.
abbrev pub starved : Runtime
starved = runtime 1 30 (λ b. work_ok) true

-- The first block is done and the last one is not.
abbrev pub first_done : Runtime
first_done = runtime 70 30 (λ b. if b == 1 then work_done else work_ok) true

-- No block gets the items that it needs.
abbrev pub unsatisfied : Runtime
unsatisfied = runtime 70 30 (λ b. insufficient_input_items) true

-- Requests that never call back.
abbrev pub silent : Runtime
silent = runtime 70 30 (λ b. work_ok) false

abbrev consume_input : Input → Input
consume_input w = record w { n_consumed = w.n_items }

abbrev produce_output : Output → Output
produce_output w = record w { n_produced = 28 }

-- Work that consumes all that it is given and produces 28 items everywhere.
abbrev consume : WorkIo → WorkIo
consume io = record {
  inputs = map consume_input io.inputs;
  outputs = map produce_output io.outputs;
}

abbrev pub consuming : Runtime
consuming = record flowing { do_work_of = λ h b io. returns work_ok true (consume io) }
