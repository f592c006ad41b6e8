-- ===== src/Scheduler/State.antt =====
-- The members of scheduler_triton (schedulers/triton/include) and its methods, lines 7 to 43 of
-- schedulers/triton/lib/scheduler_triton.cc.
use gr4_torchdsp.Prelude.{ℕ, ◌≡◌, List, [], ◌∷◌, Option, none, some}
use gr4_torchdsp.Outcome.{Outcome, ok, deref, ◌>>=◌}
use gr4_torchdsp.Runtime.{Runtime, WorkIo}
use gr4_torchdsp.Channel.{Channel, Message}
use gr4_torchdsp.Options.{SchedulerTritonOptions}
use gr4_torchdsp.Thread.State.{Thread, stop_blocks, done_blocks}
use gr4_torchdsp.Thread.Body.{Body, launched, finished}
use gr4_torchdsp.Thread.Runs.{Runs}
use gr4_torchdsp.Thread.State

-- What `initialize` asks of the buffer manager, the blocks and their ports, oldest last.
pub data SetupCall : Type 0 where
  initialize_buffers : ℕ → SetupCall
  populate_work_io : ℕ → SetupCall
  set_block_parent : ℕ → SetupCall
  set_port_parent : ℕ → SetupCall

-- The flat graph: the used blocks in their order, their ids, the ports of each, and the `work_io`
-- that `populate_work_io` builds once the buffers are there.
pub record FlatGraph : Type 0 where
  pub used_blocks : List ℕ
  pub block_id : ℕ → ℕ
  pub all_ports : ℕ → List ℕ
  pub work_io : ℕ → WorkIo

pub record SchedulerTriton (Queue : Type 0) : Type 0 where
  pub id : ℕ
  pub opts : SchedulerTritonOptions
  -- null before `initialize`; the thread runs from its construction on
  pub thread : Option (Body Queue)
  pub setup : List SetupCall

unfoldable pub populate : List ℕ → List SetupCall → List SetupCall
populate [] cs = cs
populate (b ∷ bs) cs = populate bs (populate_work_io b ∷ cs)

abbrev parent_ports : List ℕ → List SetupCall → List SetupCall
parent_ports [] cs = cs
parent_ports (p ∷ ps) cs = parent_ports ps (set_port_parent p ∷ cs)

unfoldable pub set_parents : (ℕ → List ℕ) → List ℕ → List SetupCall → List SetupCall
set_parents ports [] cs = cs
set_parents ports (b ∷ bs) cs =
    set_parents ports bs (parent_ports (ports b) (set_block_parent b ∷ cs))

module _ (ch : Channel) where
  open ch use {Queue}

  -- `make` and the constructor
  abbrev pub fresh_scheduler : ℕ → SchedulerTritonOptions → SchedulerTriton Queue
  fresh_scheduler id opts = record { id = id; opts = opts; thread = none; setup = [] }

  -- `q` is the new thread's empty queue.
  unfoldable pub initialize : FlatGraph → Queue → SchedulerTriton Queue → SchedulerTriton Queue
  unfolding populate set_parents State.make
  initialize fg q s =
      let made =
        State.make ch s.id fg.used_blocks fg.block_id s.opts
          (record { wio = fg.work_io; history = [] }) q in
      let asked =
        populate fg.used_blocks (initialize_buffers s.opts.default_buffer_size ∷ s.setup) in
      record s {
        thread = some (launched made);
        setup = set_parents fg.all_ports fg.used_blocks asked;
      }

  -- `_thread->...`
  abbrev pub with_thread :
      (Thread Queue → Thread Queue) → SchedulerTriton Queue → Outcome (SchedulerTriton Queue)
  with_thread f s =
      deref s.thread >>= λ b. ok (record s { thread = some (record b { thread = f b.thread }) })

  unfoldable pub push_message : Message → SchedulerTriton Queue → Outcome (SchedulerTriton Queue)
  push_message m s = with_thread (State.push_message ch m) s

  unfoldable pub start : SchedulerTriton Queue → Outcome (SchedulerTriton Queue)
  start s = with_thread (State.start ch) s

  unfoldable pub kill : SchedulerTriton Queue → Outcome (SchedulerTriton Queue)
  kill s = with_thread (State.kill ch) s

  module _ (fuel : ℕ) (rt : Runtime) where
    -- The join in `stop` and in `wait`: the thread goes on alone to its end.
    abbrev pub Joins : Body Queue → Body Queue → Type 0
    Joins b c = Runs ch fuel rt b c × (c.place ≡ finished)

    -- `stop` returns: the request, the join, and the blocks' `stop`.
    abbrev pub Stops : SchedulerTriton Queue → SchedulerTriton Queue → Type 0
    Stops s s' =
        (b : Body Queue) × (c : Body Queue) × (s.thread ≡ some b)
        × Joins (record b { thread = State.request_stop ch b.thread }) c
        × (s' ≡ record s { thread = some (record c { thread = stop_blocks c.thread }) })

    -- `wait` returns.
    abbrev pub Waits : SchedulerTriton Queue → SchedulerTriton Queue → Type 0
    Waits s s' =
        (b : Body Queue) × (c : Body Queue) × (s.thread ≡ some b)
        × Joins b c
        × (s' ≡ record s { thread = some (record c { thread = done_blocks c.thread }) })

    -- `run` returns: `start` and then `wait`.
    abbrev pub RunsThrough : SchedulerTriton Queue → SchedulerTriton Queue → Type 0
    RunsThrough s s' = (u : SchedulerTriton Queue) × (start s ≡ ok u) × Waits u s'
