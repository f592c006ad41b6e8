-- ===== src/Tests/Scheduler.antt =====
-- A scheduler over the chain of two blocks, whose ids are 11 and 12.
use gr4_torchdsp.Prelude.{◌+◌, ◌≡◌, refl, List, [], ◌∷◌, none, some}
use gr4_torchdsp.Outcome.{ok, fault, null_pointer}
use gr4_torchdsp.Runtime.{block_start}
use gr4_torchdsp.Channel.{Message, list_channel, scheduler_action, exit, param_query}
use gr4_torchdsp.Options.{default_options}
use gr4_torchdsp.Thread.State.{Thread, make, map_blocks, find_block, start_all}
use gr4_torchdsp.Thread.State
use gr4_torchdsp.Thread.Body.{Body, Turn, launched, finished, step}
use gr4_torchdsp.Thread.Runs.{Runs, Reach, start_here, after, pushed, started, stopped}
use gr4_torchdsp.Thread.Stoppable.{Reach-stop, Lives, Answered}
use gr4_torchdsp.Thread.Faultless.{Reach-returns}
use gr4_torchdsp.Scheduler.State.{
  FlatGraph, SchedulerTriton, initialize_buffers, populate_work_io, set_block_parent,
  set_port_parent, fresh_scheduler, initialize, start, push_message, populate, set_parents, Stops,
  Waits, kill,
}
use gr4_torchdsp.Scheduler.Started.{new_thread}
use gr4_torchdsp.Scheduler.Ended.{initialize-ends, initialize-unstarted}
use gr4_torchdsp.Tests.Fixtures.{chain, flowing}
use gr4_torchdsp.Tests.Executor.{flowing-WellBehaved, chain_wires, chain-IsWired}

abbrev graph : FlatGraph
graph = record {
  used_blocks = 1 ∷ 2 ∷ [];
  block_id = λ b. b + 10;
  all_ports = λ b. (b + 20) ∷ [];
  work_io = chain.wio;
}

abbrev scheduler : SchedulerTriton (List Message)
scheduler = fresh_scheduler list_channel 7 default_options

not_initialized : push_message list_channel (scheduler_action exit) scheduler ≡ fault null_pointer
unfolding push_message
not_initialized = refl

-- The newest call first: the ports learn of the thread after the `work_io` objects are filled.
initialized :
    (initialize list_channel graph [] scheduler).setup
    ≡ set_port_parent 22
      ∷ set_block_parent 2
      ∷ set_port_parent 21
      ∷ set_block_parent 1
      ∷ populate_work_io 2
      ∷ populate_work_io 1
      ∷ initialize_buffers 32768
      ∷ []
unfolding initialize populate set_parents
initialized = refl

abbrev fresh : Thread (List Message)
fresh = new_thread list_channel graph [] scheduler

-- A query of a parameter of block 1, and then `start`.
abbrev begun : Body (List Message)
begun = record (launched fresh) {
  thread = State.start list_channel (State.push_message list_channel (param_query 11 5 none) fresh);
}

abbrev reached : Reach list_channel 1 flowing (launched fresh) begun
reached = after (after start_here (pushed (param_query 11 5 none) refl)) (started refl)

reached-Answered :
    Answered list_channel 0 flowing 1 (2 ∷ []) 2 chain_wires refl flowing-WellBehaved reached
unfolding make map_blocks find_block
reached-Answered = ((1, refl), tt)

fresh-Lives :
    Lives list_channel 0 flowing 1 (2 ∷ []) 2 chain_wires refl flowing-WellBehaved (launched fresh)
unfolding make
fresh-Lives = ((refl, chain-IsWired), tt)

Reach-stop_example :
    (d : Body (List Message)) × Runs list_channel 1 flowing
      (record begun { thread = State.request_stop list_channel begun.thread })
      d
    × (d.place ≡ finished)
unfolding State.start
Reach-stop_example =
    Reach-stop list_channel 0 flowing 1 (2 ∷ []) 2 chain_wires refl flowing-WellBehaved
      (launched fresh) begun reached reached-Answered fresh-Lives refl

Reach-returns_example : (turn : Turn (List Message)) × (step list_channel 1 flowing begun ≡ ok turn)
Reach-returns_example =
    Reach-returns list_channel 0 flowing 1 (2 ∷ []) 2 chain_wires refl flowing-WellBehaved
      (launched fresh) begun reached reached-Answered fresh-Lives

initialize-ends_example :
    ((end : SchedulerTriton (List Message)) × Stops list_channel 1 flowing
        (record (initialize list_channel graph [] scheduler) { thread = some begun })
        end)
    × ((killed : SchedulerTriton (List Message)) × (end : SchedulerTriton (List Message)) × (kill
            list_channel
            (record (initialize list_channel graph [] scheduler) { thread = some begun })
          ≡ ok killed)
        × Waits list_channel 1 flowing killed end)
unfolding State.start initialize
initialize-ends_example =
    initialize-ends list_channel 0 flowing 1 (2 ∷ []) 2 chain_wires refl flowing-WellBehaved graph
      [] scheduler refl chain-IsWired refl (launched fresh) begun refl reached reached-Answered refl

both_started : start_all (1 ∷ 2 ∷ []) [] ≡ block_start 2 ∷ block_start 1 ∷ []
unfolding start_all
both_started = refl

-- A stop that comes before any start.
abbrev stopped_early : Body (List Message)
stopped_early = record (launched fresh) { thread = State.request_stop list_channel fresh }

abbrev stopped_scheduler : SchedulerTriton (List Message)
stopped_scheduler = record (initialize list_channel graph [] scheduler) {
  thread = some stopped_early;
}

initialize-unstarted_example :
    (¬ Stops list_channel 1 flowing stopped_scheduler scheduler)
    × (¬ Waits list_channel 1 flowing stopped_scheduler scheduler)
unfolding State.request_stop State.kill State.push_message initialize
initialize-unstarted_example =
    initialize-unstarted list_channel 1 flowing graph [] scheduler scheduler (launched fresh)
      stopped_early refl (after start_here (stopped refl)) refl
