-- ===== src/Tests/Thread.antt =====
-- The thread over a list as its queue.
use gr4_torchdsp.Prelude.{
  ◌≡◌, refl, Bool, true, false, List, [], ◌∷◌, ◌++◌, some, inl, ◌+◌, arith, if◌then◌else◌,
}
use gr4_torchdsp.Outcome.{ok}
use gr4_torchdsp.Runtime.{ready, block_stop}
use gr4_torchdsp.Channel.{
  Message, list_channel, scheduler_action, done, notify_all, notify_input, exit, param_query,
}
use gr4_torchdsp.Options.{SchedulerTritonOptions, default_options}
use gr4_torchdsp.Thread.State.{
  Thread, make, start, start_flushing, push_message, request_stop, on_parameter_query,
}
use gr4_torchdsp.Thread.Work.{after_iteration, handle_work_notification}
use gr4_torchdsp.Thread.Body.{Body, moved, popping, inner, finished, launched, step}
use gr4_torchdsp.Thread.Flushing.{flushed_count, iterate, start_flushing-flushed}
use gr4_torchdsp.Thread.Runs.{Runs, Reach, start_here, after, moves, pushed, started, stopped}
use gr4_torchdsp.Thread.Answers.{Runnable}
use gr4_torchdsp.Thread.Ending.{Runs-exit_working}
use gr4_torchdsp.Thread.Flushed.{Runs-done}
use gr4_torchdsp.Tests.Executor.{flowing-WellBehaved, chain_wires, chain-IsWired}
use gr4_torchdsp.Thread.Invariant.{Inv, Reach-Inv}
use gr4_torchdsp.Thread.Parameters.{Reach-parameters, called_back}
use gr4_torchdsp.Thread.Lifecycle.{◌⟶◌, ◌⟶*◌}
use gr4_torchdsp.Thread.Phases.{view}
use gr4_torchdsp.Thread.Refines.{Reach-⟶, Reach-ended}
use gr4_torchdsp.Tests.Fixtures.{chain, starved, flowing}

abbrev options : SchedulerTritonOptions
options = record default_options { flush_count = 2 }

-- The chain's thread, idle.
abbrev idle : List Message → Thread (List Message)
idle ms = record {
  id = 7;
  msgq = ms;
  thread_stopped = false;
  blocks = 1 ∷ 2 ∷ [];
  block_map = (2, 2) ∷ (1, 1) ∷ [];
  flushing = false;
  flush_cnt = 0;
  opts = options;
  ready_to_start = true;
  exec = chain;
  effects = [];
}

start_flushing-flushed_example :
    let u = iterate list_channel (ready ∷ []) (start_flushing list_channel (idle [])) in
    (flushed_count u.effects ≡ 0)
    × (u.msgq ≡ [] ++ scheduler_action notify_all ∷ scheduler_action notify_all ∷ [])
    × (flushed_count (after_iteration list_channel ready u).1.effects ≡ 1)
    × ((after_iteration list_channel ready u).0 ≡ false)
    × ((after_iteration list_channel ready u).1.msgq ≡ u.msgq)
start_flushing-flushed_example =
    start_flushing-flushed list_channel (idle []) (ready ∷ []) ready refl (omega arith)
      (omega arith)

abbrev taking : List Message → Bool → Body (List Message)
taking ms w = record { place = inner; blocking_queue = true; do_some_work = w; thread = idle ms }

abbrev two_notices : List Message
two_notices = scheduler_action notify_all ∷ scheduler_action notify_input ∷ []

abbrev exit_then : List Message
exit_then = scheduler_action exit ∷ two_notices

chain-Runnable : (ms : List Message) → Runnable 1 (2 ∷ []) chain_wires (idle ms)
chain-Runnable ms = (refl, chain-IsWired)

-- The blocks have been stopped when the last iteration runs.
Runs-exit_working_example :
    let b = taking exit_then true in
    (q : List Message) × (r : Bool) × (u : Thread (List Message)) × (q ≡ two_notices)
    × (handle_work_notification list_channel 1 flowing (record (idle q) {
      thread_stopped = true;
      exec = record chain { history = block_stop 2 ∷ block_stop 1 ∷ [] };
    })
        ≡ ok (r, u))
    × Runs list_channel 1 flowing b
        (record b { place = finished; blocking_queue = if r then false else true; thread = u })
Runs-exit_working_example =
    Runs-exit_working list_channel 0 flowing 1 (2 ∷ []) 2 chain_wires (taking exit_then true)
      two_notices refl flowing-WellBehaved refl refl refl refl (chain-Runnable exit_then)

-- The thread as it is constructed, with a message and a request to stop before any start.
abbrev fresh : Thread (List Message)
fresh = record (idle []) { ready_to_start = false }

Reach-stopped_early : Reach list_channel 1 starved (launched fresh) (record (launched fresh) {
  thread =
      request_stop list_channel (push_message list_channel (scheduler_action notify_all) fresh);
})
Reach-stopped_early =
    after (after start_here (pushed (scheduler_action notify_all) refl)) (stopped refl)

abbrev stopped_first : Body (List Message)
stopped_first = record (launched fresh) {
  thread =
      request_stop list_channel (push_message list_channel (scheduler_action notify_all) fresh);
}

Reach-Inv_example : Inv stopped_first
Reach-Inv_example = Reach-Inv list_channel 1 starved fresh refl Reach-stopped_early

-- The thread that the constructor makes for blocks 1 and 2, whose ids are 11 and 12.
abbrev constructed : Thread (List Message)
constructed = make list_channel 7 (1 ∷ 2 ∷ []) (λ b. b + 10) options chain []

-- It is asked for a parameter of block 1 and started, and comes to the queue.
abbrev queried : Body (List Message)
queried = record (launched constructed) {
  place = popping;
  thread = start list_channel (push_message list_channel (param_query 11 5 (some 9)) constructed);
}

Reach-queried : Reach list_channel 1 starved (launched constructed) queried
unfolding step start make
Reach-queried =
    after
      (after
        (after (after (after start_here (pushed (param_query 11 5 (some 9)) refl)) (started refl))
          (moves refl))
        (moves refl))
      (moves refl)

Reach-parameters_example :
    (k : List Message) × (k ≡ scheduler_action notify_all ∷ [])
    × (step list_channel 1 starved queried
        ≡ ok (
            moved (record queried {
              place = inner;
              blocking_queue = false;
              thread = record queried.thread {
                msgq = k;
                effects = called_back (some 9) 5 ++ on_parameter_query 1 5 ∷ queried.thread.effects;
              };
            })))
unfolding start make push_message
Reach-parameters_example =
    Reach-parameters list_channel 1 starved 7 (1 ∷ 2 ∷ []) (λ b. b + 10) options chain [] queried
      false 1 5 (some 9) (scheduler_action notify_all ∷ []) (λ c d e. omega arith) (inl refl)
      Reach-queried refl refl

abbrev signalled : Body (List Message)
signalled = record {
  place = inner;
  blocking_queue = true;
  do_some_work = false;
  thread = idle (scheduler_action done ∷ []);
}

Runs-done_example :
    (c : Body (List Message)) × Runs list_channel 1 flowing signalled c
    × (flushed_count c.thread.effects ≡ 1)
Runs-done_example =
    Runs-done list_channel 0 flowing 1 (2 ∷ []) 2 chain_wires refl flowing-WellBehaved signalled
      refl refl (refl, omega arith) refl (chain-Runnable (scheduler_action done ∷ []))

-- What `start` then does is one step of the diagram.
Reach-⟶_example :
    (view (launched fresh) ⟶* view stopped_first)
    × (view stopped_first
        ⟶ view (record stopped_first { thread = start list_channel stopped_first.thread }))
Reach-⟶_example = Reach-⟶ list_channel 1 starved fresh refl Reach-stopped_early (started refl)

-- A thread that was asked to stop runs to its end, and is asked again.
abbrev halted : Thread (List Message)
halted = record (idle []) { thread_stopped = true }

abbrev gone : Body (List Message)
gone = record (launched halted) { place = finished }

abbrev gone_again : Body (List Message)
gone_again = record gone { thread = request_stop list_channel halted }

Reach-ended_example :
    (gone_again.place ≡ finished)
    × (gone_again.thread.flushing ≡ gone.thread.flushing)
    × (gone_again.thread.effects ≡ gone.thread.effects)
unfolding request_stop
Reach-ended_example =
    Reach-ended list_channel 1 starved {c = gone} {d = gone_again} refl
      (after start_here (stopped refl))
