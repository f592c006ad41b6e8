-- ===== src/Thread/Ending.antt =====
-- EXIT with work asked for in the same batch: thread_wrapper.cc, lines 246 to 252 and 299 to 309.
use gr4_torchdsp.Prelude.{
  sym, ℕ, suc, ◌≡◌, Bool, true, false, List, ◌∷◌, some, last?, if◌then◌else◌,
}
use gr4_torchdsp.Outcome.{ok}
use gr4_torchdsp.Runtime.{Runtime, block_stop}
use gr4_torchdsp.Channel.{Channel, Message, scheduler_action, exit}
use gr4_torchdsp.Executor.Behaved.{WellBehaved, Wires}
use gr4_torchdsp.Thread.State.{Thread, stop_blocks}
use gr4_torchdsp.Thread.Calls.{each_in_order, stop_all-order}
use gr4_torchdsp.Thread.Work.{handle_work_notification}
use gr4_torchdsp.Thread.Body.{Body, inner, finished}
use gr4_torchdsp.Thread.Runs.{Runs}
use gr4_torchdsp.Thread.Exiting.{exited, Runs-exit_calls}
use gr4_torchdsp.Thread.Answers.{Runnable}
use gr4_torchdsp.Thread.Stopping.{handle_work_notification-returns}

-- If a work notification stands before EXIT in the same batch, EXIT calls the `stop` of each block
-- of the thread once, in their order, and sets the stop flag; then one more `handle_work_notification` runs over the blocks that have just been stopped; it returns, if
-- the blocks behave as the scheduler asks, and the thread ends.
pub Runs-exit_working :
    (ch : Channel) (fuel : ℕ) (rt : Runtime) (first : ℕ) (rest : List ℕ) (last : ℕ) (wires : Wires)
    (b : Body ch.Queue) (ms : List Message)
    → last? (first ∷ rest) ≡ some last
    → WellBehaved wires rt first last
    → b.place ≡ inner
    → b.thread.thread_stopped ≡ false
    → ch.contents b.thread.msgq ≡ scheduler_action exit ∷ ms
    → b.do_some_work ≡ true
    → Runnable first rest wires b.thread
    → (q : ch.Queue) × (r : Bool) × (u : Thread ch.Queue) × (ch.contents q ≡ ms)
      × (handle_work_notification ch (suc fuel) rt (record b.thread {
        msgq = q;
        thread_stopped = true;
        exec = record b.thread.exec {
          history = each_in_order block_stop b.thread.blocks b.thread.exec.history;
        };
      })
          ≡ ok (r, u))
      × Runs ch
          (suc fuel)
          rt
          b
          (record b { place = finished; blocking_queue = if r then false else true; thread = u })
unfolding stop_blocks
Runs-exit_working ch fuel rt first rest last wires b ms l good at run e work runs =
    let (q, left, ends) = Runs-exit_calls ch (suc fuel) rt b ms at run e work in
    let (r, u, ran, _) =
      handle_work_notification-returns ch fuel rt first rest last wires l good
        (exited ch (suc fuel) rt b q) runs in
    (
      q,
      r,
      u,
      left,
      rw (sym (stop_all-order b.thread.blocks b.thread.exec.history)) ran,
      ends r u ran,
    )
