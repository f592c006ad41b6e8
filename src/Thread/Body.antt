-- ===== src/Thread/Body.antt =====
-- thread_wrapper::thread_body of schedulers/triton/lib/thread_wrapper.cc, lines 197 to 310, as a
-- machine: `step` runs the thread from one place where it looks at shared state to the next.
use gr4_torchdsp.Prelude.{ℕ, Bool, true, false, Option, none, some, if◌then◌else◌}
use gr4_torchdsp.Outcome.{Outcome, ok, ◌>>=◌}
use gr4_torchdsp.Runtime.{Runtime}
use gr4_torchdsp.Channel.{
  Channel, Action, Message, signal_done, done, exit, notify_output, notify_input, notify_all,
  other_action, scheduler_action, msgport_message, param_query, param_change, other_message,
}
use gr4_torchdsp.Thread.State.{
  Thread, rtmon_done, msgport_callback, log_effect, start_flushing, stop_blocks,
}
use gr4_torchdsp.Thread.Work.{
  handle_work_notification, handle_parameter_query, handle_parameter_change,
}

-- Where the thread is: before `_start_cv.wait`; at the test of the outer loop; at the test of the
-- inner loop, with `valid` true; in `pop_message` or `pop_message_nonblocking`; behind the inner
-- loop; past the outer loop.
pub data Place : Type 0 where
  waiting outer inner popping working finished : Place

pub record Body (Queue : Type 0) : Type 0 where
  pub place : Place
  pub blocking_queue : Bool
  pub do_some_work : Bool
  pub thread : Thread Queue

-- `waits`: the thread sleeps on the condition variable, in `pop_message`, or has ended.
pub data Turn (Queue : Type 0) : Type 0 where
  moved : Body Queue → Turn Queue
  waits : Turn Queue

module _ (ch : Channel) (fuel : ℕ) (rt : Runtime) where
  open ch use {Queue, pop}

  -- lines 227 to 272: the new `do_some_work` and the thread
  unfoldable pub handle_action : Action → Bool → Thread Queue → Bool × Thread Queue
  unfolding start_flushing stop_blocks
  handle_action signal_done work t = (work, log_effect (rtmon_done none) t)
  handle_action done work t = (true, start_flushing ch t)
  handle_action exit work t = (work, record (stop_blocks t) { thread_stopped = true })
  handle_action notify_output work t = (true, t)
  handle_action notify_input work t = (true, t)
  handle_action notify_all work t = (true, t)
  handle_action (other_action n) work t = (work, t)

  -- lines 221 to 295
  unfoldable pub handle_message : Message → Bool → Thread Queue → Outcome (Bool × Thread Queue)
  unfolding handle_action handle_parameter_query handle_parameter_change
  handle_message (scheduler_action a) work t = ok (handle_action a work t)
  handle_message (msgport_message m) work t = ok (work, log_effect (msgport_callback m) t)
  handle_message (param_query blkid action cb) work t =
      handle_parameter_query blkid action cb t >>= λ t'. ok (work, t')
  handle_message (param_change blkid action cb) work t =
      handle_parameter_change blkid action cb t >>= λ t'. ok (work, t')
  handle_message (other_message n) work t = ok (work, t)

  -- lines 199, 201: the wait for `start`
  unfoldable pub step_waiting : Body Queue → Turn Queue
  step_waiting b =
      if b.thread.ready_to_start
      then moved (record b { place = outer; blocking_queue = true })
      else waits

  -- lines 202 to 207
  unfoldable pub step_outer : Body Queue → Turn Queue
  step_outer b =
      if b.thread.thread_stopped
      then moved (record b { place = finished })
      else moved (record b { place = inner; do_some_work = false })

  -- lines 209 to 296, given what the queue answers; `valid` false ends the inner loop
  unfoldable pub step_popped : Option (Message × Queue) → Body Queue → Outcome (Turn Queue)
  unfolding handle_message
  step_popped none b = ok (
      if b.blocking_queue
      then waits
      else moved (record b { place = working; blocking_queue = false }))
  step_popped (some (m, q)) b =
      handle_message m b.do_some_work (record b.thread { msgq = q }) >>= λ (work, t).
      ok (
        moved (record b { place = inner; blocking_queue = false; do_some_work = work; thread = t }))

  -- line 208: the flag is read before the thread goes into the queue
  unfoldable pub step_inner : Body Queue → Turn Queue
  step_inner b =
      if b.thread.thread_stopped
      then moved (record b { place = working })
      else moved (record b { place = popping })

  unfoldable pub step_popping : Body Queue → Outcome (Turn Queue)
  unfolding step_popped
  step_popping b = step_popped (pop b.thread.msgq) b

  -- lines 299 to 306
  unfoldable pub step_working : Body Queue → Outcome (Turn Queue)
  step_working b =
      if b.do_some_work
      then (handle_work_notification ch fuel rt b.thread >>= λ (returned_ready, t). ok (
          moved (record b {
            place = outer;
            blocking_queue = if returned_ready then b.blocking_queue else true;
            thread = t;
          })))
      else ok (moved (record b { place = outer; blocking_queue = true }))

  unfoldable pub step_at : Place → Body Queue → Outcome (Turn Queue)
  unfolding step_waiting step_outer step_inner step_popping step_working
  step_at waiting b = ok (step_waiting b)
  step_at outer b = ok (step_outer b)
  step_at inner b = ok (step_inner b)
  step_at popping b = step_popping b
  step_at working b = step_working b
  step_at finished b = ok waits

  unfoldable pub step : Body Queue → Outcome (Turn Queue)
  unfolding step_at
  step b = step_at b.place b

-- The thread as the constructor starts it, once it has its name, which line 181 takes from the first
-- block of its group: the group is not empty.
abbrev pub launched : {Q : Type 0} → Thread Q → Body Q
launched t = record { place = waiting; blocking_queue = true; do_some_work = false; thread = t }
