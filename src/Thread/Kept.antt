-- ===== src/Thread/Kept.antt =====
-- What no step of the thread changes, and what only grows.
use gr4_torchdsp.Prelude.{ℕ, ◌≡◌, Bool, true, arith}
use gr4_torchdsp.Outcome.{ok, >>=-eq-ok}
use gr4_torchdsp.Runtime.{Runtime, Status}
use gr4_torchdsp.Channel.{Channel, Action, Message}
use gr4_torchdsp.Thread.State.{Thread}
use gr4_torchdsp.Thread.Work.{after_iteration, handle_work_notification}
use gr4_torchdsp.Thread.Body.{handle_action, handle_message}
use gr4_torchdsp.Executor.Iteration.{run_one_iteration}

-- `u` is a later state of the thread `t`.
pub record Later {Q : Type 0} (t u : Thread Q) : Type 0 where
  pub same_blocks : u.blocks ≡ t.blocks
  pub same_opts : u.opts ≡ t.opts
  pub same_start : u.ready_to_start ≡ t.ready_to_start
  pub stays_stopped : t.thread_stopped ≡ true → u.thread_stopped ≡ true
  pub stays_flushing : t.flushing ≡ true → u.flushing ≡ true

module _ (ch : Channel) where
  open ch use {Queue}

  after_iteration-Later : (s : Status) (t : Thread Queue) → Later t (after_iteration ch s t).1
  unfolding after_iteration
  after_iteration-Later s t = ground arith

  pub handle_work_notification-Later :
      (fuel : ℕ) (rt : Runtime) (t u : Thread Queue) (r : Bool)
      → handle_work_notification ch fuel rt t ≡ ok (r, u)
      → Later t u
  unfolding handle_work_notification
  handle_work_notification-Later fuel rt t u r h =
      let ((s, e), _, q) = >>=-eq-ok (run_one_iteration fuel rt t.blocks t.blocks t.exec) _ h in
      let v = after_iteration-Later s (record t { exec = e }) in
      let same : u ≡ (after_iteration ch s (record t { exec = e })).1 = ground arith in
      rw same (record {
        same_blocks = v.same_blocks;
        same_opts = v.same_opts;
        same_start = v.same_start;
        stays_stopped = v.stays_stopped;
        stays_flushing = v.stays_flushing;
      })

  handle_action-Later :
      (fuel : ℕ) (rt : Runtime) (a : Action) (w : Bool) (t : Thread Queue)
      → Later t (handle_action ch fuel rt a w t).1
  unfolding handle_action
  handle_action-Later fuel rt a w t = ground arith

  pub handle_message-Later :
      (fuel : ℕ) (rt : Runtime) (m : Message) (w w' : Bool) (t u : Thread Queue)
      → handle_message ch fuel rt m w t ≡ ok (w', u)
      → Later t u
  unfolding handle_message
  handle_message-Later fuel rt m w w' t u h = ground (arith)
