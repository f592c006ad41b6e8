-- ===== src/Thread/Work.antt =====
-- thread_wrapper::handle_work_notification and the two parameter handlers of
-- schedulers/triton/lib/thread_wrapper.cc, lines 72 to 166.
use gr4_torchdsp.Prelude.{ℕ, ◌+◌, ◌%◌, Bool, true, false, Option, none, some, leb, if◌then◌else◌}
use gr4_torchdsp.Prelude.Int.{size_mod}
use gr4_torchdsp.Outcome.{Outcome, ok, deref, ◌>>=◌}
use gr4_torchdsp.Runtime.{
  Runtime, Status, ready, ready_no_output, blkd_in, blkd_out, msg_only, done,
}
use gr4_torchdsp.Channel.{Channel, scheduler_action, notify_all}
use gr4_torchdsp.Executor.Iteration.{run_one_iteration}
use gr4_torchdsp.Thread.State.{
  Thread, rtmon_done, rtmon_flushed, sleep_ms, on_parameter_query, on_parameter_change,
  param_callback, log_effect, push_message, find_block,
}

-- lines 97 to 103
abbrev pub wants_notify : Status → Bool
wants_notify ready = true
wants_notify ready_no_output = true
wants_notify blkd_out = true
wants_notify blkd_in = false
wants_notify msg_only = false
wants_notify done = false

-- lines 105 to 119: every branch that would clear it is commented out
abbrev pub all_blkd : Status → Bool
all_blkd s = true

-- lines 78 to 82
unfoldable pub signal_if_done : {Q : Type 0} → Status → Thread Q → Thread Q
signal_if_done done t = log_effect (rtmon_done (some t.id)) t
signal_if_done ready t = t
signal_if_done ready_no_output t = t
signal_if_done blkd_in t = t
signal_if_done blkd_out t = t
signal_if_done msg_only t = t

module _ (ch : Channel) where
  open ch use {Queue}

  -- lines 121 to 137; `++d_flush_cnt` comes before the comparison
  unfoldable pub count_flush : Bool → Thread Queue → Bool × Thread Queue
  unfolding push_message
  count_flush notify_self t =
      let n = (t.flush_cnt + 1) % size_mod in
      let counted = record t { flush_cnt = n } in
      if leb t.opts.flush_count n then (false, log_effect (rtmon_flushed t.id) counted) else (
        notify_self,
        push_message ch (scheduler_action notify_all)
            (log_effect (sleep_ms t.opts.flush_sleep_ms) counted),
      )

  -- lines 76 to 141, given the status of the iteration
  unfoldable pub after_iteration : Status → Thread Queue → Bool × Thread Queue
  unfolding count_flush signal_if_done
  after_iteration s t =
      let t' = signal_if_done s t in
      if t.flushing
      then if t.opts.flush
        then if all_blkd s
          then count_flush (wants_notify s) t'
          else (wants_notify s, record t' { flush_cnt = 0 })
        else (false, log_effect (rtmon_flushed t.id) t')
      else (false, t')

  -- `fuel` bounds the rounds of each block's loop in the executor.
  unfoldable pub handle_work_notification :
      ℕ → Runtime → Thread Queue → Outcome (Bool × Thread Queue)
  handle_work_notification fuel rt t =
      run_one_iteration fuel rt t.blocks t.blocks t.exec >>= λ (s, e).
      ok (after_iteration s (record t { exec = e }))

abbrev param_done : {Q : Type 0} → ℕ → Option ℕ → Thread Q → Thread Q
param_done action none t = t
param_done action (some cb) t = log_effect (param_callback cb action) t

-- The id, the action and the callback of the item. A block that is not in the map is null, and
-- `b->alias()` in the log line goes through it.
unfoldable pub handle_parameter_query :
    {Q : Type 0} → ℕ → ℕ → Option ℕ → Thread Q → Outcome (Thread Q)
unfolding find_block
handle_parameter_query blkid action cb t = deref (find_block blkid t.block_map) >>= λ b.
    ok (param_done action cb (log_effect (on_parameter_query b action) t))

unfoldable pub handle_parameter_change :
    {Q : Type 0} → ℕ → ℕ → Option ℕ → Thread Q → Outcome (Thread Q)
unfolding find_block
handle_parameter_change blkid action cb t = deref (find_block blkid t.block_map) >>= λ b.
    ok (param_done action cb (log_effect (on_parameter_change b action) t))
