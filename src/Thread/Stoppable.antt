-- ===== src/Thread/Stoppable.antt =====
-- `stop` of schedulers/triton/lib/thread_wrapper.cc at any moment of a run of the whole program.
use gr4_torchdsp.Prelude.{
  ℕ, suc, ◌≡◌, refl, sym, subst, ap, ◌∙◌, Bool, true, List, ◌∷◌, Option, none, some, inl, inr,
  last?, Bool-cases, arith,
}
use gr4_torchdsp.Outcome.{Outcome, ok, fault, >>=-eq-ok, ok-snd}
use gr4_torchdsp.Runtime.{Runtime}
use gr4_torchdsp.Channel.{Channel, Message, exit, notify_all, scheduler_action}
use gr4_torchdsp.Executor.Behaved.{WellBehaved, Wires}
use gr4_torchdsp.Executor.Iteration.{run_one_iteration}
use gr4_torchdsp.Thread.State.{
  Thread, kill, push_message, stop_blocks, request_stop, start, done_blocks,
}
use gr4_torchdsp.Thread.Work.{handle_work_notification}
use gr4_torchdsp.Thread.Body.{
  Body, Turn, Place, moved, waits, waiting, outer, inner, popping, working, finished, step, step_at,
  step_waiting, step_outer, step_popped, step_inner, step_popping, step_working, handle_message,
}
use gr4_torchdsp.Thread.Runs.{
  Runs, Reach, start_here, after, moves, pushed, started, stopped, stop_joined, wait_joined,
}
use gr4_torchdsp.Thread.Answers.{Runnable, Answerable}
use gr4_torchdsp.Thread.Stopping.{handle_work_notification-returns, Runs-stop}
use gr4_torchdsp.Thread.Sustained.{
  Live, Keeps, Keeps-Live, queue-All, pop-All, handle_message-Keeps, after_iteration-Keeps,
  All-snoc,
}

module _ (ch : Channel) (fuel : ℕ) (rt : Runtime) (first : ℕ) (rest : List ℕ) (last : ℕ)
    (wires : Wires) (l : last? (first ∷ rest) ≡ some last)
    (good : WellBehaved wires rt first last) where
  open ch use {Queue, contents, pop, contents-push}

  -- The thread of a body is live.
  abbrev pub Lives : Body Queue → Type 0
  Lives b = Live ch first rest wires b.thread

  -- The thread that a step leaves, or the one that was there.
  abbrev left_by : Thread Queue → Outcome (Turn Queue) → Thread Queue
  left_by t (ok (moved c)) = c.thread
  left_by t (ok waits) = t
  left_by t (fault x) = t

  Lives-same :
      (b c : Body Queue) (o : Outcome (Turn Queue))
      → left_by b.thread o ≡ b.thread
      → o ≡ ok (moved c)
      → Lives b
      → Lives c
  Lives-same b c o same h live =
      subst (Live ch first rest wires) (sym same ∙ ap (left_by b.thread) h) live

  handle_work_notification-Live :
      (t u : Thread Queue) (r : Bool)
      → handle_work_notification ch (suc fuel) rt t ≡ ok (r, u)
      → Live ch first rest wires t
      → Live ch first rest wires u
  unfolding handle_work_notification
  handle_work_notification-Live t u r h live =
      let (r', u', ran, runs) =
        handle_work_notification-returns ch fuel rt first rest last wires l good t live.0 in
      let ((s, e), _, q) =
        >>=-eq-ok (run_one_iteration (suc fuel) rt t.blocks t.blocks t.exec) _ h in
      let t' = record t { exec = e } in
      let keeps =
        subst (Keeps ch first rest wires t') (ok-snd q)
          (after_iteration-Keeps ch first rest wires (suc fuel) rt s t') in
      (
        subst (Runnable first rest wires) (ok-snd (sym ran ∙ h)) runs,
        rw (keeps.2) (
            queue-All ch first rest wires (Answerable t.block_map) t.msgq u.msgq tt keeps.3 live.1),
      )

  step_popped-Lives :
      (o : Option (Message × Queue)) (b c : Body Queue)
      → pop b.thread.msgq ≡ o
      → step_popped ch (suc fuel) rt o b ≡ ok (moved c)
      → Lives b
      → Lives c
  unfolding step_popped
  step_popped-Lives none b c e h live = Lives-same b c _ (ground arith) h live
  step_popped-Lives (some (m, q)) b c e h live =
      let t = record b.thread { msgq = q } in
      let ((w, u), handled, turn) =
        >>=-eq-ok (handle_message ch (suc fuel) rt m b.do_some_work t) _ h in
      let (_, left) =
        pop-All ch first rest wires (Answerable b.thread.block_map) b.thread.msgq q m _ refl e
          live.1 in
      let keeps =
        handle_message-Keeps ch first rest wires (suc fuel) rt m b.do_some_work w t u handled in
      let lives = Keeps-Live ch first rest wires t u keeps (live.0, left) in
      subst (Live ch first rest wires) (ap (left_by b.thread) turn) lives

  step_working-Lives :
      (b c : Body Queue) → step_working ch (suc fuel) rt b ≡ ok (moved c) → Lives b → Lives c
  unfolding step_working
  step_working-Lives b c h live = elim (Bool-cases b.do_some_work) [
    | inr idle ↦ Lives-same b c _ (rw idle refl) h live
    | inl work ↦
        let ((r, u), handled, turn) =
          >>=-eq-ok (handle_work_notification ch (suc fuel) rt b.thread) _
            (rw (work, step_working) at h) in
        let lives = handle_work_notification-Live b.thread u r handled live in
        subst (Live ch first rest wires) (ap (left_by b.thread) turn) lives
  ]

  step_at-Lives :
      (p : Place) (b c : Body Queue)
      → step_at ch (suc fuel) rt p b ≡ ok (moved c)
      → Lives b
      → Lives c
  unfolding step_at step_waiting step_outer step_inner step_popping
  step_at-Lives waiting b c h live = Lives-same b c _ (ground arith) h live
  step_at-Lives outer b c h live = Lives-same b c _ (ground arith) h live
  step_at-Lives inner b c h live = Lives-same b c _ (ground arith) h live
  step_at-Lives popping b c h live = step_popped-Lives _ b c refl h live
  step_at-Lives working b c h live = step_working-Lives b c h live
  step_at-Lives finished b c h live = cc

  -- Every message that another thread pushed on the way can be answered.
  abbrev pub Answered : {b c : Body Queue} → Reach ch (suc fuel) rt b c → Type 0
  Answered start_here = Unit
  Answered (after {c = k} r (pushed m e)) = Answerable k.thread.block_map m × Answered r
  Answered (after r (moves q)) = Answered r
  Answered (after r (started e)) = Answered r
  Answered (after r (stopped e)) = Answered r
  Answered (after r (stop_joined at e)) = Answered r
  Answered (after r (wait_joined at e)) = Answered r

  pushes-Live :
      (m : Message) (t : Thread Queue)
      → Answerable t.block_map m
      → Live ch first rest wires t
      → Live ch first rest wires (push_message ch m t)
  unfolding push_message
  pushes-Live m t a live = (
    live.0,
    rw (contents-push t.msgq m) (All-snoc (Answerable t.block_map) (contents t.msgq) m live.1 a),
  )

  start-Live :
      (t : Thread Queue) → Live ch first rest wires t → Live ch first rest wires (start ch t)
  unfolding start
  start-Live t live = pushes-Live (scheduler_action notify_all) t tt live

  request_stop-Live :
      (t : Thread Queue) → Live ch first rest wires t → Live ch first rest wires (request_stop ch t)
  unfolding request_stop kill
  request_stop-Live t live = pushes-Live (scheduler_action exit) t tt live

  pub Reach-Lives :
      {b c : Body Queue} (r : Reach ch (suc fuel) rt b c) → Answered r → Lives b → Lives c
  unfolding step stop_blocks done_blocks
  Reach-Lives start_here a live = live
  Reach-Lives (after {c = k} {d = d} r (moves q)) a live =
      step_at-Lives k.place k d q (Reach-Lives r a live)
  Reach-Lives (after {c = k} r (pushed m e)) (now, a) live =
      rw e (pushes-Live m k.thread now (Reach-Lives r a live))
  Reach-Lives (after {c = k} r (started e)) a live =
      rw e (start-Live k.thread (Reach-Lives r a live))
  Reach-Lives (after {c = k} r (stopped e)) a live =
      rw e (request_stop-Live k.thread (Reach-Lives r a live))
  Reach-Lives (after r (stop_joined at e)) a live = rw e (Reach-Lives r a live)
  Reach-Lives (after r (wait_joined at e)) a live = rw e (Reach-Lives r a live)

  -- `stop` may be called at any moment. Take any interleaving of the thread's steps with messages,
  -- starts and stops from other threads, in which every message pushed names, if it is about a
  -- parameter, a block of the thread. If the blocks behave as the scheduler asks, and the chain was
  -- in place and the queue answerable at the beginning, then at any later time at which the thread
  -- is started, once `stop` has set its flag and pushed EXIT the thread runs to its end by itself.
  pub Reach-stop :
      (b c : Body Queue) (r : Reach ch (suc fuel) rt b c)
      → Answered r
      → Lives b
      → c.thread.ready_to_start ≡ true
      → (d : Body Queue) × Runs ch (suc fuel) rt (record c { thread = request_stop ch c.thread }) d
        × (d.place ≡ finished)
  Reach-stop b c r a live on =
      let (runs, answers) = Reach-Lives r a live in
      Runs-stop ch fuel rt first rest last wires l good c on runs answers
