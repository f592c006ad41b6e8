-- ===== src/Thread/Stopping.antt =====
-- `stop` of schedulers/triton/lib/thread_wrapper.cc, lines 41 to 51: why its join returns.
use gr4_torchdsp.Prelude.{
  ℕ, suc, ◌≡◌, refl, ap, ◌∙◌, Bool, true, List, [], ◌∷◌, ◌++◌, some, inl, inr, All, last?,
  Bool-cases, arith,
}
use gr4_torchdsp.Outcome.{ok}
use gr4_torchdsp.Runtime.{Runtime, Status}
use gr4_torchdsp.Channel.{Channel, Message, exit, scheduler_action}
use gr4_torchdsp.Executor.Work.{Exec}
use gr4_torchdsp.Executor.Behaved.{WellBehaved, Wires, IsWired}
use gr4_torchdsp.Executor.Total.{run_one_iteration-returns}
use gr4_torchdsp.Thread.State.{Thread, request_stop}
use gr4_torchdsp.Thread.Work.{after_iteration, handle_work_notification}
use gr4_torchdsp.Thread.Body.{
  Body, Place, moved, waiting, outer, inner, popping, working, finished, step, step_at,
  step_waiting,
}
use gr4_torchdsp.Thread.Kept.{handle_work_notification-Later, handle_message-Later}
use gr4_torchdsp.Thread.Runs.{Runs, here, Runs-trans, Runs-one}
use gr4_torchdsp.Thread.Answers.{Runnable, Answerable, handle_message-returns}
use gr4_torchdsp.Thread.Draining.{step-takes}
use gr4_torchdsp.Thread.Exiting.{works, idles, ends, leaves_inner}

IsWired-wio : (wires : Wires) (e e' : Exec) → e'.wio ≡ e.wio → IsWired wires e → IsWired wires e'
IsWired-wio wires e e' same sound = rw same sound

module _ (ch : Channel) (fuel : ℕ) (rt : Runtime) (first : ℕ) (rest : List ℕ) (last : ℕ)
    (wires : Wires) (l : last? (first ∷ rest) ≡ some last)
    (good : WellBehaved wires rt first last) where
  open ch use {Queue, contents, push, pop, contents-push, pop-cons}

  after_iteration-blocks :
      (s : Status) (t : Thread Queue)
      → ((after_iteration ch s t).1.blocks ≡ t.blocks) × ((after_iteration ch s t).1.exec ≡ t.exec)
  unfolding after_iteration
  after_iteration-blocks s t = ground arith

  pub handle_work_notification-returns :
      (t : Thread Queue)
      → Runnable first rest wires t
      → (r : Bool) × (u : Thread Queue) × (handle_work_notification ch (suc fuel) rt t ≡ ok (r, u))
        × Runnable first rest wires u
  unfolding handle_work_notification
  handle_work_notification-returns t (blocks, sound) =
      let (s, e, ran, sound') =
        run_one_iteration-returns rt fuel (first ∷ rest) first rest last wires t.exec l good
          sound in
      let (same_blocks, same_exec) = after_iteration-blocks s (record t { exec = e }) in
      let (r, u) = after_iteration ch s (record t { exec = e }) in
      (
        r,
        u,
        rw (blocks, ran),
        (same_blocks ∙ blocks, IsWired-wio wires e u.exec (ap (λ x. x.wio) same_exec) sound'),
      )

  abbrev pub Ends : Body Queue → Type 0
  Ends b = (c : Body Queue) × Runs ch (suc fuel) rt b c × (c.place ≡ finished)

  after_run : (b c : Body Queue) → Runs ch (suc fuel) rt b c → Ends c → Ends b
  after_run b c r (d, s, at) = (d, Runs-trans ch (suc fuel) rt r s, at)

  pub after_step : (b c : Body Queue) → step ch (suc fuel) rt b ≡ ok (moved c) → Ends c → Ends b
  after_step b c q = after_run b c (Runs-one ch (suc fuel) rt q)

  pub from_outer : (b : Body Queue) → b.place ≡ outer → b.thread.thread_stopped ≡ true → Ends b
  from_outer b at stop = (_, Runs-one ch (suc fuel) rt (ends ch (suc fuel) rt b at stop), refl)

  from_working :
      (b : Body Queue)
      → b.place ≡ working
      → b.thread.thread_stopped ≡ true
      → Runnable first rest wires b.thread
      → Ends b
  from_working b at stop runs = elim (Bool-cases b.do_some_work) [
    | inr idle ↦ after_step b _ (idles ch (suc fuel) rt b at idle) (from_outer _ refl stop)
    | inl work ↦
        let (r, u, ran, _) = handle_work_notification-returns b.thread runs in
        let kept = handle_work_notification-Later ch (suc fuel) rt b.thread u r ran in
        after_step b _ (works ch (suc fuel) rt b r u at work ran)
          (from_outer _ refl (kept.stays_stopped stop))
  ]

  pub from_inner :
      (b : Body Queue)
      → b.place ≡ inner
      → b.thread.thread_stopped ≡ true
      → Runnable first rest wires b.thread
      → Ends b
  from_inner b at stop runs =
      after_step b _ (leaves_inner ch (suc fuel) rt b at stop) (from_working _ refl stop runs)

  -- EXIT is in the queue, so `pop` comes back with it or with a message before it.
  from_popping :
      (b : Body Queue) (m : Message) (ms : List Message)
      → b.place ≡ popping
      → b.thread.thread_stopped ≡ true
      → Runnable first rest wires b.thread
      → contents b.thread.msgq ≡ m ∷ ms
      → Answerable b.thread.block_map m
      → Ends b
  from_popping b m ms at stop (blocks, sound) e a =
      let (q, popped, _) = pop-cons b.thread.msgq m ms e in
      let t = record b.thread { msgq = q } in
      let (w, u, handled, same_blocks, same_wio) =
        handle_message-returns ch (suc fuel) rt m b.do_some_work t a in
      let kept = handle_message-Later ch (suc fuel) rt m b.do_some_work w t u handled in
      after_step b _ (step-takes ch (suc fuel) rt b m q w u at popped handled) (
        from_inner _ refl (kept.stays_stopped stop)
          (same_blocks ∙ blocks, IsWired-wio wires t.exec u.exec same_wio sound))

  from_popping_each :
      (b : Body Queue) (ms : List Message)
      → b.place ≡ popping
      → b.thread.thread_stopped ≡ true
      → Runnable first rest wires b.thread
      → contents b.thread.msgq ≡ ms ++ scheduler_action exit ∷ []
      → All (Answerable b.thread.block_map) ms
      → Ends b
  from_popping_each b [] at stop runs e a =
      from_popping b (scheduler_action exit) [] at stop runs e tt
  from_popping_each b (m ∷ ms) at stop runs e a = from_popping b m _ at stop runs e a.0

  asked_to_stop : Body Queue → Body Queue
  asked_to_stop b = record b { thread = request_stop ch b.thread }

  from_place :
      (p : Place) (b : Body Queue)
      → b.place ≡ p
      → b.thread.ready_to_start ≡ true
      → Runnable first rest wires b.thread
      → All (Answerable b.thread.block_map) (contents b.thread.msgq)
      → Ends (asked_to_stop b)
  unfolding asked_to_stop request_stop
  from_place waiting b at ready runs a =
      let c = asked_to_stop b in
      let goes : step ch (suc fuel) rt c
          ≡ ok (moved (record c { place = outer; blocking_queue = true })) =
        unfold step in simp (at, step_at) (simp (ready, step_waiting)) in
      after_step c _ goes (from_outer _ refl refl)
  from_place outer b at ready runs a = from_outer (asked_to_stop b) at refl
  from_place inner b at ready runs a = from_inner (asked_to_stop b) at refl runs
  from_place popping b at ready runs a =
      from_popping_each (asked_to_stop b) (contents b.thread.msgq) at refl runs
        (contents-push b.thread.msgq (scheduler_action exit)) a
  from_place working b at ready runs a = from_working (asked_to_stop b) at refl runs
  from_place finished b at ready runs a = (asked_to_stop b, here, at)

  -- Wherever a started thread is, once `stop` has set its flag and pushed EXIT the thread runs to
  -- its end by itself, so that the join of `stop` returns: if the blocks behave as the scheduler
  -- asks, the ports and buffers of the wiring are in place, and the queued parameter messages name
  -- blocks of the thread.
  pub Runs-stop :
      (b : Body Queue)
      → b.thread.ready_to_start ≡ true
      → Runnable first rest wires b.thread
      → All (Answerable b.thread.block_map) (contents b.thread.msgq)
      → (c : Body Queue) × Runs ch (suc fuel) rt (record b { thread = request_stop ch b.thread }) c
        × (c.place ≡ finished)
  unfolding asked_to_stop
  Runs-stop b ready runs a = from_place b.place b refl ready runs a
