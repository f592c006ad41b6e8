-- ===== src/Thread/Draining.antt =====
-- How the inner loop of thread_body empties the queue before it does any work.
use gr4_torchdsp.Prelude.{ℕ, ◌≡◌, refl, Bool, true, false, List, [], ◌∷◌, some, arith, All}
use gr4_torchdsp.Outcome.{ok}
use gr4_torchdsp.Runtime.{Runtime}
use gr4_torchdsp.Channel.{
  Channel, Message, scheduler_action, notify_output, notify_input, notify_all,
}
use gr4_torchdsp.Thread.State.{Thread}
use gr4_torchdsp.Thread.Body.{
  Body, moved, inner, popping, working, step, step_at, step_inner, step_popping, step_popped,
  handle_message,
}
use gr4_torchdsp.Thread.Runs.{Runs, then, Runs-trans, Runs-one}

-- A message that asks for work and does nothing else.
abbrev pub AsksForWork : Message → Type 0
AsksForWork (scheduler_action notify_output) = Unit
AsksForWork (scheduler_action notify_input) = Unit
AsksForWork (scheduler_action notify_all) = Unit
AsksForWork _ = ⊥

-- The thread once a work notification is taken, and once the queue is empty.
abbrev pub asked : {Q : Type 0} → Body Q → Q → Body Q
asked b q = record b {
  blocking_queue = false;
  do_some_work = true;
  thread = record b.thread { msgq = q };
}

abbrev pub drained : {Q : Type 0} → Body Q → Q → Body Q
drained b q = record (asked b q) { place = working }

module _ (ch : Channel) (fuel : ℕ) (rt : Runtime) where
  open ch use {Queue, contents, pop, pop-nil, pop-cons}

  abbrev Drained : Body Queue → Type 0
  Drained b = (q : Queue) × (contents q ≡ []) × Runs ch fuel rt b (drained b q)

  pub goes_in :
      (b : Body Queue)
      → b.place ≡ inner
      → b.thread.thread_stopped ≡ false
      → step ch fuel rt b ≡ ok (moved (record b { place = popping }))
  unfolding step
  goes_in b at run = simp (at, step_at) (simp (run, step_inner))

  step-empty :
      (b : Body Queue)
      → b.place ≡ inner
      → b.thread.thread_stopped ≡ false
      → b.blocking_queue ≡ false
      → b.do_some_work ≡ true
      → contents b.thread.msgq ≡ []
      → Runs ch fuel rt b (drained b b.thread.msgq)
  unfolding step
  step-empty b at run block work e =
      let c = record b { place = popping } in
      let left : step ch fuel rt c ≡ ok (moved (drained b b.thread.msgq)) =
        ground (arith, pop-nil b.thread.msgq e) in
      then (Runs-one ch fuel rt (goes_in b at run)) left

  pub step-takes :
      (b : Body Queue) (m : Message) (q : Queue) (w : Bool) (t : Thread Queue)
      → b.place ≡ popping
      → pop b.thread.msgq ≡ some (m, q)
      → handle_message ch fuel rt m b.do_some_work (record b.thread { msgq = q }) ≡ ok (w, t)
      → step ch fuel rt b
        ≡ ok (
            moved
              (record b { place = inner; blocking_queue = false; do_some_work = w; thread = t }))
  unfolding step
  step-takes b m q w t at e h = simp (at, step_at) (simp (e, step_popping) (simp (h, step_popped)))

  pub step-pops :
      (b : Body Queue) (m : Message) (q : Queue) (w : Bool) (t : Thread Queue)
      → b.place ≡ inner
      → b.thread.thread_stopped ≡ false
      → pop b.thread.msgq ≡ some (m, q)
      → handle_message ch fuel rt m b.do_some_work (record b.thread { msgq = q }) ≡ ok (w, t)
      → Runs ch fuel rt b
          (record b { place = inner; blocking_queue = false; do_some_work = w; thread = t })
  unfolding step
  step-pops b m q w t at run e h =
      then (Runs-one ch fuel rt (goes_in b at run))
        (step-takes (record b { place = popping }) m q w t refl e h)

  handle_message-asks :
      (m : Message) (w : Bool) (t : Thread Queue)
      → AsksForWork m
      → handle_message ch fuel rt m w t ≡ ok (true, t)
  unfolding handle_message
  handle_message-asks (scheduler_action notify_output) w t h = refl
  handle_message-asks (scheduler_action notify_input) w t h = refl
  handle_message-asks (scheduler_action notify_all) w t h = refl
  handle_message-asks _ w t h = absurd h

  step-asks :
      (b : Body Queue) (m : Message) (q : Queue)
      → b.place ≡ inner
      → b.thread.thread_stopped ≡ false
      → AsksForWork m
      → pop b.thread.msgq ≡ some (m, q)
      → Runs ch fuel rt b (record (asked b q) { place = inner })
  step-asks b m q at run asks e =
      step-pops b m q true (record b.thread { msgq = q }) at run e
        (handle_message-asks m b.do_some_work (record b.thread { msgq = q }) asks)

  Runs-drain_busy :
      (ms : List Message) (b : Body Queue)
      → b.place ≡ inner
      → b.thread.thread_stopped ≡ false
      → b.blocking_queue ≡ false
      → b.do_some_work ≡ true
      → contents b.thread.msgq ≡ ms
      → All AsksForWork ms
      → Drained b
  Runs-drain_busy [] b at run block work e asks =
      (b.thread.msgq, e, step-empty b at run block work e)
  Runs-drain_busy (m ∷ ms) b at run block work e asks =
      let (q, popped, rest) = pop-cons b.thread.msgq m ms e in
      let one = step-asks b m q at run asks.0 popped in
      let (q', empty, more) =
        Runs-drain_busy ms (record (asked b q) { place = inner }) refl run refl refl rest asks.1 in
      (q', empty, Runs-trans ch fuel rt one more)

  -- A queue of work notifications, one or more, is emptied one by one, and then the thread leaves
  -- the inner loop with `do_some_work` set: however many there are, they lead to one call of
  -- `handle_work_notification`. The thread changes in nothing but its queue.
  pub Runs-drain :
      (m : Message) (ms : List Message) (b : Body Queue)
      → b.place ≡ inner
      → b.thread.thread_stopped ≡ false
      → contents b.thread.msgq ≡ m ∷ ms
      → All AsksForWork (m ∷ ms)
      → (q : Queue) × (contents q ≡ []) × Runs ch fuel rt b (drained b q)
  Runs-drain m ms b at run e asks =
      let (q, popped, rest) = pop-cons b.thread.msgq m ms e in
      let one = step-asks b m q at run asks.0 popped in
      let (q', empty, more) =
        Runs-drain_busy ms (record (asked b q) { place = inner }) refl run refl refl rest asks.1 in
      (q', empty, Runs-trans ch fuel rt one more)
