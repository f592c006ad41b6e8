-- ===== src/Thread/Invariant.antt =====
-- What holds of the thread at every moment, whatever the other threads do.
use gr4_torchdsp.Prelude.{
  ℕ, ◌<◌, ◌≡◌, refl, sym, ◌∙◌, Bool, true, false, [], Option, none, some, arith, inl, inr,
  Bool-cases,
}
use gr4_torchdsp.Outcome.{ok, >>=-eq-ok}
use gr4_torchdsp.Runtime.{Runtime, Status}
use gr4_torchdsp.Channel.{Channel, Message}
use gr4_torchdsp.Thread.State.{Thread, push_message, start, request_stop, stop_blocks, done_blocks}
use gr4_torchdsp.Thread.Work.{after_iteration, handle_work_notification}
use gr4_torchdsp.Thread.Body.{
  Body, Place, moved, waits, waiting, outer, inner, popping, working, finished, step, step_at,
  step_waiting, step_inner, step_popping, step_working, step_outer, step_popped, handle_message,
  launched,
}
use gr4_torchdsp.Executor.Iteration.{run_one_iteration}
use gr4_torchdsp.Thread.Flushing.{flushed_count}
use gr4_torchdsp.Thread.Kept.{handle_work_notification-Later, handle_message-Later}
use gr4_torchdsp.Thread.Runs.{
  Event, moves, pushed, started, stopped, stop_joined, wait_joined, Reach, start_here, after, Runs,
  here, then,
}

-- The monitor is told FLUSHED only while the thread is flushing.
abbrev Told : {Q : Type 0} → Thread Q → Type 0
Told t = 0 < flushed_count t.effects → t.flushing ≡ true

pub record Inv {Q : Type 0} (b : Body Q) : Type 0 where
  pub told : Told b.thread
  pub ended : b.place ≡ finished → b.thread.thread_stopped ≡ true
  pub begun : b.thread.ready_to_start ≡ false → b.place ≡ waiting

module _ (ch : Channel) (fuel : ℕ) (rt : Runtime) where
  open ch use {Queue, pop}

  after_iteration-Told : (s : Status) (t : Thread Queue) → Told t → Told (after_iteration ch s t).1
  unfolding after_iteration
  after_iteration-Told s t h = ground arith

  handle_work_notification-Told :
      (t u : Thread Queue) (r : Bool)
      → handle_work_notification ch fuel rt t ≡ ok (r, u)
      → Told t
      → Told u
  unfolding handle_work_notification
  handle_work_notification-Told t u r h told =
      let ((s, e), _, q) = >>=-eq-ok (run_one_iteration fuel rt t.blocks t.blocks t.exec) _ h in
      let same : u ≡ (after_iteration ch s (record t { exec = e })).1 = ground arith in
      rw same (after_iteration-Told s (record t { exec = e }) told)

  handle_message-Told :
      (m : Message) (w w' : Bool) (t u : Thread Queue)
      → handle_message ch fuel rt m w t ≡ ok (w', u)
      → Told t
      → Told u
  unfolding handle_message
  handle_message-Told m w w' t u h told = ground arith

  step_waiting-Inv :
      (b c : Body Queue) → b.place ≡ waiting → step_waiting ch fuel rt b ≡ moved c → Inv b → Inv c
  unfolding step_waiting
  step_waiting-Inv b c at h v = ground arith

  step_outer-Inv :
      (b c : Body Queue) → b.place ≡ outer → step_outer ch fuel rt b ≡ moved c → Inv b → Inv c
  unfolding step_outer
  step_outer-Inv b c at h v = ground arith

  step_popped-Inv :
      (o : Option (Message × Queue)) (b c : Body Queue)
      → b.place ≡ popping
      → step_popped ch fuel rt o b ≡ ok (moved c)
      → Inv b
      → Inv c
  unfolding step_popped
  step_popped-Inv none b c at h v = ground arith
  step_popped-Inv (some (m, q)) b c at h v =
      let t = record b.thread { msgq = q } in
      let ((w, u), handled, turn) = >>=-eq-ok (handle_message ch fuel rt m b.do_some_work t) _ h in
      let later = handle_message-Later ch fuel rt m b.do_some_work w t u handled in
      let told = handle_message-Told m b.do_some_work w t u handled v.told in ground arith

  step_inner-Inv :
      (b c : Body Queue) → b.place ≡ inner → step_inner ch fuel rt b ≡ moved c → Inv b → Inv c
  unfolding step_inner
  step_inner-Inv b c at h v = ground arith

  step_popping-Inv :
      (b c : Body Queue)
      → b.place ≡ popping
      → step_popping ch fuel rt b ≡ ok (moved c)
      → Inv b
      → Inv c
  unfolding step_popping
  step_popping-Inv b c at h v = step_popped-Inv (pop b.thread.msgq) b c at h v

  step_working-Inv :
      (b c : Body Queue)
      → b.place ≡ working
      → step_working ch fuel rt b ≡ ok (moved c)
      → Inv b
      → Inv c
  unfolding step_working
  step_working-Inv b c at h v = elim (Bool-cases b.do_some_work) [
    | inr idle ↦ ground arith
    | inl work ↦
        let ((r, u), handled, turn) =
          >>=-eq-ok (handle_work_notification ch fuel rt b.thread) _
            (rw (work, step_working) at h) in
        let later = handle_work_notification-Later ch fuel rt b.thread u r handled in
        let told = handle_work_notification-Told b.thread u r handled v.told in ground arith
  ]

  step_at-Inv :
      (p : Place) (b c : Body Queue)
      → b.place ≡ p
      → step_at ch fuel rt p b ≡ ok (moved c)
      → Inv b
      → Inv c
  unfolding step_at
  step_at-Inv waiting b c at h v = step_waiting-Inv b c at (cc) v
  step_at-Inv outer b c at h v = step_outer-Inv b c at (cc) v
  step_at-Inv inner b c at h v = step_inner-Inv b c at (cc) v
  step_at-Inv popping b c at h v = step_popping-Inv b c at h v
  step_at-Inv working b c at h v = step_working-Inv b c at h v
  step_at-Inv finished b c at h v = cc

  pub Event-Inv : {b c : Body Queue} → Event ch fuel rt b c → Inv b → Inv c
  unfolding step push_message start request_stop stop_blocks done_blocks
  Event-Inv (moves {b = b} {c = c} h) v = step_at-Inv b.place b c refl h v
  Event-Inv (pushed m e) v = rw e (record { told = v.told; ended = v.ended; begun = v.begun })
  Event-Inv (started e) v = ground arith
  Event-Inv (stopped e) v = ground arith
  Event-Inv (stop_joined _ e) v = ground arith
  Event-Inv (wait_joined _ e) v = ground arith

  launched-Inv : (t : Thread Queue) → t.effects ≡ [] → Inv (launched t)
  launched-Inv t e = ground arith

  -- In every interleaving of the thread's steps with messages, starts and stops from other threads:
  -- the monitor is told FLUSHED only when the thread is flushing; the thread ends only when it was
  -- stopped; and before `start` it has not moved at all.
  pub Reach-Inv :
      (t : Thread Queue) {c : Body Queue} → t.effects ≡ [] → Reach ch fuel rt (launched t) c → Inv c
  Reach-Inv t e start_here = launched-Inv t e
  Reach-Inv t e (after r s) = Event-Inv s (Reach-Inv t e r)

  -- Before `start` the thread only waits, whatever messages and stops arrive.
  Reach-unstarted :
      (t : Thread Queue) (c : Body Queue)
      → t.effects ≡ []
      → Reach ch fuel rt (launched t) c
      → c.thread.ready_to_start ≡ false
      → (c.place ≡ waiting) × (step ch fuel rt c ≡ ok waits)
  unfolding step
  Reach-unstarted t c e r off =
      let at = (Reach-Inv t e r).begun off in (at, simp (at, step_at) (simp (off, step_waiting)))

  -- A thread that was not started stays where it is as long as it is left alone.
  pub Runs-unstarted :
      {b c : Body Queue}
      → Runs ch fuel rt b c
      → b.place ≡ waiting
      → b.thread.ready_to_start ≡ false
      → (c.place ≡ waiting) × (c.thread.ready_to_start ≡ false)
  unfolding step
  Runs-unstarted here at off = (at, off)
  Runs-unstarted (then {c = c} {d = d} r q) at off =
      let (at', off') = Runs-unstarted r at off in
      let idle : step ch fuel rt c ≡ ok waits = simp (at', step_at) (simp (off', step_waiting)) in
      let stays : ok waits ≡ ok (moved d) = sym idle ∙ q in cc
