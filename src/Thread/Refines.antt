-- ===== src/Thread/Refines.antt =====
-- The machine of schedulers/triton/lib/thread_wrapper.cc keeps the promises of Thread.Lifecycle,
-- whatever the other threads do between its steps.
use gr4_torchdsp.Prelude.{
  ℕ, ◌≡◌, ◌≢◌, refl, sym, ◌∙◌, true, [], Option, none, some, arith, inl, inr, Bool-cases,
}
use gr4_torchdsp.Outcome.{ok, >>=-eq-ok}
use gr4_torchdsp.Runtime.{Runtime}
use gr4_torchdsp.Channel.{Channel, Message}
use gr4_torchdsp.Thread.State.{
  Thread, push_message, start, request_stop, kill, stop_blocks, done_blocks,
}
use gr4_torchdsp.Thread.Work.{handle_work_notification}
use gr4_torchdsp.Thread.Body.{
  Body, Place, moved, waiting, outer, inner, popping, working, finished, step, step_at,
  step_waiting, step_inner, step_popping, step_working, step_outer, step_popped, handle_message,
  launched,
}
use gr4_torchdsp.Thread.Kept.{handle_work_notification-Later, handle_message-Later}
use gr4_torchdsp.Thread.Runs.{
  Event, moves, pushed, started, stopped, stop_joined, wait_joined, Reach, start_here, after,
}
use gr4_torchdsp.Thread.Invariant.{Inv, Reach-Inv}
use gr4_torchdsp.Thread.Lifecycle.{end_stopping, ◌⟶◌, goes_on, stays, ◌⟶*◌, nothing, next}
use gr4_torchdsp.Thread.Seen.{
  View-eq, inside_phase, Change-⟶, handle_work_notification-Change, handle_message-Change,
}
use gr4_torchdsp.Thread.Phases.{view, started_seen, stopped_seen}

module _ (ch : Channel) (fuel : ℕ) (rt : Runtime) where
  open ch use {Queue, pop}

  step_waiting-⟶ :
      (b c : Body Queue) → b.place ≡ waiting → step_waiting ch fuel rt b ≡ moved c → view b ⟶ view c
  unfolding step_waiting
  step_waiting-⟶ b c at h =
      stays (View-eq (view b) (view c) (ground arith) (ground arith) (ground arith))

  step_outer-⟶ :
      (b c : Body Queue)
      → b.place ≡ outer
      → b.thread.ready_to_start ≡ true
      → step_outer ch fuel rt b ≡ moved c
      → view b ⟶ view c
  unfolding step_outer
  step_outer-⟶ b c at on h = elim (Bool-cases b.thread.thread_stopped) [
    | inl stop ↦
        goes_on (inside_phase b true (rw at tt) on stop) (ground arith) end_stopping (ground arith)
          (ground arith)
    | inr go ↦ stays (View-eq (view b) (view c) (ground arith) (ground arith) (ground arith))
  ]

  step_inner-⟶ :
      (b c : Body Queue) → b.place ≡ inner → step_inner ch fuel rt b ≡ moved c → view b ⟶ view c
  unfolding step_inner
  step_inner-⟶ b c at h =
      stays (View-eq (view b) (view c) (ground arith) (ground arith) (ground arith))

  step_popped-⟶ :
      (o : Option (Message × Queue)) (b c : Body Queue)
      → b.place ≡ popping
      → b.thread.ready_to_start ≡ true
      → step_popped ch fuel rt o b ≡ ok (moved c)
      → view b ⟶ view c
  unfolding step_popped
  step_popped-⟶ none b c at on h =
      stays (View-eq (view b) (view c) (ground arith) (ground arith) (ground arith))
  step_popped-⟶ (some (m, q)) b c at on h =
      let t = record b.thread { msgq = q } in
      let ((w, u), handled, turn) = >>=-eq-ok (handle_message ch fuel rt m b.do_some_work t) _ h in
      let later = handle_message-Later ch fuel rt m b.do_some_work w t u handled in
      let arrives : c.place ≡ inner = ground arith in
      let left : c.thread ≡ u = ground arith in
      Change-⟶ b c (rw at tt) (rw arrives tt) on (rw left (later.same_start ∙ on))
        (rw left (handle_message-Change ch fuel rt m b.do_some_work w t u handled))

  step_working-⟶ :
      (b c : Body Queue)
      → b.place ≡ working
      → b.thread.ready_to_start ≡ true
      → step_working ch fuel rt b ≡ ok (moved c)
      → view b ⟶ view c
  unfolding step_working
  step_working-⟶ b c at on h = elim (Bool-cases b.do_some_work) [
    | inr idle ↦ stays (View-eq (view b) (view c) (ground arith) (ground arith) (ground arith))
    | inl work ↦
        let ((r, u), handled, turn) =
          >>=-eq-ok (handle_work_notification ch fuel rt b.thread) _
            (rw (work, step_working) at h) in
        let later = handle_work_notification-Later ch fuel rt b.thread u r handled in
        let arrives : c.place ≡ outer = ground arith in
        let left : c.thread ≡ u = ground arith in
        Change-⟶ b c (rw at tt) (rw arrives tt) on (rw left (later.same_start ∙ on))
          (rw left (handle_work_notification-Change ch fuel rt b.thread u r handled))
  ]

  -- A thread that is not started stands at its first place.
  on_of :
      (b : Body Queue) (p : Place)
      → Inv b
      → b.place ≡ p
      → p ≢ waiting
      → b.thread.ready_to_start ≡ true
  on_of b p v at other = elim (Bool-cases b.thread.ready_to_start) [
    | inl on ↦ on
    | inr off ↦ absurd (other (sym at ∙ v.begun off))
  ]

  step_at-⟶ :
      (p : Place) (b c : Body Queue)
      → b.place ≡ p
      → Inv b
      → step_at ch fuel rt p b ≡ ok (moved c)
      → view b ⟶ view c
  unfolding step_at step_popping
  step_at-⟶ waiting b c at v h = step_waiting-⟶ b c at (cc)
  step_at-⟶ outer b c at v h = step_outer-⟶ b c at (on_of b outer v at (λ e. cc)) (cc)
  step_at-⟶ inner b c at v h = step_inner-⟶ b c at (cc)
  step_at-⟶ popping b c at v h =
      step_popped-⟶ (pop b.thread.msgq) b c at (on_of b popping v at (λ e. cc)) h
  step_at-⟶ working b c at v h = step_working-⟶ b c at (on_of b working v at (λ e. cc)) h
  step_at-⟶ finished b c at v h = cc

  started-⟶ : (b : Body Queue) → view b ⟶ view (record b { thread = start ch b.thread })
  unfolding start push_message
  started-⟶ b =
      started_seen b.place b.thread.ready_to_start b.thread.thread_stopped b.thread.flushing _

  stopped-⟶ : (b : Body Queue) → view b ⟶ view (record b { thread = request_stop ch b.thread })
  unfolding request_stop kill push_message
  stopped-⟶ b =
      stopped_seen b.place b.thread.ready_to_start b.thread.thread_stopped b.thread.flushing _

  Event-⟶ : {b c : Body Queue} → Event ch fuel rt b c → Inv b → view b ⟶ view c
  unfolding step push_message stop_blocks done_blocks
  Event-⟶ (moves {b = b} {c = c} h) v = step_at-⟶ b.place b c refl v h
  Event-⟶ (pushed m e) v = rw e (stays refl)
  Event-⟶ (started {b = b} e) v = rw e (started-⟶ b)
  Event-⟶ (stopped {b = b} e) v = rw e (stopped-⟶ b)
  Event-⟶ (stop_joined at e) v = rw e (stays refl)
  Event-⟶ (wait_joined at e) v = rw e (stays refl)

  -- From the moment the constructor launches it, in every
  -- interleaving, the whole run is a path of the diagram.
  Reach-⟶* :
      (t : Thread Queue) {c : Body Queue}
      → t.effects ≡ []
      → Reach ch fuel rt (launched t) c
      → view (launched t) ⟶* view c
  Reach-⟶* t e start_here = nothing
  Reach-⟶* t e (after r s) = next (Reach-⟶* t e r) (Event-⟶ s (Reach-Inv ch fuel rt t e r))

  -- The thread refines its life cycle. From the moment the constructor launches it, in every
  -- interleaving of its steps with messages, starts, stops and joins from other threads, what is
  -- seen of the run is a path of the diagram, and each next event is one step of the diagram or is
  -- not seen: the thread is created, or cancelled before its start, then running, stopping and
  -- ended, in this order; only while it is running or stopping does it start to flush; and only
  -- while it is flushing does it tell the monitor FLUSHED, once in an event.
  pub Reach-⟶ :
      (t : Thread Queue) {b c : Body Queue}
      → t.effects ≡ []
      → Reach ch fuel rt (launched t) b
      → Event ch fuel rt b c
      → (view (launched t) ⟶* view b) × (view b ⟶ view c)
  Reach-⟶ t e r s = (Reach-⟶* t e r, Event-⟶ s (Reach-Inv ch fuel rt t e r))

  -- What stays as it is once the thread has ended.
  abbrev StaysEnded : Body Queue → Body Queue → Type 0
  StaysEnded b c =
      (c.place ≡ finished)
      × (c.thread.flushing ≡ b.thread.flushing)
      × (c.thread.effects ≡ b.thread.effects)

  step-ended : (b c : Body Queue) → b.place ≡ finished → step ch fuel rt b ≢ ok (moved c)
  unfolding step step_at
  step-ended b c over h = let no = rw over at h in cc

  Event-StaysEnded : {b c : Body Queue} → Event ch fuel rt b c → b.place ≡ finished → StaysEnded b c
  unfolding push_message start request_stop kill stop_blocks done_blocks
  Event-StaysEnded (moves {b = b} {c = c} h) over = absurd (step-ended b c over h)
  Event-StaysEnded (pushed m e) over = rw e (over, refl, refl)
  Event-StaysEnded (started e) over = rw e (over, refl, refl)
  Event-StaysEnded (stopped e) over = rw e (over, refl, refl)
  Event-StaysEnded (stop_joined at e) over = rw e (over, refl, refl)
  Event-StaysEnded (wait_joined at e) over = rw e (over, refl, refl)

  -- The end is final. Once the thread has ended, its loop is not entered again, it does not start to
  -- flush, and it tells the monitor nothing more and calls nobody back, whatever messages, starts
  -- and stops still come.
  pub Reach-ended :
      {c d : Body Queue}
      → c.place ≡ finished
      → Reach ch fuel rt c d
      → (d.place ≡ finished)
        × (d.thread.flushing ≡ c.thread.flushing)
        × (d.thread.effects ≡ c.thread.effects)
  Reach-ended over start_here = (over, refl, refl)
  Reach-ended over (after r s) =
      let (place, flushing, effects) = Reach-ended over r in
      let (place', flushing', effects') = Event-StaysEnded s place in
      (place', flushing' ∙ flushing, effects' ∙ effects)
