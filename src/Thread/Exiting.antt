-- ===== src/Thread/Exiting.antt =====
-- EXIT, `stop` and the end of thread_body.
use gr4_torchdsp.Prelude.{ℕ, ◌≡◌, refl, Bool, true, false, List, ◌∷◌, some, if◌then◌else◌}
use gr4_torchdsp.Outcome.{ok}
use gr4_torchdsp.Runtime.{Runtime}
use gr4_torchdsp.Channel.{Channel, Message, scheduler_action, exit}
use gr4_torchdsp.Thread.State.{Thread, stop_blocks}
use gr4_torchdsp.Thread.Work.{handle_work_notification}
use gr4_torchdsp.Thread.Body.{
  Body, moved, outer, inner, working, finished, step, step_at, step_inner, step_working, step_outer,
  handle_message,
}
use gr4_torchdsp.Thread.Runs.{Runs, Runs-trans, Runs-one}
use gr4_torchdsp.Thread.Draining.{step-pops}
use gr4_torchdsp.Thread.Kept.{handle_work_notification-Later}

module _ (ch : Channel) (fuel : ℕ) (rt : Runtime) where
  open ch use {Queue, contents, pop, pop-cons}

  -- The thread after EXIT is taken from the queue.
  abbrev pub exited : Body Queue → Queue → Thread Queue
  exited b q = record (stop_blocks (record b.thread { msgq = q })) { thread_stopped = true }

  takes_exit :
      (b : Body Queue) (q : Queue)
      → b.place ≡ inner
      → b.thread.thread_stopped ≡ false
      → pop b.thread.msgq ≡ some (scheduler_action exit, q)
      → Runs ch fuel rt b (record b { place = inner; blocking_queue = false; thread = exited b q })
  takes_exit b q at run e =
      step-pops ch fuel rt b (scheduler_action exit) q b.do_some_work (exited b q) at run e
        (unfold handle_message in refl)

  pub leaves_inner :
      (b : Body Queue)
      → b.place ≡ inner
      → b.thread.thread_stopped ≡ true
      → step ch fuel rt b ≡ ok (moved (record b { place = working }))
  unfolding step
  leaves_inner b at stop = simp (at, step_at) (simp (stop, step_inner))

  pub idles :
      (b : Body Queue)
      → b.place ≡ working
      → b.do_some_work ≡ false
      → step ch fuel rt b ≡ ok (moved (record b { place = outer; blocking_queue = true }))
  unfolding step
  idles b at idle = simp (at, step_at) (simp (idle, step_working))

  pub works :
      (b : Body Queue) (r : Bool) (t : Thread Queue)
      → b.place ≡ working
      → b.do_some_work ≡ true
      → handle_work_notification ch fuel rt b.thread ≡ ok (r, t)
      → step ch fuel rt b
        ≡ ok (
            moved (record b {
              place = outer;
              blocking_queue = if r then b.blocking_queue else true;
              thread = t;
            }))
  unfolding step
  works b r t at work h = simp (at, step_at) (simp (work, step_working) (simp h))

  pub ends :
      (b : Body Queue)
      → b.place ≡ outer
      → b.thread.thread_stopped ≡ true
      → step ch fuel rt b ≡ ok (moved (record b { place = finished }))
  unfolding step
  ends b at stop = simp (at, step_at) (simp (stop, step_outer))

  -- The two steps from EXIT in front of the queue to the end of the inner loop.
  takes_and_leaves :
      (b : Body Queue) (ms : List Message)
      → b.place ≡ inner
      → b.thread.thread_stopped ≡ false
      → contents b.thread.msgq ≡ scheduler_action exit ∷ ms
      → (q : Queue) × (contents q ≡ ms)
        × (pop b.thread.msgq ≡ some (scheduler_action exit, q))
        × Runs ch fuel rt b
            (record b { place = working; blocking_queue = false; thread = exited b q })
  takes_and_leaves b ms at run e =
      let (q, popped, rest) = pop-cons b.thread.msgq (scheduler_action exit) ms e in
      let c = record b { place = inner; blocking_queue = false; thread = exited b q } in
      let taken = takes_exit b q at run popped in
      (
        q,
        rest,
        popped,
        Runs-trans ch fuel rt taken (Runs-one ch fuel rt (leaves_inner c refl refl)),
      )

  -- Once EXIT is taken, if no work was asked for earlier in the same batch, the blocks are stopped
  -- and the thread ends without taking another message and without another iteration.
  pub Runs-exit_idle :
      (b : Body Queue) (ms : List Message)
      → b.place ≡ inner
      → b.thread.thread_stopped ≡ false
      → contents b.thread.msgq ≡ scheduler_action exit ∷ ms
      → b.do_some_work ≡ false
      → (q : Queue) × (contents q ≡ ms)
        × Runs ch fuel rt b
            (record b { place = finished; blocking_queue = true; thread = exited b q })
  Runs-exit_idle b ms at run e idle =
      let (q, rest, _, left) = takes_and_leaves b ms at run e in
      let d = record b { place = working; blocking_queue = false; thread = exited b q } in
      let rested = Runs-trans ch fuel rt left (Runs-one ch fuel rt (idles d refl idle)) in
      let o = record d { place = outer; blocking_queue = true } in
      (q, rest, Runs-trans ch fuel rt rested (Runs-one ch fuel rt (ends o refl refl)))

  -- The same with work asked for: the thread comes to call `handle_work_notification`.
  pub Runs-exit_calls :
      (b : Body Queue) (ms : List Message)
      → b.place ≡ inner
      → b.thread.thread_stopped ≡ false
      → contents b.thread.msgq ≡ scheduler_action exit ∷ ms
      → b.do_some_work ≡ true
      → (q : Queue) × (contents q ≡ ms)
        × ((r : Bool) (t : Thread Queue)
            → handle_work_notification ch fuel rt (exited b q) ≡ ok (r, t)
            → Runs ch fuel rt b (record b {
              place = finished;
              blocking_queue = if r then false else true;
              thread = t;
            }))
  Runs-exit_calls b ms at run e work =
      let (q, rest, popped, left) = takes_and_leaves b ms at run e in
      let d = record b { place = working; blocking_queue = false; thread = exited b q } in
      (
        q,
        rest,
        λ r t h.
            let worked =
              Runs-trans ch fuel rt left (Runs-one ch fuel rt (works d r t refl work h)) in
            let o = record d {
              place = outer;
              blocking_queue = if r then false else true;
              thread = t;
            } in
            let stays = handle_work_notification-Later ch fuel rt (exited b q) t r h in
            Runs-trans ch fuel rt worked
              (Runs-one ch fuel rt (ends o refl (stays.stays_stopped refl))),
      )
