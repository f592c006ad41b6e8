-- ===== src/Thread/Killed.antt =====
-- `kill` of schedulers/triton/lib/thread_wrapper.cc, lines 67 to 70, and the EXIT that it pushes:
-- why the join of `wait` returns after it.
use mathlib.Core.List.{append_assoc}
use gr4_torchdsp.Prelude.{
  ℕ, suc, ◌≡◌, refl, subst, ap, ◌∙◌, Bool, true, false, List, [], ◌∷◌, ◌++◌, some, ◌⊎◌, inl, inr,
  last?, Bool-cases,
}
use gr4_torchdsp.Outcome.{ok, >>=-eq-ok, ok-snd}
use gr4_torchdsp.Runtime.{Runtime}
use gr4_torchdsp.Channel.{Channel, Message, exit, notify_all, scheduler_action}
use gr4_torchdsp.Executor.Behaved.{WellBehaved, Wires}
use gr4_torchdsp.Executor.Iteration.{run_one_iteration}
use gr4_torchdsp.Thread.State.{Thread, kill, push_message}
use gr4_torchdsp.Thread.Work.{handle_work_notification}
use gr4_torchdsp.Thread.Body.{
  Body, Place, moved, waiting, outer, inner, popping, working, finished, step, step_at,
  step_waiting, handle_message,
}
use gr4_torchdsp.Thread.Runs.{Runs, Reach, start_here, after, moves, pushed, here}
use gr4_torchdsp.Thread.Answers.{handle_message-returns}
use gr4_torchdsp.Thread.Draining.{goes_in, step-takes}
use gr4_torchdsp.Thread.Exiting.{exited, works, idles}
use gr4_torchdsp.Thread.Liveness.{enters}
use gr4_torchdsp.Thread.Stopping.{
  handle_work_notification-returns, Ends, after_step, from_outer, from_inner,
}
use gr4_torchdsp.Thread.Sustained.{Keeps, handle_message-Keeps, after_iteration-Keeps}
use gr4_torchdsp.Thread.Stoppable.{Lives, Answered, Reach-Lives}

module _ (ch : Channel) (fuel : ℕ) (rt : Runtime) (first : ℕ) (rest : List ℕ) (last : ℕ)
    (wires : Wires) (l : last? (first ∷ rest) ≡ some last)
    (good : WellBehaved wires rt first last) where
  open ch use {Queue, contents, push, pop, contents-push, pop-cons}

  abbrev Alive : Body Queue → Type 0
  Alive = Lives ch fuel rt first rest last wires l good

  abbrev Over : Body Queue → Type 0
  Over = Ends ch fuel rt first rest last wires l good

  -- EXIT stands in the queue behind the messages `ms`.
  abbrev ExitAfter : List Message → Queue → Type 0
  ExitAfter ms q = (ns : List Message) × (contents q ≡ ms ++ scheduler_action exit ∷ ns)

  ExitAfter-Keeps :
      (ms : List Message) (q q' : Queue)
      → (q' ≡ q) ⊎ (q' ≡ push q (scheduler_action notify_all))
      → ExitAfter ms q
      → ExitAfter ms q'
  ExitAfter-Keeps ms q q' (inl same) (ns, e) = (ns, ap contents same ∙ e)
  ExitAfter-Keeps ms q q' (inr more) (ns, e) = (
    ns ++ scheduler_action notify_all ∷ [],
    ap contents more
        ∙ contents-push q (scheduler_action notify_all)
        ∙ ap (λ k. k ++ scheduler_action notify_all ∷ []) e
        ∙ append_assoc ms (scheduler_action exit ∷ ns) (scheduler_action notify_all ∷ []),
  )

  after_move : (b c : Body Queue) → step ch (suc fuel) rt b ≡ ok (moved c) → Over c → Over b
  after_move = after_step ch fuel rt first rest last wires l good

  halts_inside :
      (b : Body Queue) → b.place ≡ inner → b.thread.thread_stopped ≡ true → Alive b → Over b
  halts_inside b at stop live = from_inner ch fuel rt first rest last wires l good b at stop live.0

  Alive-step : (b c : Body Queue) → step ch (suc fuel) rt b ≡ ok (moved c) → Alive b → Alive c
  Alive-step b c q live =
      Reach-Lives ch fuel rt first rest last wires l good (after start_here (moves q)) tt live

  -- What `handle_work_notification` leaves in the queue.
  handle_work_notification-ExitAfter :
      (ms : List Message) (t u : Thread Queue) (r : Bool)
      → handle_work_notification ch (suc fuel) rt t ≡ ok (r, u)
      → ExitAfter ms t.msgq
      → ExitAfter ms u.msgq
  unfolding handle_work_notification
  handle_work_notification-ExitAfter ms t u r h x =
      let ((s, e), _, q) =
        >>=-eq-ok (run_one_iteration (suc fuel) rt t.blocks t.blocks t.exec) _ h in
      let t' = record t { exec = e } in
      let keeps =
        subst (Keeps ch first rest wires t') (ok-snd q)
          (after_iteration-Keeps ch first rest wires (suc fuel) rt s t') in
      ExitAfter-Keeps ms t.msgq u.msgq keeps.3 x

  -- A message is taken, and what stood behind it stands in front.
  takes_message :
      (b : Body Queue) (m : Message) (ms : List Message)
      → b.place ≡ popping
      → Alive b
      → ExitAfter (m ∷ ms) b.thread.msgq
      → (w : Bool) × (u : Thread Queue) × (step ch (suc fuel) rt b
          ≡ ok (
              moved
                (record b { place = inner; blocking_queue = false; do_some_work = w; thread = u })))
        × ExitAfter ms u.msgq
  takes_message b m ms at live (ns, e) =
      let (q, popped, behind) = pop-cons b.thread.msgq m _ e in
      let t = record b.thread { msgq = q } in
      let answers = rw e at live.1 in
      let (w, u, handled, _, _) =
        handle_message-returns ch (suc fuel) rt m b.do_some_work t answers.0 in
      let keeps =
        handle_message-Keeps ch first rest wires (suc fuel) rt m b.do_some_work w t u handled in
      (
        w,
        u,
        step-takes ch (suc fuel) rt b m q w u at popped handled,
        ExitAfter-Keeps ms q u.msgq keeps.3 (ns, behind),
      )

  takes_exit : (b : Body Queue) → b.place ≡ popping → Alive b → ExitAfter [] b.thread.msgq → Over b
  takes_exit b at live (ns, e) =
      let (q, popped, _) = pop-cons b.thread.msgq (scheduler_action exit) ns e in
      let u = exited ch (suc fuel) rt b q in
      let c = record b { place = inner; blocking_queue = false; thread = u } in
      let taken =
        step-takes ch (suc fuel) rt b (scheduler_action exit) q b.do_some_work u at popped
          (unfold handle_message in refl) in
      after_move b c taken (halts_inside c refl refl (Alive-step b c taken live))

  -- EXIT comes to the front of the queue, or the flag is set before.
  killed_popping :
      (ms : List Message) (b : Body Queue)
      → b.place ≡ popping
      → Alive b
      → ExitAfter ms b.thread.msgq
      → Over b
  killed_popping [] b at live x = takes_exit b at live x
  killed_popping (m ∷ ms) b at live x =
      let (w, u, taken, x') = takes_message b m ms at live x in
      let c = record b { place = inner; blocking_queue = false; do_some_work = w; thread = u } in
      let live' = Alive-step b c taken live in
      let d = record c { place = popping } in
      let left = killed_popping ms d refl live' x' in
      after_move b c taken (elim (Bool-cases u.thread_stopped) [
        | inl stop ↦ halts_inside c refl stop live'
        | inr run ↦ after_move c d (goes_in ch (suc fuel) rt c refl run) left
      ])

  -- The same from the other places.
  killed_inner :
      (ms : List Message) (b : Body Queue)
      → b.place ≡ inner
      → Alive b
      → ExitAfter ms b.thread.msgq
      → Over b
  killed_inner ms b at live x = elim (Bool-cases b.thread.thread_stopped) [
    | inl stop ↦ halts_inside b at stop live
    | inr run ↦
        after_move b _ (goes_in ch (suc fuel) rt b at run)
          (killed_popping ms (record b { place = popping }) refl live x)
  ]

  killed_outer :
      (ms : List Message) (b : Body Queue)
      → b.place ≡ outer
      → Alive b
      → ExitAfter ms b.thread.msgq
      → Over b
  killed_outer ms b at live x = elim (Bool-cases b.thread.thread_stopped) [
    | inl stop ↦ from_outer ch fuel rt first rest last wires l good b at stop
    | inr run ↦
        after_move b _ (enters ch (suc fuel) rt b at run)
          (killed_inner ms (record b { place = inner; do_some_work = false }) refl live x)
  ]

  killed_working :
      (ms : List Message) (b : Body Queue)
      → b.place ≡ working
      → Alive b
      → ExitAfter ms b.thread.msgq
      → Over b
  killed_working ms b at live x = elim (Bool-cases b.do_some_work) [
    | inr idle ↦ after_move b _ (idles ch (suc fuel) rt b at idle) (killed_outer ms _ refl live x)
    | inl work ↦
        let (r, u, ran, _) =
          handle_work_notification-returns ch fuel rt first rest last wires l good b.thread
            live.0 in
        let worked = works ch (suc fuel) rt b r u at work ran in
        after_move b _ worked (
          killed_outer ms _ refl (Alive-step b _ worked live)
            (handle_work_notification-ExitAfter ms b.thread u r ran x))
  ]

  killed_waiting :
      (ms : List Message) (b : Body Queue)
      → b.place ≡ waiting
      → b.thread.ready_to_start ≡ true
      → Alive b
      → ExitAfter ms b.thread.msgq
      → Over b
  killed_waiting ms b at ready live x =
      let goes : step ch (suc fuel) rt b
          ≡ ok (moved (record b { place = outer; blocking_queue = true })) =
        unfold step in simp (at, step_at) (simp (ready, step_waiting)) in
      after_move b _ goes (killed_outer ms _ refl live x)

  killed_at :
      (p : Place) (ms : List Message) (b : Body Queue)
      → b.place ≡ p
      → b.thread.ready_to_start ≡ true
      → Alive b
      → ExitAfter ms b.thread.msgq
      → Over b
  killed_at waiting ms b at ready live x = killed_waiting ms b at ready live x
  killed_at outer ms b at ready live x = killed_outer ms b at live x
  killed_at inner ms b at ready live x = killed_inner ms b at live x
  killed_at popping ms b at ready live x = killed_popping ms b at live x
  killed_at working ms b at ready live x = killed_working ms b at live x
  killed_at finished ms b at ready live x = (b, here, at)

  pub Reach-kill :
      (b c : Body Queue) (r : Reach ch (suc fuel) rt b c)
      → Answered ch fuel rt first rest last wires l good r
      → Lives ch fuel rt first rest last wires l good b
      → c.thread.ready_to_start ≡ true
      → (d : Body Queue) × Runs ch (suc fuel) rt (record c { thread = kill ch c.thread }) d
        × (d.place ≡ finished)
  unfolding kill push_message
  Reach-kill b c r a live ready =
      let k = record c { thread = kill ch c.thread } in
      let live' =
        Reach-Lives ch fuel rt first rest last wires l good
          (after r (pushed (scheduler_action exit) refl)) (tt, a) live in
      killed_at k.place (contents c.thread.msgq) k refl ready live'
        ([], contents-push c.thread.msgq (scheduler_action exit))
