-- ===== src/Thread/Faultless.antt =====
-- The thread of schedulers/triton/lib/thread_wrapper.cc never comes to a fault.
use gr4_torchdsp.Prelude.{
  ℕ, suc, ◌≡◌, refl, List, ◌∷◌, Option, none, some, inl, inr, last?, Bool-cases,
}
use gr4_torchdsp.Outcome.{ok}
use gr4_torchdsp.Runtime.{Runtime}
use gr4_torchdsp.Channel.{Channel, Message}
use gr4_torchdsp.Executor.Behaved.{WellBehaved, Wires}
use gr4_torchdsp.Thread.Body.{
  Body, Turn, Place, waiting, outer, inner, popping, working, finished, step, step_at, step_popped,
  step_popping, step_working,
}
use gr4_torchdsp.Thread.Runs.{Reach}
use gr4_torchdsp.Thread.Answers.{Answerable, handle_message-returns}
use gr4_torchdsp.Thread.Stopping.{handle_work_notification-returns}
use gr4_torchdsp.Thread.Sustained.{pop-All}
use gr4_torchdsp.Thread.Stoppable.{Lives, Answered, Reach-Lives}

module _ (ch : Channel) (fuel : ℕ) (rt : Runtime) (first : ℕ) (rest : List ℕ) (last : ℕ)
    (wires : Wires) (l : last? (first ∷ rest) ≡ some last)
    (good : WellBehaved wires rt first last) where
  open ch use {Queue, contents, pop}

  step_popped-returns :
      (o : Option (Message × Queue)) (b : Body Queue)
      → pop b.thread.msgq ≡ o
      → Lives ch fuel rt first rest last wires l good b
      → (turn : Turn Queue) × (step_popped ch (suc fuel) rt o b ≡ ok turn)
  unfolding step_popped
  step_popped-returns none b e live = (_, refl)
  step_popped-returns (some (m, q)) b e live =
      let (now, _) =
        pop-All ch first rest wires (Answerable b.thread.block_map) b.thread.msgq q m _ refl e
          live.1 in
      let (w, u, handled, _, _) =
        handle_message-returns ch (suc fuel) rt m b.do_some_work (record b.thread { msgq = q })
          now in
      rw handled (_, refl)

  step_working-returns :
      (b : Body Queue)
      → Lives ch fuel rt first rest last wires l good b
      → (turn : Turn Queue) × (step_working ch (suc fuel) rt b ≡ ok turn)
  unfolding step_working
  step_working-returns b live = elim (Bool-cases b.do_some_work) [
    | inr idle ↦ rw idle (_, refl)
    | inl work ↦
        let (r, u, ran, _) =
          handle_work_notification-returns ch fuel rt first rest last wires l good b.thread
            live.0 in
        rw (work, ran) (_, refl)
  ]

  step_at-returns :
      (p : Place) (b : Body Queue)
      → Lives ch fuel rt first rest last wires l good b
      → (turn : Turn Queue) × (step_at ch (suc fuel) rt p b ≡ ok turn)
  unfolding step_at step_popping
  step_at-returns waiting b live = (_, refl)
  step_at-returns outer b live = (_, refl)
  step_at-returns inner b live = (_, refl)
  step_at-returns popping b live = step_popped-returns (pop b.thread.msgq) b refl live
  step_at-returns working b live = step_working-returns b live
  step_at-returns finished b live = (_, refl)

  -- The thread meets no fault and every one of its steps ends, in every interleaving with messages,
  -- starts and stops from other threads: if the blocks behave as the scheduler asks, the chain was
  -- in place and the queue answerable at the beginning, and every message pushed names, if it is
  -- about a parameter, a block of the thread.
  pub Reach-returns :
      (b c : Body Queue) (r : Reach ch (suc fuel) rt b c)
      → Answered ch fuel rt first rest last wires l good r
      → Lives ch fuel rt first rest last wires l good b
      → (turn : Turn Queue) × (step ch (suc fuel) rt c ≡ ok turn)
  unfolding step
  Reach-returns b c r a live =
      step_at-returns c.place c (Reach-Lives ch fuel rt first rest last wires l good r a live)
