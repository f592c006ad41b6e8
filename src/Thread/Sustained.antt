-- ===== src/Thread/Sustained.antt =====
-- What stays in place in the thread of schedulers/triton/lib/thread_wrapper.cc, whatever happens
-- around it: the chain's ports and buffers, and a queue of messages that can be answered.
use gr4_torchdsp.Prelude.{
  ℕ, ◌≡◌, refl, sym, subst, ◌∙◌, Bool, List, [], ◌∷◌, ◌++◌, some, ◌⊎◌, inl, inr, All, arith,
}
use gr4_torchdsp.Outcome.{ok, ok-snd}
use gr4_torchdsp.Runtime.{Runtime, Status}
use gr4_torchdsp.Channel.{
  Channel, Action, Message, signal_done, done, exit, notify_output, notify_input, notify_all,
  other_action, scheduler_action, msgport_message, param_query, param_change, other_message,
}
use gr4_torchdsp.Executor.Behaved.{Wires}
use gr4_torchdsp.Thread.State.{Thread, push_message, start_flushing, stop_blocks}
use gr4_torchdsp.Thread.Work.{after_iteration}
use gr4_torchdsp.Thread.Body.{handle_message, handle_action}
use gr4_torchdsp.Thread.Answers.{Runnable, Answerable}

pub All-snoc :
    {A : Type 0} (P : A → Type 0) (xs : List A) (x : A) → All P xs → P x → All P (xs ++ x ∷ [])
All-snoc P [] x a p = (p, tt)
All-snoc P (y ∷ xs) x a p = (a.0, All-snoc P xs x a.1 p)

module _ (ch : Channel) (first : ℕ) (rest : List ℕ) (wires : Wires) where
  open ch use {Queue, contents, push, pop, contents-push, pop-nil, pop-cons}

  -- The chain is runnable, and each queued message can be answered.
  abbrev pub Live : Thread Queue → Type 0
  Live t = Runnable first rest wires t × All (Answerable t.block_map) (contents t.msgq)

  -- Two threads with the same chain and map, and possibly one more message that asks for work.
  abbrev pub Keeps : Thread Queue → Thread Queue → Type 0
  Keeps t u =
      (u.blocks ≡ t.blocks)
      × (u.exec.wio ≡ t.exec.wio)
      × (u.block_map ≡ t.block_map)
      × ((u.msgq ≡ t.msgq) ⊎ (u.msgq ≡ push t.msgq (scheduler_action notify_all)))

  pub queue-All :
      (P : Message → Type 0) (q q' : Queue)
      → P (scheduler_action notify_all)
      → (q' ≡ q) ⊎ (q' ≡ push q (scheduler_action notify_all))
      → All P (contents q)
      → All P (contents q')
  queue-All P q q' n (inl same) a = rw same a
  queue-All P q q' n (inr more) a =
      rw (more, contents-push q (scheduler_action notify_all)) (All-snoc P (contents q) _ a n)

  pub Keeps-Live : (t u : Thread Queue) → Keeps t u → Live t → Live u
  Keeps-Live t u (blocks, wio, map, queue) ((same, ports), answers) = (
    (blocks ∙ same, rw wio ports),
    rw map (queue-All (Answerable t.block_map) t.msgq u.msgq tt queue answers),
  )

  pub pop-All :
      (P : Message → Type 0) (q q' : Queue) (m : Message) (ms : List Message)
      → contents q ≡ ms
      → pop q ≡ some (m, q')
      → All P ms
      → P m × All P (contents q')
  pop-All P q q' m [] e popped a = let no = pop-nil q e in cc
  pop-All P q q' m (n ∷ ms) e popped a =
      let (k, got, left) = pop-cons q n ms e in
      let both : some (n, k) ≡ some (m, q') = sym got ∙ popped in
      let head : n ≡ m = cc in
      let tail : k ≡ q' = cc in
      (subst P head a.0, subst (λ x. All P (contents x)) tail (rw left a.1))

  module _ (fuel : ℕ) (rt : Runtime) where
    handle_action-Keeps :
        (a : Action) (w : Bool) (t : Thread Queue) → Keeps t (handle_action ch fuel rt a w t).1
    unfolding handle_action start_flushing push_message stop_blocks
    handle_action-Keeps signal_done w t = (refl, refl, refl, inl refl)
    handle_action-Keeps done w t = (refl, refl, refl, inr refl)
    handle_action-Keeps exit w t = (refl, refl, refl, inl refl)
    handle_action-Keeps notify_output w t = (refl, refl, refl, inl refl)
    handle_action-Keeps notify_input w t = (refl, refl, refl, inl refl)
    handle_action-Keeps notify_all w t = (refl, refl, refl, inl refl)
    handle_action-Keeps (other_action n) w t = (refl, refl, refl, inl refl)

    pub handle_message-Keeps :
        (m : Message) (w w' : Bool) (t u : Thread Queue)
        → handle_message ch fuel rt m w t ≡ ok (w', u)
        → Keeps t u
    unfolding handle_message
    handle_message-Keeps (scheduler_action a) w w' t u h =
        subst (Keeps t) (ok-snd h) (handle_action-Keeps a w t)
    handle_message-Keeps (msgport_message n) w w' t u h =
        subst (Keeps t) (ok-snd h) (refl, refl, refl, inl refl)
    handle_message-Keeps (param_query k action cb) w w' t u h =
        (ground arith, ground arith, ground arith, inl (ground arith))
    handle_message-Keeps (param_change k action cb) w w' t u h =
        (ground arith, ground arith, ground arith, inl (ground arith))
    handle_message-Keeps (other_message n) w w' t u h =
        subst (Keeps t) (ok-snd h) (refl, refl, refl, inl refl)

    pub after_iteration-Keeps : (s : Status) (t : Thread Queue) → Keeps t (after_iteration ch s t).1
    unfolding after_iteration push_message
    after_iteration-Keeps s t = (ground arith, ground arith, ground arith, ground arith)
