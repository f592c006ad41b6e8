-- ===== src/Thread/Parameters.antt =====
-- Parameter queries and changes find their block through `d_block_id_to_block_map`.
use gr4_torchdsp.Prelude.{
  ℕ, ◌≡◌, refl, ap, subst, ◌∙◌, Bool, true, false, List, [], ◌∷◌, ◌++◌, Option, none, some, arith,
  inl, inr, Any, Bool-cases,
}
use gr4_torchdsp.Outcome.{ok, >>=-eq-ok, ok-snd}
use gr4_torchdsp.Runtime.{Runtime}
use gr4_torchdsp.Channel.{Channel, Message, param_query, param_change}
use gr4_torchdsp.Options.{SchedulerTritonOptions}
use gr4_torchdsp.Executor.Work.{Exec}
use gr4_torchdsp.Executor.Iteration.{run_one_iteration}
use gr4_torchdsp.Thread.State.{
  Thread, Effect, find_block, map_blocks, make, on_parameter_query, on_parameter_change,
  param_callback, push_message, start, request_stop, kill, stop_blocks, done_blocks,
}
use gr4_torchdsp.Thread.Work.{handle_work_notification}
use gr4_torchdsp.Thread.Body.{
  Body, Place, moved, waiting, outer, inner, popping, working, finished, launched, step, step_at,
  step_waiting, step_outer, step_popped, step_inner, step_popping, step_working, handle_message,
}
use gr4_torchdsp.Thread.Runs.{
  Reach, start_here, after, moves, pushed, started, stopped, stop_joined, wait_joined,
}
use gr4_torchdsp.Thread.Draining.{step-takes}
use gr4_torchdsp.Thread.Sustained.{handle_message-Keeps, after_iteration-Keeps}

module _ (id_of : ℕ → ℕ) where
  find_block-kept :
      (b : ℕ) (bs : List ℕ) (m : List (ℕ × ℕ))
      → ((c d : ℕ) → id_of c ≡ id_of d → c ≡ d)
      → find_block (id_of b) m ≡ some b
      → find_block (id_of b) (map_blocks id_of bs m) ≡ some b
  unfolding map_blocks find_block
  find_block-kept b [] m distinct hit = hit
  find_block-kept b (c ∷ bs) m distinct hit =
      let same = distinct c b in
      find_block-kept b bs ((id_of c, c) ∷ m) distinct (ground (arith, same))

  pub find_block-member :
      (b : ℕ) (bs : List ℕ) (m : List (ℕ × ℕ))
      → ((c d : ℕ) → id_of c ≡ id_of d → c ≡ d)
      → Any (λ c. c ≡ b) bs
      → find_block (id_of b) (map_blocks id_of bs m) ≡ some b
  unfolding map_blocks find_block
  find_block-member b [] m distinct here = absurd here
  find_block-member b (c ∷ bs) m distinct (inl e) =
      find_block-kept b bs ((id_of c, c) ∷ m) distinct (rw e (ground arith))
  find_block-member b (c ∷ bs) m distinct (inr later) =
      find_block-member b bs ((id_of c, c) ∷ m) distinct later

-- What the item's own callback leaves behind.
abbrev pub called_back : Option ℕ → ℕ → List Effect
called_back none action = []
called_back (some cb) action = param_callback cb action ∷ []

-- A query of a parameter, or a change of one, and what the block is told.
abbrev pub parameter_message : Bool → ℕ → ℕ → Option ℕ → Message
parameter_message true = param_change
parameter_message false = param_query

abbrev pub block_told : Bool → ℕ → ℕ → Effect
block_told true = on_parameter_change
block_told false = on_parameter_query

module _ (ch : Channel) (fuel : ℕ) (rt : Runtime) where
  open ch use {Queue, contents, pop, pop-cons}

  handle_message-map :
      (m : Message) (w w' : Bool) (t u : Thread Queue)
      → handle_message ch fuel rt m w t ≡ ok (w', u)
      → u.block_map ≡ t.block_map
  handle_message-map m w w' t u h =
      (handle_message-Keeps ch 0 [] (λ b. ([], [])) fuel rt m w w' t u h).2

  handle_work_notification-map :
      (t u : Thread Queue) (r : Bool)
      → handle_work_notification ch fuel rt t ≡ ok (r, u)
      → u.block_map ≡ t.block_map
  unfolding handle_work_notification
  handle_work_notification-map t u r h =
      let ((s, e), _, left) = >>=-eq-ok (run_one_iteration fuel rt t.blocks t.blocks t.exec) _ h in
      let t' = record t { exec = e } in
      subst (λ v. v.block_map ≡ t.block_map) (ok-snd left)
        (after_iteration-Keeps ch 0 [] (λ b. ([], [])) fuel rt s t').2

  step_popped-map :
      (o : Option (Message × Queue)) (b c : Body Queue)
      → step_popped ch fuel rt o b ≡ ok (moved c)
      → c.thread.block_map ≡ b.thread.block_map
  unfolding step_popped
  step_popped-map none b c h = ground arith
  step_popped-map (some (m, q)) b c h =
      let t = record b.thread { msgq = q } in
      let ((w, u), handled, turn) = >>=-eq-ok (handle_message ch fuel rt m b.do_some_work t) _ h in
      let left : c.thread ≡ u = ground arith in
      ap (λ v. v.block_map) left ∙ handle_message-map m b.do_some_work w t u handled

  step_working-map :
      (b c : Body Queue)
      → step_working ch fuel rt b ≡ ok (moved c)
      → c.thread.block_map ≡ b.thread.block_map
  unfolding step_working
  step_working-map b c h = elim (Bool-cases b.do_some_work) [
    | inr idle ↦ ground arith
    | inl work ↦
        let ((r, u), handled, turn) =
          >>=-eq-ok (handle_work_notification ch fuel rt b.thread) _
            (rw (work, step_working) at h) in
        let left : c.thread ≡ u = ground arith in
        ap (λ v. v.block_map) left ∙ handle_work_notification-map b.thread u r handled
  ]

  step_at-map :
      (p : Place) (b c : Body Queue)
      → step_at ch fuel rt p b ≡ ok (moved c)
      → c.thread.block_map ≡ b.thread.block_map
  unfolding step_at step_waiting step_outer step_inner step_popping
  step_at-map waiting b c h = ground arith
  step_at-map outer b c h = ground arith
  step_at-map inner b c h = ground arith
  step_at-map popping b c h = step_popped-map _ b c h
  step_at-map working b c h = step_working-map b c h
  step_at-map finished b c h = cc

  -- The map stays as the constructor filled it.
  Reach-map : {b c : Body Queue} → Reach ch fuel rt b c → c.thread.block_map ≡ b.thread.block_map
  unfolding step push_message start request_stop kill stop_blocks done_blocks
  Reach-map start_here = refl
  Reach-map (after {c = k} {d = d} r (moves h)) = step_at-map k.place k d h ∙ Reach-map r
  Reach-map (after r (pushed m e)) = rw e (Reach-map r)
  Reach-map (after r (started e)) = rw e (Reach-map r)
  Reach-map (after r (stopped e)) = rw e (Reach-map r)
  Reach-map (after r (stop_joined at e)) = rw e (Reach-map r)
  Reach-map (after r (wait_joined at e)) = rw e (Reach-map r)

  handle_message-found :
      (change : Bool) (k b action : ℕ) (cb : Option ℕ) (w : Bool) (t : Thread Queue)
      → find_block k t.block_map ≡ some b
      → handle_message ch fuel rt (parameter_message change k action cb) w t
        ≡ ok (
          w,
          record t { effects = called_back cb action ++ block_told change b action ∷ t.effects },
        )
  unfolding handle_message find_block
  handle_message-found true k b action none w t hit = rw hit refl
  handle_message-found true k b action (some cb) w t hit = rw hit refl
  handle_message-found false k b action none w t hit = rw hit refl
  handle_message-found false k b action (some cb) w t hit = rw hit refl

  -- In a thread that was made for blocks with distinct ids, whatever has happened since: when the
  -- thread pops a query or a change that names one of its blocks, this step hands it to that block,
  -- and then to the item's callback, if it has one. Nothing else of the thread changes but that the
  -- message is gone from the queue, no work is asked for, and the thread goes back to the test of
  -- its inner loop.
  pub Reach-parameters :
      (id : ℕ) (bs : List ℕ) (id_of : ℕ → ℕ) (opts : SchedulerTritonOptions) (e : Exec) (q : Queue)
      (c : Body Queue) (change : Bool) (b action : ℕ) (cb : Option ℕ) (ms : List Message)
      → ((x y : ℕ) → id_of x ≡ id_of y → x ≡ y)
      → Any (λ x. x ≡ b) bs
      → Reach ch fuel rt (launched (make ch id bs id_of opts e q)) c
      → c.place ≡ popping
      → contents c.thread.msgq ≡ parameter_message change (id_of b) action cb ∷ ms
      → (k : Queue) × (contents k ≡ ms)
        × (step ch fuel rt c
            ≡ ok (
                moved (record c {
                  place = inner;
                  blocking_queue = false;
                  thread = record c.thread {
                    msgq = k;
                    effects =
                        called_back cb action ++ block_told change b action ∷ c.thread.effects;
                  };
                })))
  unfolding make
  Reach-parameters id bs id_of opts e q c change b action cb ms distinct member r at queue =
      let m = parameter_message change (id_of b) action cb in
      let (k, popped, behind) = pop-cons c.thread.msgq m ms queue in
      let hit =
        ap (find_block (id_of b)) (Reach-map r) ∙ find_block-member id_of b bs [] distinct member in
      (
        k,
        behind,
        step-takes ch fuel rt c m k c.do_some_work _ at popped (
            handle_message-found change (id_of b) b action cb c.do_some_work
              (record c.thread { msgq = k }) hit),
      )
