-- ===== src/Thread/Flushed.antt =====
-- From the monitor's DONE to the thread's FLUSHED: thread_wrapper.cc, lines 232 to 243 and 88 to 138.
use gr4_torchdsp.Prelude.{
  ℕ, suc, ◌<◌, ◌≡◌, refl, ap, ◌∙◌, true, false, List, [], ◌∷◌, ◌++◌, some, arith, last?,
}
use gr4_torchdsp.Runtime.{Runtime}
use gr4_torchdsp.Channel.{Channel, scheduler_action, done, notify_all}
use gr4_torchdsp.Executor.Work.{Exec}
use gr4_torchdsp.Executor.Behaved.{WellBehaved, Wires, IsWired}
use gr4_torchdsp.Executor.Total.{run_one_iteration-returns}
use gr4_torchdsp.Thread.State.{start_flushing}
use gr4_torchdsp.Prelude.Int.{size_mod}
use gr4_torchdsp.Thread.Body.{Body, inner, handle_message}
use gr4_torchdsp.Thread.Flushing.{flushed_count, after_iteration-counts, after_iteration-flushes}
use gr4_torchdsp.Thread.Runs.{Runs, Runs-trans}
use gr4_torchdsp.Thread.Draining.{step-pops}
use gr4_torchdsp.Thread.Liveness.{KeepsReturning, inner_round, after_iteration-Steady, Runs-flushed}
use gr4_torchdsp.Thread.Answers.{Runnable}

module _ (ch : Channel) (fuel : ℕ) (rt : Runtime) (first : ℕ) (rest : List ℕ) (last : ℕ)
    (wires : Wires) (l : last? (first ∷ rest) ≡ some last)
    (good : WellBehaved wires rt first last) where
  open ch use {Queue, contents, contents-push, pop-cons}

  abbrev InPlace : Exec → Type 0
  InPlace e = IsWired wires e

  keeps : (blocks : List ℕ) → blocks ≡ first ∷ rest → KeepsReturning (suc fuel) rt blocks InPlace
  keeps blocks same e sound =
      rw same
        (run_one_iteration-returns rt fuel (first ∷ rest) first rest last wires e l good sound)

  abbrev Flushes : ℕ → Body Queue → Type 0
  Flushes n b = (c : Body Queue) × Runs ch (suc fuel) rt b c × (flushed_count c.thread.effects ≡ n)

  -- The rounds after DONE was taken: `n` is the count to reach.
  flushing_rounds :
      (n : ℕ) (b : Body Queue)
      → b.thread.opts.flush_count ≡ n
      → b.place ≡ inner
      → b.thread.thread_stopped ≡ false
      → (b.thread.flushing ≡ true)
        × (b.thread.opts.flush ≡ true)
        × (b.thread.opts.flush_count < size_mod)
      → b.thread.flush_cnt ≡ 0
      → contents b.thread.msgq ≡ scheduler_action notify_all ∷ []
      → Runnable first rest wires b.thread
      → Flushes (suc (flushed_count b.thread.effects)) b
  flushing_rounds (suc (suc k)) b n at run f zeroed queue (blocks, sound) =
      let (s, e, ran, sound') = keeps b.thread.blocks blocks b.thread.exec sound in
      let (q, c, empty, runs, place, thread) =
        inner_round ch (suc fuel) rt b s e at run queue ran in
      let t = record b.thread { msgq = q; exec = e } in
      let (cnt, pushes, told, flushing, opts) = after_iteration-counts ch s t f (omega arith) in
      let (same_blocks, stop, exec) = after_iteration-Steady ch (suc fuel) rt s t in
      let next =
        Runs-flushed ch (suc fuel) rt InPlace k c
          (rw (thread, same_blocks) (keeps b.thread.blocks blocks)) (rw (thread, exec) sound')
          (rw thread (flushing ∙ f.0, ap (λ o. o.flush) opts ∙ f.1, rw opts f.2)) place
          (rw thread (stop ∙ run))
          (rw thread (
            ap contents pushes
            ∙ contents-push q (scheduler_action notify_all)
            ∙ ap (λ m. m ++ scheduler_action notify_all ∷ []) empty))
          (rw (thread, cnt, opts) (omega arith)) in
      (
        next.0,
        Runs-trans ch (suc fuel) rt runs next.1,
        next.2 ∙ ap suc (ap (λ u. flushed_count u.effects) thread ∙ told),
      )
  flushing_rounds n b m at run f zeroed queue (blocks, sound) =
      let (s, e, ran, _) = keeps b.thread.blocks blocks b.thread.exec sound in
      let (q, c, empty, runs, place, thread) =
        inner_round ch (suc fuel) rt b s e at run queue ran in
      let flushed =
        after_iteration-flushes ch s (record b.thread { msgq = q; exec = e }) f (omega arith)
          (omega arith) in
      (c, runs, ap (λ u. flushed_count u.effects) thread ∙ flushed.1)

  -- A thread that takes the monitor's DONE from an otherwise empty queue tells the monitor FLUSHED,
  -- once, after finitely many steps of its own, with no message from outside: if flushing is
  -- switched on, the blocks behave as the scheduler asks, and their ports and buffers are in place.
  pub Runs-done :
      (b : Body Queue)
      → b.place ≡ inner
      → b.thread.thread_stopped ≡ false
      → (b.thread.opts.flush ≡ true) × (b.thread.opts.flush_count < size_mod)
      → contents b.thread.msgq ≡ scheduler_action done ∷ []
      → Runnable first rest wires b.thread
      → (c : Body Queue) × Runs ch (suc fuel) rt b c
        × (flushed_count c.thread.effects ≡ suc (flushed_count b.thread.effects))
  unfolding start_flushing
  Runs-done b at run f queue runs =
      let (q, popped, empty) = pop-cons b.thread.msgq (scheduler_action done) [] queue in
      let t = start_flushing ch (record b.thread { msgq = q }) in
      let taken =
        step-pops ch (suc fuel) rt b (scheduler_action done) q true t at run popped
          (unfold handle_message in refl) in
      let b1 = record b {
        place = inner;
        blocking_queue = false;
        do_some_work = true;
        thread = t;
      } in
      let one =
        contents-push q (scheduler_action notify_all)
        ∙ ap (λ m. m ++ scheduler_action notify_all ∷ []) empty in
      let (c, more, told) =
        flushing_rounds b.thread.opts.flush_count b1 refl refl run (refl, f.0, f.1) refl one runs in
      (c, Runs-trans ch (suc fuel) rt taken more, told)
