-- ===== src/Scheduler/Ended.antt =====
-- The two ways to end a scheduler of schedulers/triton/lib/scheduler_triton.cc: `stop`, and `kill`
-- followed by `wait`.
use gr4_torchdsp.Prelude.{
  ℕ, suc, ◌≡◌, ◌≢◌, refl, sym, ap, subst, ◌∙◌, true, false, List, [], ◌∷◌, some, last?,
}
use gr4_torchdsp.Outcome.{ok}
use gr4_torchdsp.Runtime.{Runtime}
use gr4_torchdsp.Channel.{Channel}
use gr4_torchdsp.Executor.Behaved.{WellBehaved, Wires, IsWired}
use gr4_torchdsp.Thread.State.{done_blocks}
use gr4_torchdsp.Thread.Body.{Body, launched, waiting, finished}
use gr4_torchdsp.Thread.State
use gr4_torchdsp.Thread.Invariant.{Reach-Inv, Runs-unstarted}
use gr4_torchdsp.Thread.Runs.{Reach}
use gr4_torchdsp.Thread.Stoppable.{Answered}
use gr4_torchdsp.Thread.Killed.{Reach-kill}
use gr4_torchdsp.Scheduler.State.{FlatGraph, SchedulerTriton, initialize, kill, Stops, Waits}
use gr4_torchdsp.Scheduler.Started.{
  first_exec, new_thread, initialize-thread, some-injective, initialize-Lives, initialize-stop,
}

-- After `initialize` over a graph with an empty queue, whatever is done with the scheduler (messages
-- that name the thread's blocks if they are about a parameter, starts, stops) and whatever the
-- thread has done since, once it is started the scheduler can be ended in two ways: `stop` returns;
-- and `kill` succeeds, and a `wait` after it returns. This holds if the blocks behave as the
-- scheduler asks at the ports of the wiring, and the graph's `work_io` objects are so wired.
pub initialize-ends :
    (ch : Channel) (fuel : ℕ) (rt : Runtime) (first : ℕ) (rest : List ℕ) (last : ℕ) (wires : Wires)
    (l : last? (first ∷ rest) ≡ some last) (good : WellBehaved wires rt first last) (fg : FlatGraph)
    (q : ch.Queue) (s : SchedulerTriton ch.Queue)
    → fg.used_blocks ≡ first ∷ rest
    → IsWired wires (first_exec fg)
    → ch.contents q ≡ []
    → (b c : Body ch.Queue) → (initialize ch fg q s).thread ≡ some b
    → (r : Reach ch (suc fuel) rt b c) → Answered ch fuel rt first rest last wires l good r
    → c.thread.ready_to_start ≡ true
    → ((end : SchedulerTriton ch.Queue) × Stops ch
          (suc fuel)
          rt
          (record (initialize ch fg q s) { thread = some c })
          end)
      × ((killed : SchedulerTriton ch.Queue) × (end : SchedulerTriton ch.Queue) × (kill ch
              (record (initialize ch fg q s) { thread = some c })
            ≡ ok killed)
          × Waits ch (suc fuel) rt killed end)
unfolding kill
initialize-ends ch fuel rt first rest last wires l good fg q s used sound empty b c made r a on =
    let live =
      initialize-Lives ch fuel rt first rest last wires l good fg q s b used sound empty made in
    let (d, runs, at) = Reach-kill ch fuel rt first rest last wires l good b c r a live on in
    (
      initialize-stop ch fuel rt first rest last wires l good fg q s used sound empty b c made r a
          on,
      (
        _,
        record (initialize ch fg q s) {
          thread = some (record d { thread = done_blocks d.thread });
        },
        refl,
        (_, d, refl, (runs, at), refl),
      ),
    )

waiting≢finished : waiting ≢ finished
waiting≢finished e = cc

-- A scheduler that was initialized and not started cannot be ended: whatever messages and stops have
-- come since, neither `stop` nor `wait` returns, as the thread that they join sleeps on.
pub initialize-unstarted :
    (ch : Channel) (fuel : ℕ) (rt : Runtime) (fg : FlatGraph) (q : ch.Queue)
    (s end : SchedulerTriton ch.Queue) (b c : Body ch.Queue)
    → (initialize ch fg q s).thread ≡ some b
    → Reach ch fuel rt b c
    → c.thread.ready_to_start ≡ false
    → (¬ Stops ch fuel rt (record (initialize ch fg q s) { thread = some c }) end)
      × (¬ Waits ch fuel rt (record (initialize ch fg q s) { thread = some c }) end)
unfolding State.request_stop State.kill State.push_message State.make
initialize-unstarted ch fuel rt fg q s end b c made r off =
    let same : launched (new_thread ch fg q s) ≡ b =
      some-injective (sym (initialize-thread ch fg q s) ∙ made) in
    let at =
      (Reach-Inv ch fuel rt (new_thread ch fg q s) refl
          (subst (λ x. Reach ch fuel rt x c) (sym same) r)).begun
        off in
    (
      λ (k, d, is, (runs, over), _).
          let this : c ≡ k = some-injective is in
          let left =
            Runs-unstarted ch fuel rt runs (ap (λ x. x.place) (sym this) ∙ at)
              (ap (λ x. x.thread.ready_to_start) (sym this) ∙ off) in
          waiting≢finished (sym left.0 ∙ over),
      λ (k, d, is, (runs, over), _).
          let this : c ≡ k = some-injective is in
          let left =
            Runs-unstarted ch fuel rt runs (ap (λ x. x.place) (sym this) ∙ at)
              (ap (λ x. x.thread.ready_to_start) (sym this) ∙ off) in
          waiting≢finished (sym left.0 ∙ over),
    )
