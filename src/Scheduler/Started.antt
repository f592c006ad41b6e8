-- ===== src/Scheduler/Started.antt =====
-- A scheduler of schedulers/triton/lib/scheduler_triton.cc from `initialize` to `stop`.
use gr4_torchdsp.Prelude.{ℕ, suc, ◌≡◌, refl, sym, ◌∙◌, subst, true, List, [], ◌∷◌, some, last?}
use gr4_torchdsp.Runtime.{Runtime}
use gr4_torchdsp.Channel.{Channel}
use gr4_torchdsp.Executor.Work.{Exec}
use gr4_torchdsp.Executor.Behaved.{WellBehaved, Wires, IsWired}
use gr4_torchdsp.Thread.State.{Thread, stop_blocks, make}
use gr4_torchdsp.Thread.State
use gr4_torchdsp.Thread.Body.{Body, launched}
use gr4_torchdsp.Thread.Runs.{Runs, Reach}
use gr4_torchdsp.Thread.Stoppable.{Lives, Answered, Reach-stop}
use gr4_torchdsp.Scheduler.State.{FlatGraph, SchedulerTriton, initialize, Stops}

-- The executor's state over a graph whose `work_io` objects have just been filled.
abbrev pub first_exec : FlatGraph → Exec
first_exec fg = record { wio = fg.work_io; history = [] }

-- The thread as `initialize` makes it.
abbrev pub new_thread :
    (ch : Channel) → FlatGraph → ch.Queue → SchedulerTriton ch.Queue → Thread ch.Queue
new_thread ch fg q s = make ch s.id fg.used_blocks fg.block_id s.opts (first_exec fg) q

pub initialize-thread :
    (ch : Channel) (fg : FlatGraph) (q : ch.Queue) (s : SchedulerTriton ch.Queue)
    → (initialize ch fg q s).thread ≡ some (launched (new_thread ch fg q s))
unfolding initialize
initialize-thread ch fg q s = refl

pub some-injective : {A : Type 0} {a b : A} → some a ≡ some b → a ≡ b
some-injective e = cc

pub initialize-Lives :
    (ch : Channel) (fuel : ℕ) (rt : Runtime) (first : ℕ) (rest : List ℕ) (last : ℕ) (wires : Wires)
    (l : last? (first ∷ rest) ≡ some last) (good : WellBehaved wires rt first last) (fg : FlatGraph)
    (q : ch.Queue) (s : SchedulerTriton ch.Queue) (b : Body ch.Queue)
    → fg.used_blocks ≡ first ∷ rest
    → IsWired wires (first_exec fg)
    → ch.contents q ≡ []
    → (initialize ch fg q s).thread ≡ some b
    → Lives ch fuel rt first rest last wires l good b
unfolding make
initialize-Lives ch fuel rt first rest last wires l good fg q s b used sound empty made =
    subst (Lives ch fuel rt first rest last wires l good)
      (some-injective (sym (initialize-thread ch fg q s) ∙ made)) ((used, sound), rw empty tt)

-- After `initialize` over a graph with an empty queue, whatever is done with the scheduler (messages
-- that name the thread's blocks if they are about a parameter, starts, stops) and whatever the
-- thread has done since: once it is started, `stop` returns, if the blocks behave as the scheduler
-- asks at the ports of the wiring, and the graph's `work_io` objects are so wired.
pub initialize-stop :
    (ch : Channel) (fuel : ℕ) (rt : Runtime) (first : ℕ) (rest : List ℕ) (last : ℕ) (wires : Wires)
    (l : last? (first ∷ rest) ≡ some last) (good : WellBehaved wires rt first last) (fg : FlatGraph)
    (q : ch.Queue) (s : SchedulerTriton ch.Queue)
    → fg.used_blocks ≡ first ∷ rest
    → IsWired wires (first_exec fg)
    → ch.contents q ≡ []
    → (b c : Body ch.Queue) → (initialize ch fg q s).thread ≡ some b
    → (r : Reach ch (suc fuel) rt b c) → Answered ch fuel rt first rest last wires l good r
    → c.thread.ready_to_start ≡ true
    → (end : SchedulerTriton ch.Queue) × Stops ch
        (suc fuel)
        rt
        (record (initialize ch fg q s) { thread = some c })
        end
initialize-stop ch fuel rt first rest last wires l good fg q s used sound empty b c made r a on =
    let (d, runs, at) =
      Reach-stop ch fuel rt first rest last wires l good b c r a
        (initialize-Lives ch fuel rt first rest last wires l good fg q s b used sound empty made)
        on in
    (
      record (initialize ch fg q s) { thread = some (record d { thread = stop_blocks d.thread }) },
      (c, d, refl, (runs, at), refl),
    )
