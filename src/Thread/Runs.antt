-- ===== src/Thread/Runs.antt =====
-- Several steps of the thread's machine, and what other threads may do between them.
use gr4_torchdsp.Prelude.{ℕ, ◌≡◌}
use gr4_torchdsp.Outcome.{ok}
use gr4_torchdsp.Runtime.{Runtime}
use gr4_torchdsp.Channel.{Channel, Message}
use gr4_torchdsp.Thread.State.{push_message, start, request_stop, stop_blocks, done_blocks}
use gr4_torchdsp.Thread.Body.{Body, moved, finished, step}

module _ (ch : Channel) (fuel : ℕ) (rt : Runtime) where
  open ch use {Queue}

  -- The thread alone, as far as it moves.
  pub data Runs (b : Body Queue) : Body Queue → Type 0 where
    here : Runs b b
    then : {c d : Body Queue} → Runs b c → step ch fuel rt c ≡ ok (moved d) → Runs b d

  pub Runs-trans : {a b c : Body Queue} → Runs a b → Runs b c → Runs a c
  Runs-trans r here = r
  Runs-trans r (then s q) = then (Runs-trans r s) q

  pub Runs-one : {a b : Body Queue} → step ch fuel rt a ≡ ok (moved b) → Runs a b
  Runs-one q = then here q

  -- One event of the whole program: the thread moves, or another thread pushes a message, starts
  -- it, asks it to stop, or goes on with `stop` or `wait` once it has joined the thread.
  pub data Event : Body Queue → Body Queue → Type 0 where
    moves : {b c : Body Queue} → step ch fuel rt b ≡ ok (moved c) → Event b c
    pushed :
        {b c : Body Queue} (m : Message)
        → c ≡ record b { thread = push_message ch m b.thread }
        → Event b c
    started : {b c : Body Queue} → c ≡ record b { thread = start ch b.thread } → Event b c
    stopped : {b c : Body Queue} → c ≡ record b { thread = request_stop ch b.thread } → Event b c
    stop_joined :
        {b c : Body Queue}
        → b.place ≡ finished
        → c ≡ record b { thread = stop_blocks b.thread }
        → Event b c
    wait_joined :
        {b c : Body Queue}
        → b.place ≡ finished
        → c ≡ record b { thread = done_blocks b.thread }
        → Event b c

  pub data Reach (b : Body Queue) : Body Queue → Type 0 where
    start_here : Reach b b
    after : {c d : Body Queue} → Reach b c → Event c d → Reach b d
