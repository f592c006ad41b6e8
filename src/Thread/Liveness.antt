-- ===== src/Thread/Liveness.antt =====
-- The flushing of the thread comes to its end with no help from outside.
use gr4_torchdsp.Prelude.{
  ℕ, zero, suc, ◌+◌, ◌≡◌, refl, ap, ◌∙◌, true, false, List, [], ◌∷◌, ◌++◌, arith, if◌then◌else◌,
}
use gr4_torchdsp.Outcome.{ok}
use gr4_torchdsp.Runtime.{Runtime, Status}
use gr4_torchdsp.Channel.{Channel, scheduler_action, notify_all}
use gr4_torchdsp.Executor.Work.{Exec}
use gr4_torchdsp.Executor.Iteration.{run_one_iteration}
use gr4_torchdsp.Thread.State.{Thread}
use gr4_torchdsp.Thread.Work.{after_iteration, handle_work_notification}
use gr4_torchdsp.Thread.Body.{Body, moved, outer, inner, step, step_at, step_outer}
use gr4_torchdsp.Thread.Flushing.{
  flushed_count, Flushing, after_iteration-counts, after_iteration-flushes,
}
use gr4_torchdsp.Thread.Runs.{Runs, Runs-trans, Runs-one}
use gr4_torchdsp.Thread.Draining.{Runs-drain, drained}
use gr4_torchdsp.Thread.Exiting.{works}

-- Iterations over these blocks return in every state that satisfies `P`, and keep it.
abbrev pub KeepsReturning : ℕ → Runtime → List ℕ → (Exec → Type 0) → Type 0
KeepsReturning fuel rt blocks P =
    (e : Exec)
    → P e
    → (s : Status) × (e' : Exec) × (run_one_iteration fuel rt blocks blocks e ≡ ok (s, e')) × P e'

module _ (ch : Channel) (fuel : ℕ) (rt : Runtime) where
  open ch use {Queue, contents, push, contents-push}

  pub enters :
      (b : Body Queue)
      → b.place ≡ outer
      → b.thread.thread_stopped ≡ false
      → step ch fuel rt b ≡ ok (moved (record b { place = inner; do_some_work = false }))
  unfolding step
  enters b at run = simp (at, step_at) (simp (run, step_outer))

  handle_work_notification-ok :
      (t : Thread Queue) (s : Status) (e : Exec)
      → run_one_iteration fuel rt t.blocks t.blocks t.exec ≡ ok (s, e)
      → handle_work_notification ch fuel rt t ≡ ok (after_iteration ch s (record t { exec = e }))
  unfolding handle_work_notification
  handle_work_notification-ok t s e h = rw h

  -- The queued NOTIFY_ALL is taken and an iteration run.
  pub inner_round :
      (b : Body Queue) (s : Status) (e : Exec)
      → b.place ≡ inner
      → b.thread.thread_stopped ≡ false
      → contents b.thread.msgq ≡ scheduler_action notify_all ∷ []
      → run_one_iteration fuel rt b.thread.blocks b.thread.blocks b.thread.exec ≡ ok (s, e)
      → (q : Queue) × (c : Body Queue) × (contents q ≡ [])
        × Runs ch fuel rt b c
        × (c.place ≡ outer)
        × (c.thread ≡ (after_iteration ch s (record b.thread { msgq = q; exec = e })).1)
  inner_round b s e at run queue h =
      let (q, empty, drains) =
        Runs-drain ch fuel rt (scheduler_action notify_all) [] b at run queue (tt, tt) in
      let t = record b.thread { msgq = q } in
      let (r, u) = after_iteration ch s (record t { exec = e }) in
      let worked =
        works ch fuel rt (drained b q) r u refl refl (handle_work_notification-ok t s e h) in
      (
        q,
        record (drained b q) {
          place = outer;
          blocking_queue = if r then false else true;
          thread = u;
        },
        empty,
        Runs-trans ch fuel rt drains (Runs-one ch fuel rt worked),
        refl,
        refl,
      )

  one_round :
      (b : Body Queue) (s : Status) (e : Exec)
      → b.place ≡ outer
      → b.thread.thread_stopped ≡ false
      → contents b.thread.msgq ≡ scheduler_action notify_all ∷ []
      → run_one_iteration fuel rt b.thread.blocks b.thread.blocks b.thread.exec ≡ ok (s, e)
      → (q : Queue) × (c : Body Queue) × (contents q ≡ [])
        × Runs ch fuel rt b c
        × (c.place ≡ outer)
        × (c.thread ≡ (after_iteration ch s (record b.thread { msgq = q; exec = e })).1)
  one_round b s e at run queue h =
      let b1 = record b { place = inner; do_some_work = false } in
      let (q, c, empty, runs, place, thread) = inner_round b1 s e refl run queue h in
      (
        q,
        c,
        empty,
        Runs-trans ch fuel rt (Runs-one ch fuel rt (enters b at run)) runs,
        place,
        thread,
      )

  abbrev pub Steady : Thread Queue → Exec → Thread Queue → Type 0
  Steady t e u = (u.blocks ≡ t.blocks) × (u.thread_stopped ≡ t.thread_stopped) × (u.exec ≡ e)

  pub after_iteration-Steady :
      (s : Status) (t : Thread Queue) → Steady t t.exec (after_iteration ch s t).1
  unfolding after_iteration
  after_iteration-Steady s t = ground arith

  -- A thread that is flushing and has one NOTIFY_ALL queued tells the monitor FLUSHED.
  pub Runs-flushed :
      (P : Exec → Type 0) (k : ℕ) (b : Body Queue)
      → KeepsReturning fuel rt b.thread.blocks P
      → P b.thread.exec
      → Flushing ch b.thread
      → b.place ≡ outer
      → b.thread.thread_stopped ≡ false
      → contents b.thread.msgq ≡ scheduler_action notify_all ∷ []
      → b.thread.flush_cnt + suc k ≡ b.thread.opts.flush_count
      → (c : Body Queue) × Runs ch fuel rt b c
        × (flushed_count c.thread.effects ≡ suc (flushed_count b.thread.effects))
  Runs-flushed P zero b keeps p f at run queue n =
      let (s, e, ran, _) = keeps b.thread.exec p in
      let (q, c, empty, runs, place, thread) = one_round b s e at run queue ran in
      let done =
        after_iteration-flushes ch s (record b.thread { msgq = q; exec = e }) f (omega arith)
          (omega arith) in
      (c, runs, ap (λ u. flushed_count u.effects) thread ∙ done.1)
  Runs-flushed P (suc k) b keeps p f at run queue n =
      let (s, e, ran, p') = keeps b.thread.exec p in
      let (q, c, empty, runs, place, thread) = one_round b s e at run queue ran in
      let t = record b.thread { msgq = q; exec = e } in
      let u = (after_iteration ch s t).1 in
      let (cnt, pushes, told, flushing, opts) = after_iteration-counts ch s t f (omega arith) in
      let (blocks, stop, exec) = after_iteration-Steady s t in
      let next =
        Runs-flushed P k c (rw (thread, blocks) keeps) (rw (thread, exec) p')
          (rw thread (flushing ∙ f.0, ap (λ o. o.flush) opts ∙ f.1, rw opts f.2)) place
          (rw thread (stop ∙ run))
          (rw thread (
            ap contents pushes
            ∙ contents-push q (scheduler_action notify_all)
            ∙ ap (λ m. m ++ scheduler_action notify_all ∷ []) empty))
          (rw (thread, cnt, opts) (omega arith)) in
      (
        next.0,
        Runs-trans ch fuel rt runs next.1,
        next.2 ∙ ap suc (ap (λ u. flushed_count u.effects) thread ∙ told),
      )
