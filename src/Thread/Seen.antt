-- ===== src/Thread/Seen.antt =====
-- What is to be seen of the thread of schedulers/triton/lib/thread_wrapper.cc, and how one message or
-- one iteration may change it.
use gr4_torchdsp.Prelude.{
  ℕ, suc, ◌≡◌, refl, sym, subst, ◌∙◌, Bool, true, false, arith, inl, inr, ◌⊎◌, Bool-cases,
}
use gr4_torchdsp.Outcome.{ok, >>=-eq-ok, ok-snd}
use gr4_torchdsp.Runtime.{Runtime, Status}
use gr4_torchdsp.Channel.{
  Channel, Message, Action, signal_done, done, exit, notify_output, notify_input, notify_all,
  other_action, scheduler_action, msgport_message, param_query, param_change, other_message,
}
use gr4_torchdsp.Thread.State.{Thread}
use gr4_torchdsp.Thread.Work.{
  after_iteration, handle_work_notification, handle_parameter_query, handle_parameter_change,
}
use gr4_torchdsp.Thread.Body.{Body, handle_action, handle_message}
use gr4_torchdsp.Executor.Iteration.{run_one_iteration}
use gr4_torchdsp.Thread.Flushing.{flushed_count}
use gr4_torchdsp.Thread.Lifecycle.{
  IsAwake, running_awake, stopping_awake, stop_running, View, ◌⟶◌, goes_on, starts_flushing,
  tells_flushed, stays,
}
use gr4_torchdsp.Thread.Phases.{asked, view, IsInside, phase_inside}

-- The part of a thread that the view shows.
pub record Seen : Type 0 where
  pub is_stopped : Bool
  pub is_flushing : Bool
  pub times_told : ℕ

abbrev pub seen : {Q : Type 0} → Thread Q → Seen
seen t = record {
  is_stopped = t.thread_stopped;
  is_flushing = t.flushing;
  times_told = flushed_count t.effects;
}

-- What one message or one iteration may change of it.
pub data Change (x y : Seen) : Type 0 where
  same :
      y.is_stopped ≡ x.is_stopped
      → y.is_flushing ≡ x.is_flushing
      → y.times_told ≡ x.times_told
      → Change x y
  exits :
      y.is_stopped ≡ true → y.is_flushing ≡ x.is_flushing → y.times_told ≡ x.times_told → Change x y
  flushes :
      y.is_stopped ≡ x.is_stopped → y.is_flushing ≡ true → y.times_told ≡ x.times_told → Change x y
  tells :
      y.is_stopped ≡ x.is_stopped
      → x.is_flushing ≡ true
      → y.is_flushing ≡ true
      → y.times_told ≡ suc x.times_told
      → Change x y

asked-IsAwake : (s : Bool) → IsAwake (asked true s)
asked-IsAwake false = running_awake
asked-IsAwake true = stopping_awake

pub View-eq : (v w : View) → w.phase ≡ v.phase → w.flushing ≡ v.flushing → w.told ≡ v.told → w ≡ v
View-eq v w p f t = ground arith

pub inside_phase :
    {Q : Type 0} (b : Body Q) (s : Bool)
    → IsInside b.place
    → b.thread.ready_to_start ≡ true
    → b.thread.thread_stopped ≡ s
    → (view b).phase ≡ asked true s
inside_phase b s i on e = phase_inside b.place _ _ i ∙ rw (on, e) refl

-- A change inside the loop is a step of the diagram.
pub Change-⟶ :
    {Q : Type 0} (b c : Body Q)
    → IsInside b.place
    → IsInside c.place
    → b.thread.ready_to_start ≡ true
    → c.thread.ready_to_start ≡ true
    → Change (seen b.thread) (seen c.thread)
    → view b ⟶ view c
Change-⟶ b c i j on on' (same s f n) =
    let pb = inside_phase b b.thread.thread_stopped i on refl in
    let pc = inside_phase c b.thread.thread_stopped j on' s in
    stays (View-eq (view b) (view c) (pc ∙ sym pb) f n)
Change-⟶ b c i j on on' (exits s f n) = elim (Bool-cases b.thread.thread_stopped) [
  | inl was ↦
      let pb = inside_phase b true i on was in
      let pc = inside_phase c true j on' s in stays (View-eq (view b) (view c) (pc ∙ sym pb) f n)
  | inr was ↦ goes_on (inside_phase b false i on was) (inside_phase c true j on' s) stop_running f n
]
Change-⟶ b c i j on on' (flushes s f n) =
    let was = b.thread.thread_stopped in
    starts_flushing (inside_phase b was i on refl) (inside_phase c was j on' s) (asked-IsAwake was)
      f n
Change-⟶ b c i j on on' (tells s f g n) =
    let was = b.thread.thread_stopped in
    tells_flushed (inside_phase b was i on refl) (inside_phase c was j on' s) (asked-IsAwake was) f
      g n

module _ (ch : Channel) (fuel : ℕ) (rt : Runtime) where
  open ch use {Queue, pop}

  after_iteration-told :
      (s : Status) (t : Thread Queue)
      → let u = (after_iteration ch s t).1 in
        (u.thread_stopped ≡ t.thread_stopped)
        × (u.flushing ≡ t.flushing)
        × ((flushed_count u.effects ≡ flushed_count t.effects)
            ⊎ ((t.flushing ≡ true) × (flushed_count u.effects ≡ suc (flushed_count t.effects))))
  unfolding after_iteration
  after_iteration-told s t = ground arith

  after_iteration-Change :
      (s : Status) (t : Thread Queue) → Change (seen t) (seen (after_iteration ch s t).1)
  after_iteration-Change s t =
      let (stops, flags, told) = after_iteration-told s t in
      elim told [ inl n ↦ same stops flags n | inr (on, n) ↦ tells stops on (flags ∙ on) n ]

  handle_action-Change :
      (a : Action) (w : Bool) (t : Thread Queue)
      → Change (seen t) (seen (handle_action ch fuel rt a w t).1)
  unfolding handle_action
  handle_action-Change signal_done w t = same refl refl refl
  handle_action-Change done w t = flushes refl refl refl
  handle_action-Change exit w t = exits refl refl refl
  handle_action-Change notify_output w t = same refl refl refl
  handle_action-Change notify_input w t = same refl refl refl
  handle_action-Change notify_all w t = same refl refl refl
  handle_action-Change (other_action n) w t = same refl refl refl

  pub handle_work_notification-Change :
      (t u : Thread Queue) (r : Bool)
      → handle_work_notification ch fuel rt t ≡ ok (r, u)
      → Change (seen t) (seen u)
  unfolding handle_work_notification
  handle_work_notification-Change t u r h =
      let ((s, e), _, q) = >>=-eq-ok (run_one_iteration fuel rt t.blocks t.blocks t.exec) _ h in
      subst (λ v. Change (seen t) (seen v)) (ok-snd q)
        (after_iteration-Change s (record t { exec = e }))

  pub handle_message-Change :
      (m : Message) (w w' : Bool) (t u : Thread Queue)
      → handle_message ch fuel rt m w t ≡ ok (w', u)
      → Change (seen t) (seen u)
  unfolding handle_message handle_parameter_query handle_parameter_change
  handle_message-Change (scheduler_action a) w w' t u h =
      subst (λ v. Change (seen t) (seen v)) (ok-snd h) (handle_action-Change a w t)
  handle_message-Change (msgport_message m) w w' t u h =
      subst (λ v. Change (seen t) (seen v)) (ok-snd h) (same refl refl refl)
  handle_message-Change (param_query blkid action cb) w w' t u h =
      same (ground arith) (ground arith) (ground arith)
  handle_message-Change (param_change blkid action cb) w w' t u h =
      same (ground arith) (ground arith) (ground arith)
  handle_message-Change (other_message n) w w' t u h =
      subst (λ v. Change (seen t) (seen v)) (ok-snd h) (same refl refl refl)
