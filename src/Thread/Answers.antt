-- ===== src/Thread/Answers.antt =====
-- What a thread needs to take a message or a work notification, and messages that it can answer:
-- thread_wrapper::thread_body and handle_parameter_query of schedulers/triton/lib/thread_wrapper.cc.
use gr4_torchdsp.Prelude.{ℕ, ◌≡◌, refl, Bool, List, ◌∷◌, none, some}
use gr4_torchdsp.Outcome.{ok}
use gr4_torchdsp.Runtime.{Runtime}
use gr4_torchdsp.Channel.{
  Channel, Message, signal_done, done, exit, notify_output, notify_input, notify_all, other_action,
  scheduler_action, msgport_message, param_query, param_change, other_message,
}
use gr4_torchdsp.Executor.Behaved.{Wires, IsWired}
use gr4_torchdsp.Thread.State.{
  Thread, find_block, log_effect, on_parameter_query, on_parameter_change, param_callback,
}
use gr4_torchdsp.Thread.Body.{handle_message}

-- The thread's chain, with the ports and buffers of the wiring.
abbrev pub Runnable : {Q : Type 0} → ℕ → List ℕ → Wires → Thread Q → Type 0
Runnable first rest wires t = (t.blocks ≡ first ∷ rest) × IsWired wires t.exec

-- A query or a change of a parameter that names a block of the map, or any other message.
abbrev pub Answerable : List (ℕ × ℕ) → Message → Type 0
Answerable m (param_query k action cb) = (b : ℕ) × (find_block k m ≡ some b)
Answerable m (param_change k action cb) = (b : ℕ) × (find_block k m ≡ some b)
Answerable m _ = Unit

module _ (ch : Channel) (fuel : ℕ) (rt : Runtime) where
  open ch use {Queue, contents, pop, contents-push, pop-cons}

  abbrev pub Handled : Message → Bool → Thread Queue → Type 0
  Handled m w t =
      (w' : Bool) × (u : Thread Queue) × (handle_message ch fuel rt m w t ≡ ok (w', u))
      × (u.blocks ≡ t.blocks)
      × (u.exec.wio ≡ t.exec.wio)

  pub handle_message-returns :
      (m : Message) (w : Bool) (t : Thread Queue) → Answerable t.block_map m → Handled m w t
  unfolding handle_message find_block
  handle_message-returns (scheduler_action signal_done) w t a = (_, _, refl, refl, refl)
  handle_message-returns (scheduler_action done) w t a = (_, _, refl, refl, refl)
  handle_message-returns (scheduler_action exit) w t a = (_, _, refl, refl, refl)
  handle_message-returns (scheduler_action notify_output) w t a = (_, _, refl, refl, refl)
  handle_message-returns (scheduler_action notify_input) w t a = (_, _, refl, refl, refl)
  handle_message-returns (scheduler_action notify_all) w t a = (_, _, refl, refl, refl)
  handle_message-returns (scheduler_action (other_action n)) w t a = (_, _, refl, refl, refl)
  handle_message-returns (msgport_message n) w t a = (_, _, refl, refl, refl)
  handle_message-returns (param_query k action none) w t (b, e) =
      (w, log_effect (on_parameter_query b action) t, rw e, refl, refl)
  handle_message-returns (param_query k action (some cb)) w t (b, e) = (
    w,
    log_effect (param_callback cb action) (log_effect (on_parameter_query b action) t),
    rw e,
    refl,
    refl,
  )
  handle_message-returns (param_change k action none) w t (b, e) =
      (w, log_effect (on_parameter_change b action) t, rw e, refl, refl)
  handle_message-returns (param_change k action (some cb)) w t (b, e) = (
    w,
    log_effect (param_callback cb action) (log_effect (on_parameter_change b action) t),
    rw e,
    refl,
    refl,
  )
  handle_message-returns (other_message n) w t a = (_, _, refl, refl, refl)
