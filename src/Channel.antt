-- ===== src/Channel.antt =====
-- `concurrent_queue` of GNU Radio, which is not in this repository: the thread's message queue as
-- an interface. The laws say that it is first in, first out; a pop from the empty queue gives
-- nothing, which makes `pop` wait and `try_pop` return false.
use gr4_torchdsp.Prelude.{ℕ, ◌≡◌, refl, List, [], ◌∷◌, ◌++◌, Option, none, some}

-- `scheduler_action_t`
pub data Action : Type 0 where
  signal_done done exit notify_output notify_input notify_all : Action
  other_action : ℕ → Action

-- `scheduler_message`: an action; a message for a port's callback; a query or a change of a
-- parameter of the block with the given id, and whether it has a callback of its own.
pub data Message : Type 0 where
  scheduler_action : Action → Message
  msgport_message : ℕ → Message
  param_query param_change : ℕ → ℕ → Option ℕ → Message
  other_message : ℕ → Message

pub record Channel : Type 1 where
  pub Queue : Type 0
  pub contents : Queue → List Message
  pub push : Queue → Message → Queue
  pub pop : Queue → Option (Message × Queue)
  pub contents-push : (q : Queue) (m : Message) → contents (push q m) ≡ contents q ++ m ∷ []
  pub pop-nil : (q : Queue) → contents q ≡ [] → pop q ≡ none
  pub pop-cons :
      (q : Queue) (m : Message) (ms : List Message)
      → contents q ≡ m ∷ ms
      → (q' : Queue) × (pop q ≡ some (m, q')) × (contents q' ≡ ms)

abbrev pub pop_list : List Message → Option (Message × List Message)
pop_list [] = none
pop_list (m ∷ ms) = some (m, ms)

pub pop_list-nil : (q : List Message) → q ≡ [] → pop_list q ≡ none
pop_list-nil q e = rw e

pub pop_list-cons :
    (q : List Message) (m : Message) (ms : List Message)
    → q ≡ m ∷ ms
    → (q' : List Message) × (pop_list q ≡ some (m, q')) × (q' ≡ ms)
pop_list-cons q m ms e = (ms, rw e, refl)

-- The laws can be met: a list with its head in front.
abbrev pub list_channel : Channel
list_channel = record {
  Queue = List Message;
  contents = λ q. q;
  push = λ q m. q ++ m ∷ [];
  pop = pop_list;
  contents-push = λ q m. refl;
  pop-nil = pop_list-nil;
  pop-cons = pop_list-cons;
}
