-- ===== src/Thread/State.antt =====
-- The members of thread_wrapper (thread_wrapper.h of schedulers/triton/include) and the short
-- methods that change them: the constructor, push_message, start_flushing, stop_blocks, kill, and
-- the parts of start, stop and wait that do not join the thread.
use gr4_torchdsp.Prelude.{
  ℕ, Bool, true, false, List, [], ◌∷◌, Option, none, some, ◌==◌, if◌then◌else◌,
}
use gr4_torchdsp.Runtime.{History, block_start, block_stop, block_done}
use gr4_torchdsp.Channel.{Channel, Message, scheduler_action, exit, notify_all}
use gr4_torchdsp.Options.{SchedulerTritonOptions}
use gr4_torchdsp.Executor.Work.{Exec}

-- What the thread does to the rest of the program, besides the calls in `Exec.history`: messages to
-- the runtime monitor, with the sender's id where it is given; the pause between two rounds of
-- flushing; and the callbacks of messages and of parameter actions.
pub data Effect : Type 0 where
  rtmon_done : Option ℕ → Effect
  rtmon_flushed : ℕ → Effect
  sleep_ms : ℕ → Effect
  msgport_callback : ℕ → Effect
  on_parameter_query on_parameter_change : ℕ → ℕ → Effect
  param_callback : ℕ → ℕ → Effect

pub record Thread (Queue : Type 0) : Type 0 where
  pub id : ℕ
  pub msgq : Queue
  pub thread_stopped : Bool
  pub blocks : List ℕ
  -- the keys of `d_block_id_to_block_map`, each with its block
  pub block_map : List (ℕ × ℕ)
  pub flushing : Bool
  pub flush_cnt : ℕ
  pub opts : SchedulerTritonOptions
  pub ready_to_start : Bool
  pub exec : Exec
  -- newest first
  pub effects : List Effect

-- `map[key]` on a key that is not there inserts a null pointer, here `none`.
unfoldable pub find_block : ℕ → List (ℕ × ℕ) → Option ℕ
find_block k [] = none
find_block k ((j, b) ∷ m) = if j == k then some b else find_block k m

-- The loop of the constructor; `id_of` is `b->id()`. A later block replaces an earlier one with the
-- same id, so it stands in front.
unfoldable pub map_blocks : (ℕ → ℕ) → List ℕ → List (ℕ × ℕ) → List (ℕ × ℕ)
map_blocks id_of [] m = m
map_blocks id_of (b ∷ bs) m = map_blocks id_of bs ((id_of b, b) ∷ m)

unfoldable pub start_all : List ℕ → History → History
start_all [] h = h
start_all (b ∷ bs) h = start_all bs (block_start b ∷ h)

unfoldable pub stop_all : List ℕ → History → History
stop_all [] h = h
stop_all (b ∷ bs) h = stop_all bs (block_stop b ∷ h)

unfoldable pub done_all : List ℕ → History → History
done_all [] h = h
done_all (b ∷ bs) h = done_all bs (block_done b ∷ h)

module _ (ch : Channel) where
  open ch use {Queue, push}

  -- thread_wrapper::thread_wrapper, up to the start of the thread
  unfoldable pub make : ℕ → List ℕ → (ℕ → ℕ) → SchedulerTritonOptions → Exec → Queue → Thread Queue
  unfolding map_blocks
  make id blocks id_of opts exec q = record {
    id = id;
    msgq = q;
    thread_stopped = false;
    blocks = blocks;
    block_map = map_blocks id_of blocks [];
    flushing = false;
    flush_cnt = 0;
    opts = opts;
    ready_to_start = false;
    exec = exec;
    effects = [];
  }

  unfoldable pub push_message : Message → Thread Queue → Thread Queue
  push_message m t = record t { msgq = push t.msgq m }

  unfoldable pub start_flushing : Thread Queue → Thread Queue
  unfolding push_message
  start_flushing t =
      push_message (scheduler_action notify_all) (record t { flushing = true; flush_cnt = 0 })

  unfoldable pub kill : Thread Queue → Thread Queue
  unfolding push_message
  kill t = push_message (scheduler_action exit) t

  unfoldable pub start : Thread Queue → Thread Queue
  unfolding push_message start_all
  start t =
      let started = record t {
        exec = record t.exec { history = start_all t.blocks t.exec.history };
      } in
      record (push_message (scheduler_action notify_all) started) { ready_to_start = true }

  -- The first two lines of `stop`: what follows waits for the thread.
  unfoldable pub request_stop : Thread Queue → Thread Queue
  unfolding kill
  request_stop t = kill (record t { thread_stopped = true })

abbrev pub log_effect : {Q : Type 0} → Effect → Thread Q → Thread Q
log_effect v t = record t { effects = v ∷ t.effects }

-- The loop over the blocks in `stop_blocks`, and in `stop` once the thread has been joined.
unfoldable pub stop_blocks : {Q : Type 0} → Thread Q → Thread Q
unfolding stop_all
stop_blocks t = record t { exec = record t.exec { history = stop_all t.blocks t.exec.history } }

-- The loop in `wait`, once the thread has been joined.
unfoldable pub done_blocks : {Q : Type 0} → Thread Q → Thread Q
unfolding done_all
done_blocks t = record t { exec = record t.exec { history = done_all t.blocks t.exec.history } }
