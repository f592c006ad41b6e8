-- ===== src/Runtime.antt =====
-- The GNU Radio runtime as the scheduler's code sees it. None of it is in this repository: its
-- answers are the fields of `Runtime`, each a function of the calls made so far, newest first, so
-- that a buffer's fill and a block's results may change from call to call. The data types name the
-- enumerators and the members that schedulers/triton/lib uses.
use gr4_torchdsp.Prelude.{ℕ, Bool, List, Option}
use gr4_torchdsp.Prelude.Int.{ℤ}

-- `work_return_t`; `other_return` stands for the enumerators that the scheduler never names.
pub data WorkReturn : Type 0 where
  work_ok work_done insufficient_input_items insufficient_output_items : WorkReturn
  other_return : ℕ → WorkReturn

-- `executor_iteration_status_t`
pub data Status : Type 0 where
  ready ready_no_output blkd_in blkd_out msg_only done : Status

-- One entry of `work_io::inputs()`: its port, `bufp()`, and the two counts.
pub record Input : Type 0 where
  pub port : ℕ
  pub bufp : Option ℕ
  pub n_items : ℕ
  pub n_consumed : ℕ

pub record Output : Type 0 where
  pub port : ℕ
  pub bufp : Option ℕ
  pub n_items : ℕ
  pub n_produced : ℕ

pub record WorkIo : Type 0 where
  pub inputs : List Input
  pub outputs : List Output

-- A call that leaves the scheduler: buffers, blocks and ports by number.
pub data Event : Type 0 where
  read_info write_info : ℕ → Event
  get_tags : ℕ → ℤ → Event
  set_async_callback do_work callback : ℕ → Event
  post_read post_write : ℕ → ℕ → Event
  -- `notify_scheduler_action(NOTIFY_OUTPUT)`, `(NOTIFY_INPUT)`
  notify_output notify_input : ℕ → Event
  input_blocked_callback : ℕ → ℕ → Event
  output_blocked_callback : ℕ → Bool → Event
  -- `start()`, `stop()` and `done()` of a block
  block_start block_stop block_done : ℕ → Event

abbrev pub History : Type 0
History = List Event

-- What `read_info` and `write_info` return, and the `n_items` that they fill in.
pub record BufferInfo : Type 0 where
  pub valid : Bool
  pub n_items : ℤ

-- `do_work`: what it returns, the `work_io` that it leaves, and whether the asynchronous request
-- that it queued, if any, invokes the callback some time later.
pub record Work : Type 0 where
  pub ret : WorkReturn
  pub wio : WorkIo
  pub calls_back : Bool

pub record Runtime : Type 0 where
  pub max_buffer_read : ℕ → ℕ
  pub min_buffer_read : ℕ → ℕ
  pub max_buffer_fill : ℕ → ℕ
  pub min_buffer_fill : ℕ → ℕ
  pub read_info_of : History → ℕ → BufferInfo
  pub write_info_of : History → ℕ → BufferInfo
  pub is_hier : ℕ → Bool
  pub output_multiple_set : ℕ → Bool
  pub output_multiple : ℕ → ℕ
  -- the block is an `async_block_interface`, so the dynamic cast is not null
  pub is_async : ℕ → Bool
  pub do_work_of : History → ℕ → WorkIo → Work
  pub input_blocked_of : History → ℕ → ℕ → Bool
  pub output_blocked_of : History → ℕ → Bool → Bool
