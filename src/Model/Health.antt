-- ===== src/Model/Health.antt =====
-- triton_model_impl::is_server_healthy, lines 161 to 179 of
-- blocklib/torchdsp/lib/triton_model_impl.cc. The answers of the Triton client are parameters.
use gr4_torchdsp.Prelude.{Bool, false, ◌&&◌, Option, none, some, if◌then◌else◌}
use gr4_torchdsp.Outcome.{Outcome, ok, fault, uninitialised, ◌>>=◌}

-- What one health query of the client does: whether it succeeds, and what it writes to the flag, if
-- it writes at all.
pub record Reply : Type 0 where
  pub is_ok : Bool
  pub flag : Option Bool

pub record Server : Type 0 where
  pub is_server_live : Reply
  pub is_server_ready : Reply

-- Reading the local variable that the query was to fill in.
abbrev pub read_flag : Option Bool → Outcome Bool
read_flag none = fault uninitialised
read_flag (some b) = ok b

-- `err.IsOk() && flag`: the flag is read only if the query succeeded. The result only chooses what
-- is printed.
abbrev pub replied : Reply → Outcome Bool
replied r = if r.is_ok then read_flag r.flag else ok false

unfoldable pub is_server_healthy : Server → Outcome Bool
is_server_healthy s = replied s.is_server_live >>= λ _. replied s.is_server_ready >>= λ _.
    read_flag s.is_server_ready.flag >>= λ is_ready.
    read_flag s.is_server_live.flag >>= λ is_live. ok (is_ready && is_live)
