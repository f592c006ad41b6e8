-- ===== src/Buffer/Health.antt =====
-- The health check of a buffer's constructor, lines 15 to 32 of
-- blocklib/torchdsp/lib/buffer_triton.cc: a function of that file, beside the method of the model.
use gr4_torchdsp.Prelude.{Bool, ◌&&◌}
use gr4_torchdsp.Outcome.{Outcome, ok, ◌>>=◌}
use gr4_torchdsp.Model.Health.{Server, replied, read_flag}

-- Each reply is looked at before the next query, for a line in the log, and the flags again at the
-- end, whatever the errors were.
unfoldable pub is_server_healthy : Server → Outcome Bool
is_server_healthy s = replied s.is_server_live >>= λ _. replied s.is_server_ready >>= λ _.
    read_flag s.is_server_ready.flag >>= λ is_ready.
    read_flag s.is_server_live.flag >>= λ is_live. ok (is_ready && is_live)
