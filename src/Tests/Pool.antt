-- ===== src/Tests/Pool.antt =====
-- Two buffers, of which the first is destroyed, and the Triton block of Tests.Block over the other.
use gr4_torchdsp.Prelude.{◌≡◌, refl, true, String, [], ◌∷◌, ◌++◌, some, length, All}
use gr4_torchdsp.Prelude.Int.{pos}
use gr4_torchdsp.Outcome.{ok}
use gr4_torchdsp.Buffer.Health.{is_server_healthy}
use gr4_torchdsp.Model.Metadata.{to_string, itemsize, num_elements}
use gr4_torchdsp.Model.Configure.{Model}
use gr4_torchdsp.Model.Configured.{sized}
use gr4_torchdsp.Buffer.Calls.{
  Host, Calls, create_client, create_region, map_memory, close_memory, register_memory,
  unmap_memory, unlink_region, unregister_memory,
}
use gr4_torchdsp.Buffer.Lifetime.{
  BufferTriton, d2d, attach, attached, hand_over, connect, construct, destroy,
}
use gr4_torchdsp.Buffer.Ledger.{held}
use gr4_torchdsp.Buffer.Bag.{bag}
use gr4_torchdsp.Buffer.Pool.{Pool, Runs, here, next, constructs, destroys, owned_all}
use gr4_torchdsp.Buffer.Owned.{without_buffers, IsDestructible, IsRegistered, Runs-owned}
use gr4_torchdsp.Block.Work.{BlockWork, Surroundings, work}
use gr4_torchdsp.Block.Regions.{NamesAll, work-IsRegistered}
use gr4_torchdsp.Tests.Buffer.{host, up}
use gr4_torchdsp.Tests.Model.{a_view, tensor}
use gr4_torchdsp.Tests.Block.{block, env}
use gr4_torchdsp.Tests.Chain.{triton_io, state_two, ports_two}
use gr4_torchdsp.Model.Interface.{triton_model_impl}

-- A host that numbers its keys.
abbrev numbered : Host
numbered = record (host true (some 4096) true) { get_id = λ cs. length cs }

abbrev buffer_under : String → BufferTriton
buffer_under key = attached d2d (some 4096) 32 key

abbrev calls_for : String → String → Calls → Calls
calls_for key path cs =
    register_memory key path 32 true
    ∷ close_memory (pos 3)
    ∷ map_memory (pos 3) 0 32 (some 4096)
    ∷ create_region path 32 (record { is_ok = true; fd = pos 3 })
    ∷ create_client "localhost:8000"
    ∷ cs

abbrev one_made : Calls
one_made = calls_for "1gr__u" "/1gr__u" []

abbrev both_made : Calls
both_made = calls_for "6gr__u" "/6gr__u" one_made

abbrev one_left : Calls
one_left =
    unregister_memory "1gr__u" true
    ∷ unlink_region "/1gr__u" true
    ∷ unmap_memory (some 4096) 32 true
    ∷ both_made

first_constructed :
    construct numbered 8 4 "localhost:8000" d2d [] ≡ ok (some (buffer_under "1gr__u"), one_made)
unfolding construct connect attach hand_over is_server_healthy to_string
first_constructed = refl

second_constructed :
    construct numbered 8 4 "localhost:8000" d2d one_made
    ≡ ok (some (buffer_under "6gr__u"), both_made)
unfolding construct connect attach hand_over is_server_healthy to_string
second_constructed = refl

first_destroyed : destroy numbered (buffer_under "1gr__u") both_made ≡ ok one_left
unfolding destroy
first_destroyed = refl

abbrev left_over : Pool
left_over = record { live = buffer_under "6gr__u" ∷ []; calls = one_left }

first_of_two_destroyed : Runs numbered (without_buffers []) left_over
first_of_two_destroyed =
    next
      (next (next here (constructs 8 4 "localhost:8000" d2d _ _ up first_constructed refl))
        (constructs 8 4 "localhost:8000" d2d _ _ up second_constructed refl))
      (destroys (buffer_under "6gr__u" ∷ []) [] (buffer_under "1gr__u") one_left refl
        first_destroyed refl)

Runs-owned_example :
    (bag (held one_left) ≡ bag (owned_all (buffer_under "6gr__u" ∷ []) ++ held []))
    × All (IsDestructible numbered one_left) (buffer_under "6gr__u" ∷ [])
Runs-owned_example =
    Runs-owned numbered (λ cs path size e. refl) [] left_over first_of_two_destroyed
      ((λ h a size. refl), (λ h path. refl), (λ h key. refl))

-- All ports of the block are on the buffer that is left.
abbrev shared_env : Surroundings
shared_env = record env {
  reader_view = λ k. record a_view { shm_key = "6gr__u" };
  buffer_view = λ k. record a_view { shm_key = "6gr__u" };
}

work-IsRegistered_example :
    (w : BlockWork Model) × (work shared_env (block true) triton_io ≡ ok w)
    × NamesAll (IsRegistered one_left) w.request
work-IsRegistered_example =
    work-IsRegistered numbered (λ cs path size e. refl) [] left_over first_of_two_destroyed
      shared_env (block true) triton_io (some 101 ∷ some 103 ∷ []) (some 102 ∷ []) (refl, refl)
      state_two ports_two (([], _, [], refl, refl), (([], _, [], refl, refl), tt))
      (([], _, [], refl, refl), tt)

tensor-sized : sized (tensor ∷ tensor ∷ []) ≡ tensor ∷ tensor ∷ []
unfolding sized itemsize num_elements
tensor-sized = refl
