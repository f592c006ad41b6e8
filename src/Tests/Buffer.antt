-- ===== src/Tests/Buffer.antt =====
-- A buffer of eight floats on a host that answers the same to every call.
use gr4_torchdsp.Prelude.{ℕ, ◌≡◌, refl, Bool, true, false, String, [], ◌∷◌, Option, none, some}
use gr4_torchdsp.Prelude.Int.{pos, negsuc}
use gr4_torchdsp.Outcome.{ok, fault, uninitialised}
use gr4_torchdsp.Model.Health.{Reply}
use gr4_torchdsp.Buffer.Health.{is_server_healthy}
use gr4_torchdsp.Model.Metadata.{to_string}
use gr4_torchdsp.Buffer.Calls.{
  Host, Calls, create_client, create_region, map_memory, close_memory, register_memory,
}
use gr4_torchdsp.Buffer.Lifetime.{
  BufferTriton, d2d, attach, attached, hand_over, connect, construct, destroy, make, add_reader,
  default_properties, input_blocked_callback, slashed,
}
use gr4_torchdsp.Buffer.Ledger.{
  region_name, mapping, registration, held, release, map_held, descriptors,
}
use gr4_torchdsp.Buffer.Balance.{construct-descriptors}
use gr4_torchdsp.Buffer.Released.{construct-destroy}
use gr4_torchdsp.Buffer.Faults.{construct-unhealthy, construct-refused}

abbrev says : Bool → Reply
says b = record { is_ok = true; flag = some b }

-- A host whose server is ready or not, whose mappings succeed or not, and whose server accepts
-- registrations or not.
abbrev pub host : Bool → Option ℕ → Bool → Host
host ready addr accepted = record {
  create_client_of = λ cs url. true;
  server_of = λ cs. record { is_server_live = says true; is_server_ready = says ready };
  get_id = λ cs. 7;
  get_unique_string = λ cs. "_u";
  create_region_of = λ cs path size. record { is_ok = true; fd = pos 3 };
  map_memory_of = λ cs fd size. addr;
  register_memory_of = λ cs key path size. accepted;
  unmap_memory_of = λ cs a size. true;
  unlink_region_of = λ cs path. true;
  unregister_memory_of = λ cs key. true;
}

abbrev no_region : Host
no_region = record (host true none true) {
  create_region_of = λ cs path size. record { is_ok = false; fd = negsuc 0 };
}

abbrev a_buffer : BufferTriton
a_buffer = attached d2d (some 4096) 32 "7gr__u"

abbrev closed : Option ℕ → Calls
closed addr =
    close_memory (pos 3)
    ∷ map_memory (pos 3) 0 32 addr
    ∷ create_region "/7gr__u" 32 (record { is_ok = true; fd = pos 3 })
    ∷ create_client "localhost:8000"
    ∷ []

abbrev registered : Calls
registered = register_memory "7gr__u" "/7gr__u" 32 true ∷ closed (some 4096)

constructed :
    construct (host true (some 4096) true) 8 4 "localhost:8000" d2d []
    ≡ ok (some a_buffer, registered)
unfolding construct connect attach hand_over is_server_healthy to_string
constructed = refl

made :
    make (host true (some 4096) true) 8 4 (some default_properties) []
    ≡ ok (some a_buffer, registered)
unfolding make construct connect attach hand_over is_server_healthy to_string
made = refl

no_properties : make no_region 8 4 none [] ≡ ok (none, [])
unfolding make
no_properties = refl

-- A region that cannot be made: the mapping and the close are tried all the same.
abbrev abandoned : Calls
abandoned =
    close_memory (negsuc 0)
    ∷ map_memory (negsuc 0) 0 32 none
    ∷ create_region "/7gr__u" 32 (record { is_ok = false; fd = negsuc 0 })
    ∷ create_client "localhost:8000"
    ∷ []

thrown : construct no_region 8 4 "localhost:8000" d2d [] ≡ ok (none, abandoned)
unfolding construct connect attach hand_over is_server_healthy to_string
thrown = refl

held_after : held registered ≡ registration "7gr__u" ∷ mapping 4096 32 ∷ region_name "/7gr__u" ∷ []
unfolding held release
held_after = refl

reader_starts : add_reader 4 (record a_buffer { write_index = 5 }) ≡ (
  record { itemsize = 4; read_index = 5 },
  record a_buffer { write_index = 5; readers = record { itemsize = 4; read_index = 5 } ∷ [] },
)
unfolding add_reader
reader_starts = refl

adjusted :
    input_blocked_callback (record { itemsize = 4; read_index = 6 }) a_buffer 1 2 true
    ≡ (true, true)
unfolding input_blocked_callback
adjusted = refl

pub up :
    is_server_healthy (record { is_server_live = says true; is_server_ready = says true }) ≡ ok true
unfolding is_server_healthy
up = refl

down :
    is_server_healthy (record { is_server_live = says true; is_server_ready = says false })
    ≡ ok false
unfolding is_server_healthy
down = refl

construct-descriptors_example : descriptors (held abandoned) ≡ descriptors (held [])
construct-descriptors_example =
    construct-descriptors no_region 8 4 "localhost:8000" d2d [] none abandoned thrown

construct-destroy_example :
    (end : Calls) × (destroy (host true (some 4096) true) a_buffer registered ≡ ok end)
    × (held end ≡ held [])
construct-destroy_example =
    construct-destroy (host true (some 4096) true) 8 4 "localhost:8000" d2d [] a_buffer registered
      (λ cs path size e. refl) ((λ h a size. refl), (λ h path. refl), (λ h key. refl)) up
      constructed

construct-unhealthy_example :
    (b : BufferTriton) × (cs' : Calls) × (construct
        (host false (some 4096) true)
        8
        4
        "localhost:8000"
        d2d
        []
      ≡ ok (some b, cs'))
    × (held cs' ≡ held [])
    × (destroy (host false (some 4096) true) b [] ≡ fault uninitialised)
construct-unhealthy_example =
    construct-unhealthy (host false (some 4096) true) 8 4 "localhost:8000" d2d [] [] refl down

construct-refused_example :
    (key : String) × (addr : Option ℕ) × (cs' : Calls) × (construct
        (host true (some 4096) false)
        8
        4
        "localhost:8000"
        d2d
        []
      ≡ ok (none, cs'))
    × (held cs' ≡ map_held addr 32 (region_name (slashed key) ∷ held []))
construct-refused_example =
    construct-refused (host true (some 4096) false) 8 4 "localhost:8000" d2d []
      (refl, up, (λ h path size. refl)) (λ cs path size e. refl) (λ h key path size. refl)
