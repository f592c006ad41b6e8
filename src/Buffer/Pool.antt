-- ===== src/Buffer/Pool.antt =====
-- The buffers of a process, constructed and destroyed in any order: the constructor and the
-- destructor of blocklib/torchdsp/lib/buffer_triton.cc as steps.
use gr4_torchdsp.Prelude.{
  ℕ, ◌+◌, ◌≤◌, ◌≡◌, refl, sym, ap, ◌∙◌, Bool, true, false, String, List, [], ◌∷◌, ◌++◌, Option,
  none, some, arith,
}
use gr4_torchdsp.Outcome.{ok, ok-injective}
use gr4_torchdsp.Buffer.Health.{is_server_healthy}
use gr4_torchdsp.Buffer.Calls.{
  Host, Calls, create_client, unregister_memory, unlink_region, unmap_memory,
}
use gr4_torchdsp.Buffer.Lifetime.{BufferType, BufferTriton, construct, destroy, slashed, released}
use gr4_torchdsp.Buffer.Ledger.{
  Resource, region_name, mapping, registration, held, map_held, unmap_held, release,
}
use gr4_torchdsp.Buffer.Released.{Holding, Releases, held-released}
use gr4_torchdsp.Buffer.Bag.{count, count-release_le, release_all}

pub record Pool : Type 0 where
  pub live : List BufferTriton
  pub calls : Calls

-- A construction that succeeds over a healthy server; one that throws since no client could be
-- created; and the destruction of any of the buffers.
pub data Step (host : Host) (p : Pool) : Pool → Type 0 where
  constructs :
      {p' : Pool} (num_items item_size : ℕ) (url : String) (type : BufferType) (b : BufferTriton)
      (cs' : Calls)
      → is_server_healthy (host.server_of (create_client url ∷ p.calls)) ≡ ok true
      → construct host num_items item_size url type p.calls ≡ ok (some b, cs')
      → p' ≡ record { live = b ∷ p.live; calls = cs' }
      → Step host p p'
  throws :
      {p' : Pool} (num_items item_size : ℕ) (url : String) (type : BufferType) (cs' : Calls)
      → host.create_client_of p.calls url ≡ false
      → construct host num_items item_size url type p.calls ≡ ok (none, cs')
      → p' ≡ record p { calls = cs' }
      → Step host p p'
  destroys :
      {p' : Pool} (front back : List BufferTriton) (b : BufferTriton) (cs' : Calls)
      → p.live ≡ front ++ b ∷ back
      → destroy host b p.calls ≡ ok cs'
      → p' ≡ record { live = front ++ back; calls = cs' }
      → Step host p p'

pub data Runs (host : Host) (start : Pool) : Pool → Type 0 where
  here : Runs host start start
  next : {p p' : Pool} → Runs host start p → Step host p p' → Runs host start p'

owned_at : Option (Option ℕ) → Option ℕ → String → List Resource
owned_at (some addr) (some size) key =
    registration key ∷ region_name (slashed key) ∷ map_held addr size []
owned_at (some addr) none key = []
owned_at none size key = []

-- What a buffer has of the server and of the system.
unfoldable pub owned : BufferTriton → List Resource
unfolding owned_at
owned b = owned_at b.shared_memory b.buffer_size b.shm_key

unfoldable pub owned_all : List BufferTriton → List Resource
unfolding owned
owned_all [] = []
owned_all (b ∷ bs) = owned b ++ owned_all bs

abbrev pub IsWritten : BufferTriton → Type 0
IsWritten b =
    (addr : Option ℕ) × (size : ℕ) × (b.shared_memory ≡ some addr) × (b.buffer_size ≡ some size)

pub Holding-count :
    (b : BufferTriton) (size : ℕ) (cs cs' : Calls)
    → Holding b size cs cs'
    → (r : Resource) → count r (held cs') ≡ count r (owned b) + count r (held cs)
unfolding owned
Holding-count b size cs cs' (none, mapped, sized, holds) r = rw (mapped, sized, holds) (omega arith)
Holding-count b size cs cs' (some a, mapped, sized, holds) r =
    rw (mapped, sized, holds) (omega arith)

release_owned :
    (addr : Option ℕ) (size : ℕ) (key : String) (rs : List Resource)
    → release (registration key) (release (region_name (slashed key)) (unmap_held addr size rs))
      ≡ release_all (owned_at (some addr) (some size) key) rs
unfolding owned_at release_all
release_owned none size key rs = refl
release_owned (some a) size key rs = refl

pub destroy-held :
    (host : Host) (b : BufferTriton) (cs cs' : Calls)
    → Releases host
    → IsWritten b
    → destroy host b cs ≡ ok cs'
    → held cs' ≡ release_all (owned b) (held cs)
unfolding destroy owned
destroy-held host b cs cs' releases (addr, size, mapped, sized) done =
    let calls : ok (released host b.shm_key addr size cs) ≡ ok cs' = rw (mapped, sized) at done in
    ap held (sym (ok-injective calls))
    ∙ held-released host b.shm_key addr size cs releases
    ∙ rw (mapped, sized) (release_owned addr size b.shm_key (held cs))

unmap_memory-le :
    (r : Resource) (addr : Option ℕ) (size : ℕ) (done : Bool) (cs : Calls)
    → count r (held cs)
      ≤ count r (map_held addr size []) + count r (held (unmap_memory addr size done ∷ cs))
unfolding held
unmap_memory-le r none size true cs = omega arith
unmap_memory-le r none size false cs = omega arith
unmap_memory-le r (some a) size true cs =
    omega (arith, count-release_le r (mapping a size) (held cs))
unmap_memory-le r (some a) size false cs = omega arith

unlink_region-le :
    (r : Resource) (path : String) (done : Bool) (cs : Calls)
    → count r (held cs)
      ≤ count r (region_name path ∷ []) + count r (held (unlink_region path done ∷ cs))
unfolding held
unlink_region-le r path true cs = omega (arith, count-release_le r (region_name path) (held cs))
unlink_region-le r path false cs = omega arith

unregister_memory-le :
    (r : Resource) (key : String) (done : Bool) (cs : Calls)
    → count r (held cs)
      ≤ count r (registration key ∷ []) + count r (held (unregister_memory key done ∷ cs))
unfolding held
unregister_memory-le r key true cs = omega (arith, count-release_le r (registration key) (held cs))
unregister_memory-le r key false cs = omega arith

-- Whatever the destructor's calls come to, they give back no more than the buffer has.
pub destroy-held_le :
    (host : Host) (b : BufferTriton) (cs cs' : Calls)
    → IsWritten b
    → destroy host b cs ≡ ok cs'
    → (r : Resource) → count r (held cs) ≤ count r (owned b) + count r (held cs')
unfolding destroy owned
destroy-held_le host b cs cs' (addr, size, mapped, sized) done r =
    let calls : ok (released host b.shm_key addr size cs) ≡ ok cs' = rw (mapped, sized) at done in
    let unmapped = unmap_memory addr size (host.unmap_memory_of cs addr size) ∷ cs in
    let path = slashed b.shm_key in
    let unlinked = unlink_region path (host.unlink_region_of unmapped path) ∷ unmapped in
    rw (mapped, sized)
      (omega (
        arith,
        ap (λ k. count r (held k)) (ok-injective calls),
        unmap_memory-le r addr size (host.unmap_memory_of cs addr size) cs,
        unlink_region-le r path (host.unlink_region_of unmapped path) unmapped,
        unregister_memory-le r b.shm_key (host.unregister_memory_of unlinked b.shm_key) unlinked,
      ))

pub destroy-returns :
    (host : Host) (b : BufferTriton) (cs : Calls)
    → IsWritten b
    → (cs' : Calls) × (destroy host b cs ≡ ok cs')
unfolding destroy
destroy-returns host b cs (addr, size, mapped, sized) =
    (released host b.shm_key addr size cs, rw (mapped, sized) refl)
