-- ===== src/Buffer/Released.antt =====
-- What a buffer_triton holds between its constructor and its destructor, lines 36 to 83 of
-- blocklib/torchdsp/lib/buffer_triton.cc.
use gr4_torchdsp.Prelude.{
  ℕ, ◌*◌, ◌%◌, ◌≡◌, refl, sym, ap, subst, ◌∙◌, inl, inr, Bool-cases, Bool, true, false, String,
  List, ◌∷◌, Option, none, some, arith,
}
use gr4_torchdsp.Prelude.Int.{size_mod}
use gr4_torchdsp.Outcome.{Outcome, ok, fault, ok-fst, ok-snd}
use gr4_torchdsp.Buffer.Health.{is_server_healthy}
use gr4_torchdsp.Buffer.Calls.{
  Host, Calls, RegionReply, create_client, create_region, map_memory, close_memory, register_memory,
}
use gr4_torchdsp.Buffer.Lifetime.{
  BufferType, BufferTriton, attach, attached, hand_over, connect, construct, destroy, slashed,
  released,
}
use gr4_torchdsp.Buffer.Ledger.{
  Resource, region_name, mapping, registration, held, map_held, unmap_held, release, is_open,
  same_refl,
}
use gr4_torchdsp.Buffer.Balance.{held-closed}

-- A region that was made has a descriptor.
abbrev pub RegionOpens : Host → Type 0
RegionOpens host =
    (cs : Calls) (path : String) (size : ℕ)
    → (host.create_region_of cs path size).is_ok ≡ true
    → is_open (host.create_region_of cs path size).fd ≡ true

-- The buffer has a registration, a mapping if it succeeded, and a name, and nothing else is new.
abbrev pub Holding : BufferTriton → ℕ → Calls → Calls → Type 0
Holding b size cs cs' =
    (addr : Option ℕ) × (b.shared_memory ≡ some addr)
    × (b.buffer_size ≡ some size)
    × (held cs'
        ≡ registration b.shm_key ∷ map_held addr size (region_name (slashed b.shm_key) ∷ held cs))

hand_over-some :
    (is_ok accepted : Bool) (b0 : BufferTriton) (closed registered : Calls) (b : BufferTriton)
    → (hand_over is_ok accepted b0 closed registered).0 ≡ some b
    → (is_ok ≡ true)
      × (accepted ≡ true)
      × (b0 ≡ b)
      × ((hand_over is_ok accepted b0 closed registered).1 ≡ registered)
unfolding hand_over
hand_over-some false accepted b0 closed registered b e = ground arith
hand_over-some true false b0 closed registered b e = ground arith
hand_over-some true true b0 closed registered b e = (refl, refl, cc, refl)

-- The calls of a constructor that goes to its end.
abbrev all_calls : String → ℕ → RegionReply → Option ℕ → Bool → Calls → Calls
all_calls key size region addr accepted cs =
    register_memory key (slashed key) size accepted
    ∷ close_memory region.fd
    ∷ map_memory region.fd 0 size addr
    ∷ create_region (slashed key) size region
    ∷ cs

held-all_calls :
    (key : String) (size : ℕ) (region : RegionReply) (addr : Option ℕ) (accepted : Bool)
    (cs : Calls)
    → is_open region.fd ≡ true
    → accepted ≡ true
    → held (all_calls key size region addr accepted cs)
      ≡ registration key ∷ map_held addr size (region_name (slashed key) ∷ held cs)
unfolding held
held-all_calls key size region addr accepted cs opened taken =
    rw taken (ap (◌∷◌ (registration key)) (held-closed (slashed key) size region addr cs opened))

all_calls-Holding :
    (type : BufferType) (key : String) (size : ℕ) (region : RegionReply) (addr : Option ℕ)
    → (accepted : Bool) (cs end : Calls) (b : BufferTriton) → is_open region.fd ≡ true
    → accepted ≡ true
    → attached type addr size key ≡ b
    → end ≡ all_calls key size region addr accepted cs
    → Holding b size cs end
all_calls-Holding type key size region addr accepted cs end b opened taken same last = (
  addr,
  ap (λ x. x.shared_memory) (sym same),
  ap (λ x. x.buffer_size) (sym same),
  rw (last, held-all_calls key size region addr accepted cs opened taken)
      (ap
        (λ x.
          registration x.shm_key ∷ map_held addr size (region_name (slashed x.shm_key) ∷ held cs))
        same),
)

attach-Holding :
    (host : Host) (num_items item_size : ℕ) (type : BufferType) (cs : Calls) (b : BufferTriton)
    → RegionOpens host
    → (attach host num_items item_size type cs).0 ≡ some b
    → Holding b ((num_items * item_size) % size_mod) cs (attach host num_items item_size type cs).1
unfolding attach
attach-Holding host num_items item_size type cs b opens e =
    let (is_ok, accepted, same, end) = hand_over-some _ _ _ _ _ b e in
    all_calls-Holding type _ _ _ _ _ cs _ b (opens cs _ _ is_ok) accepted same end

connect-Holding :
    (created : Bool) (health : Outcome Bool) (host : Host) (num_items item_size : ℕ)
    → (type : BufferType) (cs : Calls) (b : BufferTriton) (cs' : Calls) → RegionOpens host
    → health ≡ ok true
    → connect created health host num_items item_size type cs ≡ ok (some b, cs')
    → Holding b ((num_items * item_size) % size_mod) cs cs'
unfolding connect
connect-Holding false health host num_items item_size type cs b cs' opens up e =
    let q : none ≡ some b = ok-fst e in ground arith
connect-Holding true (ok true) host num_items item_size type cs b cs' opens up e =
    subst (Holding b ((num_items * item_size) % size_mod) cs) (ok-snd e)
      (attach-Holding host num_items item_size type cs b opens (ok-fst e))
connect-Holding true (ok false) host num_items item_size type cs b cs' opens up e = cc
connect-Holding true (fault f) host num_items item_size type cs b cs' opens up e = cc

-- With a healthy server, and a host that gives each region that it makes a descriptor, a buffer
-- that the constructor returns is registered at the server under its key, has the region's name
-- with a slash before it, and has the mapping, if the mapping succeeded: its size is the product of
-- the arguments modulo 2^64. Nothing else is held that was not held before, no descriptor either.
pub construct-Holding :
    (host : Host) (num_items item_size : ℕ) (url : String) (type : BufferType) (cs : Calls)
    → (b : BufferTriton) (cs' : Calls) → RegionOpens host
    → is_server_healthy (host.server_of (create_client url ∷ cs)) ≡ ok true
    → construct host num_items item_size url type cs ≡ ok (some b, cs')
    → Holding b ((num_items * item_size) % size_mod) cs cs'
unfolding construct held
construct-Holding host num_items item_size url type cs b cs' opens up e =
    connect-Holding _ _ host num_items item_size type (create_client url ∷ cs) b cs' opens up e

-- The system unmaps what was mapped and takes away a region's name, and the server a registration,
-- whenever they are asked to.
abbrev pub Releases : Host → Type 0
Releases host =
    ((h : Calls) (a size : ℕ) → host.unmap_memory_of h (some a) size ≡ true)
    × ((h : Calls) (path : String) → host.unlink_region_of h path ≡ true)
    × ((h : Calls) (key : String) → host.unregister_memory_of h key ≡ true)

-- What is held once the destructor's calls were answered so.
pub held-released :
    (host : Host) (key : String) (addr : Option ℕ) (size : ℕ) (cs : Calls)
    → Releases host
    → held (released host key addr size cs)
      ≡ release
          (registration key)
          (release (region_name (slashed key)) (unmap_held addr size (held cs)))
unfolding held
held-released host key none size cs r = elim (Bool-cases (host.unmap_memory_of cs none size)) [
  | inl done ↦ rw (r.1, r.2) (rw done refl)
  | inr left ↦ rw (r.1, r.2) (rw left refl)
]
held-released host key (some a) size cs r = rw (r.0, r.1, r.2) refl

release-all :
    (key : String) (size : ℕ) (addr : Option ℕ) (rs : List Resource)
    → release (registration key) (
        release (region_name (slashed key)) (
          unmap_held addr size
            (registration key ∷ map_held addr size (region_name (slashed key) ∷ rs))))
      ≡ rs
unfolding release
release-all key size none rs =
    rw (same_refl (region_name (slashed key))) (rw (same_refl (registration key)) refl)
release-all key size (some a) rs =
    rw (same_refl (mapping a size))
      (rw (same_refl (region_name (slashed key))) (rw (same_refl (registration key)) refl))

-- Constructing and destroying a buffer gives back all that was taken: with a healthy server, a
-- host that gives each region that it makes a descriptor, and a system and a server that do what the
-- destructor asks of them, whose answers it drops, the destructor of a buffer that the
-- constructor returned meets no fault, and the process holds what it held before the constructor.
pub construct-destroy :
    (host : Host) (num_items item_size : ℕ) (url : String) (type : BufferType) (cs : Calls)
    → (b : BufferTriton) (cs' : Calls) → RegionOpens host
    → Releases host
    → is_server_healthy (host.server_of (create_client url ∷ cs)) ≡ ok true
    → construct host num_items item_size url type cs ≡ ok (some b, cs')
    → (end : Calls) × (destroy host b cs' ≡ ok end) × (held end ≡ held cs)
unfolding destroy held
construct-destroy host num_items item_size url type cs b cs' opens releases up e =
    let (addr, mapped, sized, holds) =
      construct-Holding host num_items item_size url type cs b cs' opens up e in
    (
      released host b.shm_key addr ((num_items * item_size) % size_mod) cs',
      rw (mapped, sized) refl,
      held-released host b.shm_key addr _ cs' releases
          ∙ rw holds (release-all b.shm_key _ addr (held cs)),
    )
