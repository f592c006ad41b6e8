-- ===== src/Buffer/Faults.antt =====
-- Where the constructor of buffer_triton, lines 36 to 77 of blocklib/torchdsp/lib/buffer_triton.cc,
-- leaves something behind or returns a buffer that cannot be used.
use gr4_torchdsp.Prelude.{
  ℕ, ◌*◌, ◌%◌, ◌≡◌, refl, ap, ◌∙◌, Bool, true, false, String, ◌∷◌, Option, none, some,
}
use gr4_torchdsp.Prelude.Int.{ℤ, size_mod}
use gr4_torchdsp.Outcome.{ok, fault, uninitialised}
use gr4_torchdsp.Buffer.Health.{is_server_healthy}
use gr4_torchdsp.Buffer.Calls.{
  Host, Calls, create_client, create_region, map_memory, close_memory, register_memory,
}
use gr4_torchdsp.Buffer.Lifetime.{
  BufferType, BufferTriton, attach, connect, construct, destroy, slashed, hand_over, detached,
  new_key,
}
use gr4_torchdsp.Buffer.Ledger.{region_name, held, map_held}
use gr4_torchdsp.Buffer.Balance.{held-closed}
use gr4_torchdsp.Buffer.Released.{RegionOpens}

construct-attach :
    (host : Host) (num_items item_size : ℕ) (url : String) (type : BufferType) (cs : Calls)
    → host.create_client_of cs url ≡ true
    → is_server_healthy (host.server_of (create_client url ∷ cs)) ≡ ok true
    → construct host num_items item_size url type cs
      ≡ ok (attach host num_items item_size type (create_client url ∷ cs))
unfolding construct connect
construct-attach host num_items item_size url type cs created up = rw (created, up) refl

hand_over-refused :
    (is_ok accepted : Bool) (b : BufferTriton) (closed registered : Calls)
    → is_ok ≡ true
    → accepted ≡ false
    → (hand_over is_ok accepted b closed registered) ≡ (none, registered)
unfolding hand_over
hand_over-refused is_ok accepted b closed registered e f = rw (e, f) refl

hand_over-accepted :
    (is_ok accepted : Bool) (b : BufferTriton) (closed registered : Calls)
    → is_ok ≡ true
    → accepted ≡ true
    → (hand_over is_ok accepted b closed registered) ≡ (some b, registered)
unfolding hand_over
hand_over-accepted is_ok accepted b closed registered e f = rw (e, f) refl

held-refused :
    (key path : String) (size : ℕ) (accepted : Bool) (cs : Calls)
    → accepted ≡ false
    → held (register_memory key path size accepted ∷ cs) ≡ held cs
unfolding held
held-refused key path size accepted cs e = rw e refl

-- If the client can be created and the server answers that it is not healthy, the constructor returns
-- a buffer all the same, without memory and with nothing held, and the destructor of that buffer
-- reads members that nothing has written.
pub construct-unhealthy :
    (host : Host) (num_items item_size : ℕ) (url : String) (type : BufferType) (cs end : Calls)
    → host.create_client_of cs url ≡ true
    → is_server_healthy (host.server_of (create_client url ∷ cs)) ≡ ok false
    → (b : BufferTriton) × (cs' : Calls) × (construct host num_items item_size url type cs
        ≡ ok (some b, cs'))
      × (held cs' ≡ held cs)
      × (destroy host b end ≡ fault uninitialised)
unfolding construct destroy connect held
construct-unhealthy host num_items item_size url type cs end created down =
    (detached type, create_client url ∷ cs, rw (created, down) refl, refl, refl)

module _ (host : Host) (num_items item_size : ℕ) (url : String) (type : BufferType)
    (cs : Calls) where
  abbrev Ready : Type 0
  Ready =
      (host.create_client_of cs url ≡ true)
      × (is_server_healthy (host.server_of (create_client url ∷ cs)) ≡ ok true)
      × ((h : Calls) (path : String) (size : ℕ) → (host.create_region_of h path size).is_ok ≡ true)

  -- With a host whose client is created, whose server is healthy and whose regions are all made, each
  -- with a descriptor, a server that refuses every registration makes the constructor throw, and the
  -- name of the region and its mapping, if there is one, are left behind.
  pub construct-refused :
      Ready
      → RegionOpens host
      → ((h : Calls) (key path : String) (size : ℕ)
          → host.register_memory_of h key path size ≡ false)
      → (key : String) × (addr : Option ℕ) × (cs' : Calls) × (construct host num_items item_size url
            type cs
          ≡ ok (none, cs'))
        × (held cs'
            ≡ map_held addr
                ((num_items * item_size) % size_mod)
                (region_name (slashed key) ∷ held cs))
  unfolding attach held
  construct-refused ready opens refused =
      let c1 = create_client url ∷ cs in
      let key = new_key host c1 in
      let size = (num_items * item_size) % size_mod in
      let region = host.create_region_of c1 (slashed key) size in
      let made = create_region (slashed key) size region ∷ c1 in
      let addr = host.map_memory_of made region.fd size in
      let closed = close_memory region.fd ∷ map_memory region.fd 0 size addr ∷ made in
      let accepted = host.register_memory_of closed key (slashed key) size in
      let refusal = refused closed key (slashed key) size in
      let q = hand_over-refused region.is_ok accepted _ closed _ (ready.2 c1 _ _) refusal in
      (
        key,
        addr,
        _,
        construct-attach host num_items item_size url type cs ready.0 ready.1 ∙ ap ok q,
        held-refused key (slashed key) size accepted closed refusal
            ∙ held-closed (slashed key) size region addr c1 (opens c1 _ _ (ready.2 c1 _ _)),
      )

  -- With a host whose client is created, whose server is healthy and accepts every registration, and
  -- whose regions are all made, a mapping that fails goes unnoticed: the constructor returns a buffer
  -- whose memory, as the base class is told, is `MAP_FAILED`.
  pub construct-unmapped :
      Ready
      → ((h : Calls) (key path : String) (size : ℕ)
          → host.register_memory_of h key path size ≡ true)
      → ((h : Calls) (fd : ℤ) (size : ℕ) → host.map_memory_of h fd size ≡ none)
      → (b : BufferTriton) × (cs' : Calls) × (construct host num_items item_size url type cs
          ≡ ok (some b, cs'))
        × (b.bufp ≡ some none)
  unfolding attach
  construct-unmapped ready accepted failed =
      let c1 = create_client url ∷ cs in
      let q = hand_over-accepted _ _ _ _ _ (ready.2 c1 _ _) (accepted _ _ _ _) in
      (
        _,
        _,
        construct-attach host num_items item_size url type cs ready.0 ready.1 ∙ ap ok q,
        ap some (failed _ _ _),
      )
