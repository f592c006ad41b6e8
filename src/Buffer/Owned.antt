-- ===== src/Buffer/Owned.antt =====
-- What the buffers of a process have, over any run of constructions and destructions:
-- blocklib/torchdsp/lib/buffer_triton.cc, lines 36 to 83.
use mathlib.Core.Quot
use gr4_torchdsp.Prelude.{
  ℕ, ◌+◌, ◌<◌, ◌≤◌, ◌≡◌, refl, sym, ap, subst, ◌∙◌, true, false, String, List, [], ◌∷◌, ◌++◌, none,
  some, All, arith,
}
use gr4_torchdsp.Outcome.{ok, ok-injective}
use gr4_torchdsp.Buffer.Health.{is_server_healthy}
use gr4_torchdsp.Buffer.Calls.{Host, Calls, create_client}
use gr4_torchdsp.Buffer.Lifetime.{BufferType, BufferTriton, construct, connect, destroy}
use gr4_torchdsp.Buffer.Ledger.{Resource, registration, held, same_refl}
use gr4_torchdsp.Buffer.Released.{RegionOpens, Releases, construct-Holding}
use gr4_torchdsp.Buffer.Bag.{count, SameResources, bag, count-append, count-release_all}
use gr4_torchdsp.Buffer.Pool.{
  Pool, Step, Runs, here, next, constructs, throws, destroys, owned, owned_all, IsWritten,
  Holding-count, destroy-held, destroy-held_le, destroy-returns,
}

owned_all-middle :
    (r : Resource) (front : List BufferTriton) (b : BufferTriton) (back : List BufferTriton)
    → count r (owned_all (front ++ b ∷ back))
      ≡ count r (owned b) + count r (owned_all (front ++ back))
unfolding owned_all
owned_all-middle r [] b back = count-append r (owned b) (owned_all back)
owned_all-middle r (f ∷ front) b back = omega (
  arith,
  count-append r (owned f) (owned_all (front ++ b ∷ back)),
  count-append r (owned f) (owned_all (front ++ back)),
  owned_all-middle r front b back,
)

All-middle :
    (P : BufferTriton → Type 0) (front : List BufferTriton) (b : BufferTriton)
    (back : List BufferTriton)
    → All P (front ++ b ∷ back)
    → P b × All P (front ++ back)
All-middle P [] b back a = a
All-middle P (f ∷ front) b back a =
    let rest = All-middle P front b back a.1 in (rest.0, (a.0, rest.1))

-- The process holds at least what its buffers have, and what it held before, and no more if all
-- that was asked for was released, whatever the order; and every buffer's members were written, so
-- that it can be destroyed.
record Owns (host : Host) (before : List Resource) (p : Pool) : Type 0 where
  pub at_least :
      (r : Resource) → count r (owned_all p.live) + count r before ≤ count r (held p.calls)
  pub balance : Releases host → SameResources (held p.calls) (owned_all p.live ++ before)
  pub all_written : All IsWritten p.live

module _ (host : Host) (opens : RegionOpens host) (before : List Resource) where
  construct-Owns :
      (num_items item_size : ℕ) (url : String) (type : BufferType) (p : Pool) (b : BufferTriton)
      (cs' : Calls)
      → is_server_healthy (host.server_of (create_client url ∷ p.calls)) ≡ ok true
      → construct host num_items item_size url type p.calls ≡ ok (some b, cs')
      → Owns host before p
      → Owns host before (record { live = b ∷ p.live; calls = cs' })
  unfolding owned_all
  construct-Owns num_items item_size url type p b cs' up e o =
      let holding = construct-Holding host num_items item_size url type p.calls b cs' opens up e in
      record {
        at_least = λ r. omega (
          arith,
          Holding-count b _ p.calls cs' holding r,
          o.at_least r,
          count-append r (owned b) (owned_all p.live),
        );
        balance = λ releases r. omega (
          arith,
          Holding-count b _ p.calls cs' holding r,
          o.balance releases r,
          count-append r (owned_all p.live) before,
          count-append r (owned b ++ owned_all p.live) before,
          count-append r (owned b) (owned_all p.live),
        );
        all_written = ((holding.0, _, holding.1, holding.2), o.all_written);
      }

  throw-Owns :
      (num_items item_size : ℕ) (url : String) (type : BufferType) (p : Pool) (cs' : Calls)
      → host.create_client_of p.calls url ≡ false
      → construct host num_items item_size url type p.calls ≡ ok (none, cs')
      → Owns host before p
      → Owns host before (record p { calls = cs' })
  unfolding construct connect held
  throw-Owns num_items item_size url type p cs' refused e o =
      let last : ok (none, create_client url ∷ p.calls) ≡ ok (none, cs') = rw refused at e in
      let same : create_client url ∷ p.calls ≡ cs' = ap (λ x. x.1) (ok-injective last) in
      record {
        at_least = λ r. omega (arith, o.at_least r, ap (λ cs. count r (held cs)) same);
        balance = λ releases r. ap (λ cs. count r (held cs)) (sym same) ∙ o.balance releases r;
        all_written = o.all_written;
      }

  destroy-Owns :
      (front : List BufferTriton) (b : BufferTriton) (back : List BufferTriton) (p : Pool)
      (cs' : Calls)
      → p.live ≡ front ++ b ∷ back
      → destroy host b p.calls ≡ ok cs'
      → Owns host before p
      → Owns host before (record { live = front ++ back; calls = cs' })
  destroy-Owns front b back p cs' there done o =
      let (written, others) =
        All-middle IsWritten front b back (subst (All IsWritten) there o.all_written) in
      let total : Releases host
          → (r : Resource)
          → count r (held p.calls)
            ≡ count r (owned b) + count r (owned_all (front ++ back)) + count r before =
        λ releases r. omega (
          arith,
          o.balance releases r,
          ap (λ bs. count r (owned_all bs)) there,
          count-append r (owned_all p.live) before,
          owned_all-middle r front b back,
        ) in
      record {
        at_least = λ r. omega (
          arith,
          o.at_least r,
          ap (λ bs. count r (owned_all bs)) there,
          owned_all-middle r front b back,
          destroy-held_le host b p.calls cs' written done r,
        );
        balance = λ releases r. omega (
          arith,
          total releases r,
          ap (count r) (destroy-held host b p.calls cs' releases written done),
          count-release_all (owned b) (held p.calls) (λ q. omega (arith, total releases q)) r,
          count-append r (owned_all (front ++ back)) before,
        );
        all_written = others;
      }

  Step-Owns : {p p' : Pool} → Step host p p' → Owns host before p → Owns host before p'
  Step-Owns {p} (constructs n k url type b cs' up e same) o =
      subst (Owns host before) (sym same) (construct-Owns n k url type p b cs' up e o)
  Step-Owns {p} (throws n k url type cs' refused e same) o =
      subst (Owns host before) (sym same) (throw-Owns n k url type p cs' refused e o)
  Step-Owns {p} (destroys front back b cs' there done same) o =
      subst (Owns host before) (sym same) (destroy-Owns front b back p cs' there done o)

  Runs-Owns : {start p : Pool} → Runs host start p → Owns host before start → Owns host before p
  Runs-Owns here o = o
  Runs-Owns (next run step) o = Step-Owns step (Runs-Owns run o)

-- The server knows a region under the key.
abbrev pub IsRegistered : Calls → String → Type 0
IsRegistered cs key = 0 < count (registration key) (held cs)

owned-registration : (b : BufferTriton) → IsWritten b → 0 < count (registration b.shm_key) (owned b)
unfolding owned
owned-registration b (addr, size, mapped, sized) =
    rw (mapped, sized) (rw (same_refl (registration b.shm_key)) (omega arith))

abbrev pub without_buffers : Calls → Pool
without_buffers cs = record { live = []; calls = cs }

-- The destructor returns.
abbrev pub IsDestructible : Host → Calls → BufferTriton → Type 0
IsDestructible host cs b = (cs' : Calls) × (destroy host b cs ≡ ok cs')

All-IsDestructible :
    (host : Host) (cs : Calls) (bs : List BufferTriton)
    → All IsWritten bs
    → All (IsDestructible host cs) bs
All-IsDestructible host cs [] a = tt
All-IsDestructible host cs (b ∷ bs) a =
    (destroy-returns host b cs a.0, All-IsDestructible host cs bs a.1)

module _ (host : Host) (opens : RegionOpens host) (cs : Calls) (p : Pool)
    (run : Runs host (without_buffers cs) p) where
  run-Owns : Owns host (held cs) p
  unfolding owned_all
  run-Owns =
      Runs-Owns host opens (held cs) run
        (record { at_least = λ r. omega arith; balance = λ releases r. refl; all_written = tt })

  -- Buffers may be constructed and destroyed in any order: up to their order, the process holds the
  -- resources of the buffers that are left, and those that it held before the first of them. Every
  -- buffer that is left can be destroyed without a fault. This is so if the servers are healthy, the
  -- host gives each region that it makes a descriptor, the constructor throws only where no client
  -- can be created, and the system and the servers do what the destructors ask of them.
  pub Runs-owned :
      Releases host
      → (bag (held p.calls) ≡ bag (owned_all p.live ++ held cs))
        × All (IsDestructible host p.calls) p.live
  Runs-owned releases = (
    Quot.sound (run-Owns.balance releases),
    All-IsDestructible host p.calls p.live run-Owns.all_written,
  )

  -- A buffer that is left is registered at the server under its key, whatever was released.
  pub live-IsRegistered :
      (front : List BufferTriton) (b : BufferTriton) (back : List BufferTriton)
      → p.live ≡ front ++ b ∷ back
      → IsRegistered p.calls b.shm_key
  live-IsRegistered front b back there =
      let key = registration b.shm_key in
      let (written, _) =
        All-middle IsWritten front b back (subst (All IsWritten) there run-Owns.all_written) in
      omega (
        arith,
        run-Owns.at_least key,
        ap (λ bs. count key (owned_all bs)) there,
        owned_all-middle key front b back,
        owned-registration b written,
      )
