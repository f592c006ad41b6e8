-- ===== src/Buffer/Balance.antt =====
-- What buffer_triton of blocklib/torchdsp/lib/buffer_triton.cc takes, gives back and leaves behind.
use gr4_torchdsp.Prelude.{
  ℕ, ◌≡◌, refl, sym, ap, ◌∙◌, Bool, true, false, String, List, ◌∷◌, Option, none, some, inl, inr,
  Bool-cases,
}
use gr4_torchdsp.Prelude.Int.{ℤ}
use gr4_torchdsp.Outcome.{Outcome, ok, fault, ok-snd}
use gr4_torchdsp.Buffer.Calls.{
  Host, Calls, RegionReply, create_client, create_region, map_memory, close_memory, register_memory,
}
use gr4_torchdsp.Buffer.Lifetime.{BufferType, BufferTriton, attach, hand_over, connect, construct}
use gr4_torchdsp.Buffer.Ledger.{
  Resource, descriptor, region_name, held, map_held, release, descriptors, is_open, same_refl,
}

pub held-closed :
    (path : String) (size : ℕ) (r : RegionReply) (addr : Option ℕ) (cs : Calls)
    → is_open r.fd ≡ true
    → held (close_memory r.fd ∷ map_memory r.fd 0 size addr ∷ create_region path size r ∷ cs)
      ≡ map_held addr size (region_name path ∷ held cs)
unfolding held release
held-closed path size r none cs e = rw e (rw (same_refl (descriptor r.fd)) refl)
held-closed path size r (some a) cs e = rw e (rw (same_refl (descriptor r.fd)) refl)

held-unopened :
    (path : String) (size : ℕ) (r : RegionReply) (addr : Option ℕ) (cs : Calls)
    → is_open r.fd ≡ false
    → held (close_memory r.fd ∷ map_memory r.fd 0 size addr ∷ create_region path size r ∷ cs)
      ≡ map_held addr size (held cs)
unfolding held release
held-unopened path size r addr cs e = rw e refl

descriptors-map_held :
    (addr : Option ℕ) (size : ℕ) (rs : List Resource)
    → descriptors (map_held addr size rs) ≡ descriptors rs
descriptors-map_held none size rs = refl
descriptors-map_held (some a) size rs = refl

descriptors-closed :
    (path : String) (size : ℕ) (r : RegionReply) (addr : Option ℕ) (cs : Calls)
    → descriptors
        (held (close_memory r.fd ∷ map_memory r.fd 0 size addr ∷ create_region path size r ∷ cs))
      ≡ descriptors (held cs)
descriptors-closed path size r addr cs = elim (Bool-cases (is_open r.fd)) [
  | inl e ↦
      ap descriptors (held-closed path size r addr cs e)
      ∙ descriptors-map_held addr size (region_name path ∷ held cs)
  | inr e ↦
      ap descriptors (held-unopened path size r addr cs e)
      ∙ descriptors-map_held addr size (held cs)
]

descriptors-registered :
    (key path : String) (size : ℕ) (accepted : Bool) (cs : Calls)
    → descriptors (held (register_memory key path size accepted ∷ cs)) ≡ descriptors (held cs)
unfolding held
descriptors-registered key path size true cs = refl
descriptors-registered key path size false cs = refl

hand_over-descriptors :
    (is_ok accepted : Bool) (b : BufferTriton) (closed registered : Calls) (fds : List ℤ)
    → descriptors (held closed) ≡ fds
    → descriptors (held registered) ≡ descriptors (held closed)
    → descriptors (held (hand_over is_ok accepted b closed registered).1) ≡ fds
unfolding hand_over
hand_over-descriptors false accepted b closed registered fds e f = e
hand_over-descriptors true false b closed registered fds e f = f ∙ e
hand_over-descriptors true true b closed registered fds e f = f ∙ e

attach-descriptors :
    (host : Host) (num_items item_size : ℕ) (type : BufferType) (cs : Calls)
    → descriptors (held (attach host num_items item_size type cs).1) ≡ descriptors (held cs)
unfolding attach
attach-descriptors host num_items item_size type cs =
    hand_over-descriptors _ _ _ _ _ (descriptors (held cs)) (descriptors-closed _ _ _ _ cs)
      (descriptors-registered _ _ _ _ _)

-- The constructor without a fault: refused, with no healthy server, or to the end.
connect-descriptors :
    (created : Bool) (health : Outcome Bool) (host : Host) (num_items item_size : ℕ)
    → (type : BufferType) (cs : Calls) (made : Option BufferTriton) (cs' : Calls)
    → connect created health host num_items item_size type cs ≡ ok (made, cs')
    → descriptors (held cs') ≡ descriptors (held cs)
unfolding connect
connect-descriptors false health host num_items item_size type cs made cs' e =
    ap (λ x. descriptors (held x)) (sym (ok-snd e))
connect-descriptors true (ok true) host num_items item_size type cs made cs' e =
    ap (λ x. descriptors (held x)) (sym (ok-snd e))
    ∙ attach-descriptors host num_items item_size type cs
connect-descriptors true (ok false) host num_items item_size type cs made cs' e =
    ap (λ x. descriptors (held x)) (sym (ok-snd e))
connect-descriptors true (fault f) host num_items item_size type cs made cs' e = cc

-- No descriptor is lost: where the constructor returns or throws, on every branch, the process has
-- the descriptors open that it had before.
pub construct-descriptors :
    (host : Host) (num_items item_size : ℕ) (url : String) (type : BufferType) (cs : Calls)
    → (made : Option BufferTriton) (cs' : Calls)
    → construct host num_items item_size url type cs ≡ ok (made, cs')
    → descriptors (held cs') ≡ descriptors (held cs)
unfolding construct held
construct-descriptors host num_items item_size url type cs made cs' e =
    connect-descriptors _ _ host num_items item_size type (create_client url ∷ cs) made cs' e
