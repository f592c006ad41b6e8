-- ===== src/Block/Regions.antt =====
-- Which regions of shared memory a Triton block's requests name: the work of
-- blocklib/torchdsp/triton_block/triton_block_triton.cc over buffers of
-- blocklib/torchdsp/lib/buffer_triton.cc.
use gr4_torchdsp.Prelude.{
  ℕ, zero, suc, ◌≡◌, refl, Bool, String, List, [], ◌∷◌, ◌++◌, Option, none, some, get_elem?, All,
  subst,
}
use gr4_torchdsp.Outcome.{ok, at, deref, Holds, Holds->>=, Holds-seq, Holds-ok}
use gr4_torchdsp.Runtime.{Input, Output, WorkIo}
use gr4_torchdsp.Model.Configure.{Model, InferInput, InferRequestedOutput, Region}
use gr4_torchdsp.Model.Infer.{
  BufferView, set_batch, prepare_inputs, prepare_outputs, infer_batch_zerocopy, read_async, Request,
}
use gr4_torchdsp.Block.Work.{
  TritonBlock, Surroundings, BlockWork, work, view, in_bufs, out_bufs, items_per_batch, div_size,
}
use gr4_torchdsp.Prelude.Int.{to_size}
use gr4_torchdsp.Executor.Checked.{in_bufps, out_bufps}
use gr4_torchdsp.Block.Serving.{Serves, IsPlugged, work-Serves}
use gr4_torchdsp.Buffer.Calls.{Host, Calls}
use gr4_torchdsp.Buffer.Lifetime.{BufferTriton}
use gr4_torchdsp.Buffer.Released.{RegionOpens}
use gr4_torchdsp.Buffer.Pool.{Pool, Runs}
use gr4_torchdsp.Buffer.Owned.{without_buffers, IsRegistered, live-IsRegistered}
use gr4_torchdsp.Model.Interface.{triton_model_impl}

-- The tensor lies in a region whose key satisfies `P`.
abbrev pub Names : (String → Type 0) → Option Region → Type 0
Names P shm = (r : Region) × (shm ≡ some r) × P r.key

abbrev pub NamesAll : (String → Type 0) → Request → Type 0
NamesAll P q = All (λ i. Names P i.shm) q.inputs × All (λ o. Names P o.shm) q.outputs

abbrev HasKey : (String → Type 0) → Option BufferView → Type 0
HasKey P none = Unit
HasKey P (some v) = P v.shm_key

module _ (P : String → Type 0) where
  get_elem?-HasKey :
      (bufs : List (Option BufferView)) (idx : ℕ)
      → All (HasKey P) bufs
      → Holds (HasKey P) (at (get_elem? bufs idx))
  get_elem?-HasKey [] idx a = tt
  get_elem?-HasKey (b ∷ bufs) zero a = a.0
  get_elem?-HasKey (b ∷ bufs) (suc idx) a = get_elem?-HasKey bufs idx a.1

  deref-HasKey : (b : Option BufferView) → HasKey P b → Holds (λ v. P v.shm_key) (deref b)
  deref-HasKey none h = tt
  deref-HasKey (some v) h = h

  prepare_inputs-Names :
      (batch_size : ℕ) (ps : List InferInput) (idx : ℕ) (bufs : List (Option BufferView))
      → All (HasKey P) bufs
      → Holds (All (λ i. Names P i.shm)) (prepare_inputs batch_size ps idx bufs)
  unfolding prepare_inputs
  prepare_inputs-Names batch_size [] idx bufs a = tt
  prepare_inputs-Names batch_size (p ∷ ps) idx bufs a =
      Holds->>= _ (set_batch batch_size p.shape) _ (λ shape.
        Holds-seq (HasKey P) _ (at (get_elem? bufs idx)) _ (get_elem?-HasKey bufs idx a) (λ b h.
          Holds-seq (λ v. P v.shm_key) _ (deref b) _ (deref-HasKey b h)
            (λ v k.
              Holds-seq (All (λ i. Names P i.shm)) _ (prepare_inputs batch_size ps (suc idx) bufs) _
                (prepare_inputs-Names batch_size ps (suc idx) bufs a)
                (λ rest named. ((_, refl, k), named)))))

  prepare_outputs-Names :
      (ps : List InferRequestedOutput) (idx : ℕ) (bufs : List (Option BufferView))
      → All (HasKey P) bufs
      → Holds (All (λ o. Names P o.shm)) (prepare_outputs ps idx bufs)
  unfolding prepare_outputs
  prepare_outputs-Names [] idx bufs a = tt
  prepare_outputs-Names (p ∷ ps) idx bufs a =
      Holds-seq (HasKey P) _ (at (get_elem? bufs idx)) _ (get_elem?-HasKey bufs idx a) (λ b h.
        Holds-seq (λ v. P v.shm_key) _ (deref b) _ (deref-HasKey b h)
          (λ v k.
            Holds-seq (All (λ o. Names P o.shm)) _ (prepare_outputs ps (suc idx) bufs) _
              (prepare_outputs-Names ps (suc idx) bufs a) (λ rest named. ((_, refl, k), named))))

  infer-Names :
      (o : Model) (ins outs : List (Option BufferView)) (batch_size : ℕ) (accepted : Bool)
      → All (HasKey P) ins
      → All (HasKey P) outs
      → Holds (λ r. NamesAll P r.1) (infer_batch_zerocopy o ins outs batch_size accepted)
  unfolding infer_batch_zerocopy
  infer-Names o ins outs batch_size accepted a c =
      Holds-seq (All (λ i. Names P i.shm)) _ (prepare_inputs batch_size o.input_ptrs 0 ins) _
        (prepare_inputs-Names batch_size o.input_ptrs 0 ins a)
        (λ is named.
          Holds-seq (All (λ o. Names P o.shm)) _ (prepare_outputs o.output_ptrs 0 outs) _
            (prepare_outputs-Names o.output_ptrs 0 outs c)
            (λ os placed.
              Holds->>= _ (read_async o.async) _
                (λ async. Holds->>= _ (deref o.client) _ (λ client. (named, placed)))))

  -- The key behind a port, if it has a buffer.
  abbrev KeyBehind : (ℕ → BufferView) → Option ℕ → Type 0
  KeyBehind f none = Unit
  KeyBehind f (some k) = P (f k).shm_key

  view-HasKey : (f : ℕ → BufferView) (o : Option ℕ) → KeyBehind f o → HasKey P (view f o)
  view-HasKey f none h = tt
  view-HasKey f (some k) h = h

  in_bufs-HasKey :
      (env : Surroundings) (ws : List Input)
      → All (KeyBehind env.reader_view) (in_bufps ws)
      → All (HasKey P) (in_bufs env ws)
  in_bufs-HasKey env [] a = tt
  in_bufs-HasKey env (w ∷ ws) a =
      (view-HasKey env.reader_view w.bufp a.0, in_bufs-HasKey env ws a.1)

  out_bufs-HasKey :
      (env : Surroundings) (ws : List Output)
      → All (KeyBehind env.buffer_view) (out_bufps ws)
      → All (HasKey P) (out_bufs env ws)
  out_bufs-HasKey env [] a = tt
  out_bufs-HasKey env (w ∷ ws) a =
      (view-HasKey env.buffer_view w.bufp a.0, out_bufs-HasKey env ws a.1)

  work-Names :
      (env : Surroundings) (b : TritonBlock Model) (io : WorkIo)
      → All (KeyBehind env.reader_view) (in_bufps io.inputs)
      → All (KeyBehind env.buffer_view) (out_bufps io.outputs)
      → Holds (λ w. NamesAll P w.request) (work env b io)
  unfolding work
  work-Names env b io a c = Holds->>= _ (at (get_elem? io.outputs 0)) _ (λ out.
      Holds->>= _ (at (get_elem? io.inputs 0)) _ (λ in1.
        Holds->>= _ (at (get_elem? io.inputs 1)) _ (λ in2.
          Holds->>= _ (items_per_batch b.model) _ (λ per_batch.
            Holds->>= _ (div_size out.n_items (to_size per_batch)) _ (λ batch_size.
              Holds-seq (λ r. NamesAll P r.1) _
                (infer_batch_zerocopy b.model (in_bufs env io.inputs) (out_bufs env io.outputs)
                  batch_size env.accepted)
                _
                (infer-Names b.model (in_bufs env io.inputs) (out_bufs env io.outputs) batch_size
                  env.accepted (in_bufs-HasKey env io.inputs a) (out_bufs-HasKey env io.outputs c))
                (λ r named. named))))))

-- The port's buffer is one of those that are left.
abbrev pub IsLive : Pool → (ℕ → BufferView) → Option ℕ → Type 0
IsLive p f none = Unit
IsLive p f (some k) =
    (front : List BufferTriton) × (b : BufferTriton) × (back : List BufferTriton) × (p.live
      ≡ front ++ b ∷ back)
    × (b.shm_key ≡ (f k).shm_key)

module _ (host : Host) (opens : RegionOpens host) (cs : Calls) (p : Pool)
    (run : Runs host (without_buffers cs) p) where
  All-IsLive :
      (f : ℕ → BufferView) (os : List (Option ℕ))
      → All (IsLive p f) os
      → All (KeyBehind (IsRegistered p.calls) f) os
  All-IsLive f [] a = tt
  All-IsLive f (none ∷ os) a = (tt, All-IsLive f os a.1)
  All-IsLive f (some k ∷ os) ((front, b, back, there, same), a) = (
    subst (IsRegistered p.calls) same (live-IsRegistered host opens cs p run front b back there),
    All-IsLive f os a,
  )

  -- Whatever buffers were constructed and destroyed before, the work of a Triton block over buffers
  -- that are left returns, and its request names for every tensor a region that is registered at the
  -- server: under the conditions of the buffers' constructions, and if the block serves calls at its
  -- ports, which all have buffers, at least two of them inputs and one an output.
  pub work-IsRegistered :
      (env : Surroundings) (b : TritonBlock Model) (io : WorkIo) (ins outs : List (Option ℕ))
      → (in_bufps io.inputs ≡ ins) × (out_bufps io.outputs ≡ outs)
      → Serves ins outs b
      → IsPlugged ins outs
      → All (IsLive p env.reader_view) ins
      → All (IsLive p env.buffer_view) outs
      → (w : BlockWork Model) × (work env b io ≡ ok w) × NamesAll (IsRegistered p.calls) w.request
  work-IsRegistered env b io ins outs fits serves plugged ins_live outs_live =
      let (w, n, worked, _, _, _, _) = work-Serves env b io ins outs fits serves plugged in
      let behind = All-IsLive env.reader_view ins ins_live in
      let around = All-IsLive env.buffer_view outs outs_live in
      (
        w,
        worked,
        Holds-ok (λ x. NamesAll (IsRegistered p.calls) x.request) worked
            (work-Names (IsRegistered p.calls) env b io (rw fits.0 behind) (rw fits.1 around)),
      )
