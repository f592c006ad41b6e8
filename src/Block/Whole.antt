-- ===== src/Block/Whole.antt =====
-- Whole batches: the grants of schedulers/triton/lib/graph_executor.cc, lines 81 to 166, and the
-- division of the granted items into batches, blocklib/torchdsp/triton_block/triton_block_triton.cc,
-- lines 29 to 57.
use native.Mathlib.Nat.{mod-add-div'}
use gr4_torchdsp.Prelude.{
  ℕ, zero, suc, ◌*◌, ◌/◌, ◌%◌, ◌<◌, ◌≡◌, refl, sym, ap, subst, ◌∙◌, true, List, [], ◌∷◌, Option,
  some, get_elem?, All, arith, eqb_refl, Bool, inl, inr, ◌==◌,
}
use gr4_torchdsp.Prelude.Int.{pos, to_size, to_unsigned}
use gr4_torchdsp.Outcome.{
  ok, at, deref, >>=-eq-ok, ok-injective, Holds, Holds->>=, Holds-seq, Holds-ok,
}
use gr4_torchdsp.Runtime.{Runtime, History, Output, WorkIo}
use gr4_torchdsp.Executor.Ports.{check_outputs}
use gr4_torchdsp.Executor.Outputs.{WriteGranted, WriteGrantedAt, check_outputs-granted}
use gr4_torchdsp.Executor.Work.{Exec, set_wio, assign_inputs, assign_outputs, prepare}
use gr4_torchdsp.Model.Configure.{Model, InferInput}
use gr4_torchdsp.Model.Infer.{
  BufferView, set_batch, prepare_inputs, prepare_outputs, infer_batch_zerocopy, read_async,
}
use gr4_torchdsp.Model.Interface.{triton_model_impl}
use gr4_torchdsp.Executor.Checked.{in_bufps, out_bufps}
use gr4_torchdsp.Block.Serving.{Serves, IsPlugged, work-Serves}
use gr4_torchdsp.Block.Lifetime.{Lifetime, Lifetime-Serves}
use gr4_torchdsp.Block.Multiple.{Lifetime-IsMultiple}
use gr4_torchdsp.Block.Work.{
  TritonBlock, Surroundings, BlockWork, triton_block_triton, items_per_batch, work, in_bufs,
  out_bufs, div_size,
}

set_wio_self : (b : ℕ) (io : WorkIo) (e : Exec) → (set_wio b io e).wio b ≡ io
set_wio_self b io e = rw (eqb_refl b) refl

-- What `prepare` grants the last block at its first output.
prepare-first_output :
    (first last : ℕ) (e e' : Exec) (out : Output) (outs : List Output)
    → (e.wio last).outputs ≡ out ∷ outs
    → prepare first last last e ≡ ok e'
    → (o : Output) × (rest : List Output) × ((e'.wio last).outputs ≡ o ∷ rest)
      × (o.n_items ≡ out.n_items)
unfolding prepare assign_outputs
prepare-first_output first last e e' out outs has q =
    let (ins, _, q1) =
      >>=-eq-ok (assign_inputs (get_elem? (e.wio first).inputs 0) (e.wio last).inputs) _ q in
    let io : WorkIo = record { inputs = ins; outputs = (e.wio last).outputs } in
    let f = set_wio last io e in
    let kept : (f.wio last).outputs ≡ out ∷ outs =
      ap (λ x. x.outputs) (set_wio_self last io e) ∙ has in
    let (os, given, q2) =
      >>=-eq-ok (assign_outputs (get_elem? (f.wio last).outputs 0) (f.wio last).outputs) _ q1 in
    let given_out : assign_outputs (some out) (out ∷ outs) ≡ ok os = rw kept at given in
    let (rest, _, ends) = >>=-eq-ok (assign_outputs (some out) outs) _ given_out in
    (
      record out { n_produced = 0 },
      rest,
      ap (λ x. (x.wio last).outputs) (sym (ok-injective q2))
          ∙ ap (λ x. x.outputs) (set_wio_self last (record { inputs = ins; outputs = os }) f)
          ∙ sym (ok-injective ends),
      refl,
    )

-- The input is asked for `count` batches.
abbrev pub IsFor : ℕ → InferInput → Type 0
IsFor count i = get_elem? i.shape 0 ≡ some count

set_batch-first :
    (count : ℕ) (shape : List ℕ) → Holds (λ s. get_elem? s 0 ≡ some count) (set_batch count shape)
unfolding set_batch
set_batch-first count [] = tt
set_batch-first count (d ∷ ds) = refl

prepare_inputs-IsFor :
    (count : ℕ) (ps : List InferInput) (idx : ℕ) (bufs : List (Option BufferView))
    → Holds (All (IsFor count)) (prepare_inputs count ps idx bufs)
unfolding prepare_inputs
prepare_inputs-IsFor count [] idx bufs = tt
prepare_inputs-IsFor count (p ∷ ps) idx bufs =
    Holds-seq (λ s. get_elem? s 0 ≡ some count) _ (set_batch count p.shape) _
      (set_batch-first count p.shape)
      (λ shape batched. Holds->>= _ (at (get_elem? bufs idx)) _ (λ b. Holds->>= _ (deref b) _ (λ v.
        Holds-seq (All (IsFor count)) _ (prepare_inputs count ps (suc idx) bufs) _
          (prepare_inputs-IsFor count ps (suc idx) bufs) (λ rest all. (batched, all)))))

infer-IsFor :
    (o : Model) (ins outs : List (Option BufferView)) (count : ℕ) (accepted : Bool)
    → Holds (λ r. All (IsFor count) r.1.inputs) (infer_batch_zerocopy o ins outs count accepted)
unfolding infer_batch_zerocopy
infer-IsFor o ins outs count accepted =
    Holds-seq (All (IsFor count)) _ (prepare_inputs count o.input_ptrs 0 ins) _
      (prepare_inputs-IsFor count o.input_ptrs 0 ins)
      (λ is all. Holds->>= _ (prepare_outputs o.output_ptrs 0 outs) _ (λ os.
        Holds->>= _ (read_async o.async) _
          (λ async. Holds->>= _ (deref o.client) _ (λ client. all))))

work-IsFor :
    (env : Surroundings) (b : TritonBlock Model) (io : WorkIo) (out : Output) (outs : List Output)
    (per count : ℕ)
    → io.outputs ≡ out ∷ outs
    → items_per_batch b.model ≡ ok (pos per)
    → 0 < per
    → out.n_items / per ≡ count
    → Holds (λ w. All (IsFor count) w.request.inputs) (work env b io)
unfolding work to_size div_size
work-IsFor env b io out outs per count has batch positive divided =
    let nonzero : (per == 0) ≡ Bool.false = ground arith in
    rw (has, batch, nonzero)
      (rw divided (
        Holds->>= _ (at (get_elem? io.inputs 0)) _ (λ in1.
          Holds->>= _ (at (get_elem? io.inputs 1)) _ (λ in2.
            Holds-seq (λ r. All (IsFor count) r.1.inputs) _
              (infer_batch_zerocopy b.model (in_bufs env io.inputs) (out_bufs env (out ∷ outs))
                count env.accepted)
              _
              (infer-IsFor b.model (in_bufs env io.inputs) (out_bufs env (out ∷ outs)) count
                env.accepted)
              (λ r all. all)))))

multiple-count : (n per : ℕ) → 0 < n → n % per ≡ 0 → (n ≡ (n / per) * per) × (0 < n / per)
multiple-count n per some_items whole =
    let exact : n ≡ (n / per) * per = omega (arith, mod-add-div' n per, whole) in
    (exact, positive (n / per) exact)
  where
    positive : (count : ℕ) → n ≡ count * per → 0 < count
    positive zero e = absurd (omega arith)
    positive (suc count) e = omega arith

pos-injective : (a b : ℕ) → pos a ≡ pos b → a ≡ b
pos-injective a b e = ground arith

-- No item is left over. If the checks of the last block's outputs let an iteration go on, with a
-- buffer behind the first of them, and the block is a Triton block that was constructed over `m` and
-- has served calls since, whose output multiple is the one that the runtime has for it, then its
-- work on what `prepare` grants it returns, and every input of its request is asked for exactly the
-- batches that the granted items make up: a whole number above zero of the items of a batch. The
-- block must be able to serve calls at its ports, which are plugged.
pub work-whole :
    (rt : Runtime) (first last : ℕ) (ws : List Output) (h h' : History) (out : Output)
    (outs : List Output) (k : ℕ) (e e' : Exec) (env : Surroundings) (ins bufs : List (Option ℕ))
    (m : Model) (start b : TritonBlock Model)
    → check_outputs rt last ws h ≡ ok (true, out ∷ outs, h')
    → out.bufp ≡ some k
    → rt.output_multiple_set last ≡ true
    → start.output_multiple ≡ pos (to_unsigned (rt.output_multiple last))
    → triton_block_triton (some m) ≡ ok start
    → Serves ins bufs start
    → IsPlugged ins bufs
    → Lifetime ins bufs start b
    → (e.wio last).outputs ≡ out ∷ outs
    → prepare first last last e ≡ ok e'
    → (in_bufps (e'.wio last).inputs ≡ ins) × (out_bufps (e'.wio last).outputs ≡ bufs)
    → (w : BlockWork Model) × (count : ℕ) × (work env b (e'.wio last) ≡ ok w)
      × (out.n_items ≡ count * to_unsigned (rt.output_multiple last))
      × (0 < count)
      × All (IsFor count) w.request.inputs
work-whole rt first last ws h h' out outs k e e' env ins bufs m start b checked buffer is_set
      multiple made serves plugged life has prepared fits =
    let per = to_unsigned (rt.output_multiple last) in
    let granted : WriteGranted rt last h h' k out.n_items =
      subst (λ o. WriteGrantedAt rt last h h' o out.n_items) buffer
        (check_outputs-granted rt last ws (out ∷ outs) h h' checked).0 in
    let whole : out.n_items % per ≡ 0 = elim granted.8 [
      | inl unset ↦ absurd (cc)
      | inr divides ↦ divides
    ] in
    let (exact, some_batches) = multiple-count out.n_items per granted.4 whole in
    let (batch, kept) = Lifetime-IsMultiple m ins bufs start b made life in
    let per_batch : items_per_batch b.model ≡ ok (pos per) =
      batch ∙ ap (λ z. ok z) (kept ∙ multiple) in
    let serving = Lifetime-Serves ins bufs serves plugged life in
    let same : serving.per ≡ per =
      pos-injective serving.per per (ok-injective (sym serving.per_batch ∙ per_batch)) in
    let (o, rest, outputs, items) = prepare-first_output first last e e' out outs has prepared in
    let (w, _, worked, _, _, _, _) =
      work-Serves env b (e'.wio last) ins bufs fits serving plugged in
    (
      w,
      out.n_items / per,
      worked,
      exact,
      some_batches,
      Holds-ok (λ x. All (IsFor (out.n_items / per)) x.request.inputs) worked
          (work-IsFor env b (e'.wio last) o rest per (out.n_items / per) outputs per_batch
            (omega (arith, serving.positive, same)) (ap (λ n. n / per) items)),
    )
