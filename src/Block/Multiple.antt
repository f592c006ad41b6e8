-- ===== src/Block/Multiple.antt =====
-- The output multiple of a Triton block, over any model that keeps the law of
-- blocklib/torchdsp/include/gnuradio/torchdsp/triton_model.h that Model.Interface states: lines 19 to
-- 68 of blocklib/torchdsp/triton_block/triton_block_triton.cc.
use gr4_torchdsp.Prelude.{ℕ, ◌≡◌, refl, sym, ap, subst, ◌∙◌, List, Option, some, get_elem?}
use gr4_torchdsp.Prelude.Int.{to_size}
use gr4_torchdsp.Outcome.{ok, at, >>=-eq-ok, ok-injective}
use gr4_torchdsp.Runtime.{WorkIo}
use gr4_torchdsp.Model.Interface.{TritonModel}
use gr4_torchdsp.Block.Work.{
  TritonBlock, Surroundings, BlockWork, items_per_batch, triton_block_triton, set_async_callback,
  work, in_bufs, out_bufs, div_size,
}
use gr4_torchdsp.Block.Lifetime.{Lifetime, made, told, worked}

module _ {M : Type 0} ⦃t : TritonModel M⦄ where
  -- The output multiple is the number of items of a batch.
  abbrev pub IsMultiple : TritonBlock M → Type 0
  IsMultiple b = items_per_batch b.model ≡ ok b.output_multiple

  triton_block_triton-IsMultiple :
      (m : M) (b : TritonBlock M) → triton_block_triton (some m) ≡ ok b → IsMultiple b
  unfolding triton_block_triton
  triton_block_triton-IsMultiple m b e =
      let (n, batch, more) = >>=-eq-ok (items_per_batch m) _ e in
      let same = ok-injective more in subst IsMultiple same batch

  items_per_batch-same :
      (m m' : M)
      → (t.get_output_sizes m' ≡ t.get_output_sizes m)
        × (t.get_output_signature m' ≡ t.get_output_signature m)
      → items_per_batch m' ≡ items_per_batch m
  unfolding items_per_batch
  items_per_batch-same m m' (sizes, signature) = rw (sizes, signature) refl

  set_async_callback-IsMultiple :
      (cb : ℕ) (b : TritonBlock M) → IsMultiple b → IsMultiple (set_async_callback cb b)
  unfolding set_async_callback
  set_async_callback-IsMultiple cb b h = h

  work-IsMultiple :
      (env : Surroundings) (b : TritonBlock M) (io : WorkIo) (w : BlockWork M)
      → work env b io ≡ ok w
      → IsMultiple b
      → IsMultiple w.block × (w.block.output_multiple ≡ b.output_multiple)
  unfolding work
  work-IsMultiple env b io w e h =
      let (out, _, e1) = >>=-eq-ok (at (get_elem? io.outputs 0)) _ e in
      let (in1, _, e2) = >>=-eq-ok (at (get_elem? io.inputs 0)) _ e1 in
      let (in2, _, e3) = >>=-eq-ok (at (get_elem? io.inputs 1)) _ e2 in
      let (per, _, e4) = >>=-eq-ok (items_per_batch b.model) _ e3 in
      let (batch, _, e5) = >>=-eq-ok (div_size out.n_items (to_size per)) _ e4 in
      let ((m', q), inferred, e6) =
        >>=-eq-ok
          (t.infer_batch_zerocopy b.model (in_bufs env io.inputs) (out_bufs env io.outputs) batch
            env.accepted)
          _ e5 in
      let kept = items_per_batch-same b.model m' (
        t.infer_batch_zerocopy-sizes b.model m' (in_bufs env io.inputs) (out_bufs env io.outputs)
          batch env.accepted q inferred) in
      let last = ok-injective e6 in
      (
        subst (λ x. IsMultiple x.block) last (kept ∙ h),
        ap (λ x. x.block.output_multiple) (sym last),
      )

  Lifetime-keeps :
      (ins outs : List (Option ℕ)) {start b : TritonBlock M}
      → IsMultiple start
      → Lifetime ins outs start b
      → IsMultiple b × (b.output_multiple ≡ start.output_multiple)
  unfolding set_async_callback
  Lifetime-keeps ins outs h made = (h, refl)
  Lifetime-keeps ins outs h (told {b} life cb same) =
      let (multiple, kept) = Lifetime-keeps ins outs h life in
      (
        subst IsMultiple same (set_async_callback-IsMultiple cb b multiple),
        ap (λ x. x.output_multiple) (sym same) ∙ kept,
      )
  Lifetime-keeps ins outs h (worked {b} life env io w fits returned same) =
      let (multiple, kept) = Lifetime-keeps ins outs h life in
      let (after, left) = work-IsMultiple env b io w returned multiple in
      (subst IsMultiple same after, ap (λ x. x.output_multiple) (sym same) ∙ left ∙ kept)

  -- A block keeps the output multiple that its constructor set, the number of items of a batch, over
  -- its whole life: whatever callbacks it is given and whatever calls of its work return, if its
  -- model's inferences leave the sizes of the outputs as they are.
  pub Lifetime-IsMultiple :
      (m : M) (ins outs : List (Option ℕ)) (start b : TritonBlock M)
      → triton_block_triton (some m) ≡ ok start
      → Lifetime ins outs start b
      → IsMultiple b × (b.output_multiple ≡ start.output_multiple)
  Lifetime-IsMultiple m ins outs start b e life =
      Lifetime-keeps ins outs (triton_block_triton-IsMultiple m start e) life
