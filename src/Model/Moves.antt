-- ===== src/Model/Moves.antt =====
-- What a model does after it was used once, and after it was moved: the move constructor and the move
-- assignment of blocklib/torchdsp/lib/triton_model_impl.cc.
use gr4_torchdsp.Prelude.{
  ℕ, ◌≤◌, ◌<◌, ◌≡◌, ◌≢◌, refl, Bool, ◌&&◌, List, [], ◌∷◌, ◌++◌, map, some, length, length-append,
  All, arith,
}
use gr4_torchdsp.Outcome.{fault, out_of_range, uninitialised, null_pointer}
use gr4_torchdsp.Model.Configure.{
  Model, InferInput, InferRequestedOutput, move_construct, move_assign, moved_from,
}
use gr4_torchdsp.Model.Infer.{BufferView, infer_batch_zerocopy, read_async}
use gr4_torchdsp.Model.Requests.{
  HasShape, IsConnected, batched, served_inputs, served_outputs, requested,
  infer_batch_zerocopy-requests, infer_batch_zerocopy-short, prepare_inputs-served,
  prepare_outputs-served,
}

batched-again : (b c : ℕ) (shape : List ℕ) → batched c (batched b shape) ≡ batched c shape
batched-again b c [] = refl
batched-again b c (d ∷ ds) = refl

served_inputs-again :
    (b c : ℕ) (ps : List InferInput) (us vs : List BufferView)
    → length ps ≤ length us
    → served_inputs c (served_inputs b ps us) vs ≡ served_inputs c ps vs
served_inputs-again b c [] us vs l = refl
served_inputs-again b c (p ∷ ps) [] vs l = absurd (omega arith)
served_inputs-again b c (p ∷ ps) (u ∷ us) [] l = refl
served_inputs-again b c (p ∷ ps) (u ∷ us) (v ∷ vs) l =
    rw (batched-again b c p.shape, served_inputs-again b c ps us vs (omega arith)) refl

served_outputs-again :
    (ps : List InferRequestedOutput) (us vs : List BufferView)
    → length ps ≤ length us
    → served_outputs (served_outputs ps us) vs ≡ served_outputs ps vs
served_outputs-again [] us vs l = refl
served_outputs-again (p ∷ ps) [] vs l = absurd (omega arith)
served_outputs-again (p ∷ ps) (u ∷ us) [] l = refl
served_outputs-again (p ∷ ps) (u ∷ us) (v ∷ vs) l =
    rw (served_outputs-again ps us vs (omega arith)) refl

batched-ne-nil : (b : ℕ) (shape : List ℕ) → shape ≢ [] → batched b shape ≢ []
batched-ne-nil b [] h e = h e
batched-ne-nil b (d ∷ ds) h e = ground arith

pub served_inputs-HasShape :
    (b : ℕ) (ps : List InferInput) (us : List BufferView)
    → All HasShape ps
    → All HasShape (served_inputs b ps us)
served_inputs-HasShape b [] us a = tt
served_inputs-HasShape b (p ∷ ps) [] a = tt
served_inputs-HasShape b (p ∷ ps) (u ∷ us) a =
    (batched-ne-nil b p.shape a.0, served_inputs-HasShape b ps us a.1)

pub served_inputs-length_le :
    (b : ℕ) (ps : List InferInput) (us : List BufferView)
    → length (served_inputs b ps us) ≤ length ps
served_inputs-length_le b [] us = omega arith
served_inputs-length_le b (p ∷ ps) [] = omega arith
served_inputs-length_le b (p ∷ ps) (u ∷ us) = omega (arith, served_inputs-length_le b ps us)

pub served_outputs-length_le :
    (ps : List InferRequestedOutput) (us : List BufferView)
    → length (served_outputs ps us) ≤ length ps
served_outputs-length_le [] us = omega arith
served_outputs-length_le (p ∷ ps) [] = omega arith
served_outputs-length_le (p ∷ ps) (u ∷ us) = omega (arith, served_outputs-length_le ps us)

-- The shapes and the regions of an earlier request do not show in a later one: with a client and
-- enough buffers both times, the model asks for the same, and is left the same, as if the earlier request had not
-- been made.
pub infer_batch_zerocopy-again :
    (o : Model) (async : Bool) (ins outs ins' outs' : List BufferView) (b b' : ℕ) (accepted : Bool)
    → o.async ≡ some async
    → IsConnected o
    → All HasShape o.input_ptrs
    → (length o.input_ptrs ≤ length ins) × (length o.input_ptrs ≤ length ins')
    → (length o.output_ptrs ≤ length outs) × (length o.output_ptrs ≤ length outs')
    → infer_batch_zerocopy
        (requested o ins outs b (async && accepted)).0
        (map some ins')
        (map some outs')
        b'
        accepted
      ≡ infer_batch_zerocopy o (map some ins') (map some outs') b' accepted
infer_batch_zerocopy-again o async ins outs ins' outs' b b' accepted e k a li lo =
    let o' = (requested o ins outs b (async && accepted)).0 in
    let later = infer_batch_zerocopy-requests o ins' outs' b' accepted async e k a li.1 lo.1 in
    let after =
      infer_batch_zerocopy-requests o' ins' outs' b' accepted async e k
        (served_inputs-HasShape b o.input_ptrs ins a)
        (omega (arith, served_inputs-length_le b o.input_ptrs ins, li))
        (omega (arith, served_outputs-length_le o.output_ptrs outs, lo)) in
    let same : requested o' ins' outs' b' (async && accepted)
        ≡ requested o ins' outs' b' (async && accepted) =
      rw
        (
          served_inputs-again b b' o.input_ptrs ins ins' li.0,
          served_outputs-again o.output_ptrs outs outs' lo.0,
        )
        refl in
    rw (after, later, same) refl

All-append : (xs ys : List InferInput) → All HasShape xs → All HasShape ys → All HasShape (xs ++ ys)
All-append [] ys a b = b
All-append (x ∷ xs) ys a b = (a.0, All-append xs ys a.1 b)

-- A model with an input that another is assigned to keeps the pointers of both, so that a request
-- with a buffer for each of its inputs reads past the last buffer. This is so if each of the two had
-- as many input pointers as inputs, all with shapes that are not empty; the other may itself have been
-- made by a move.
pub move_assign-infer :
    (self other : Model) (ins : List BufferView) (outs : List BufferView) (b : ℕ) (accepted : Bool)
    → length self.input_ptrs ≡ length self.inputs
    → length other.input_ptrs ≡ length other.inputs
    → 0 < length self.inputs
    → All HasShape self.input_ptrs
    → All HasShape other.input_ptrs
    → length ins ≡ length (move_assign self other).0.inputs
    → infer_batch_zerocopy (move_assign self other).0 (map some ins) (map some outs) b accepted
      ≡ fault out_of_range
unfolding move_assign
move_assign-infer self other ins outs b accepted a a' some_input s s' l =
    infer_batch_zerocopy-short (move_assign self other).0 ins outs b accepted
      (All-append self.input_ptrs other.input_ptrs s s')
      (omega (arith, length-append self.input_ptrs other.input_ptrs, a, a', l, some_input))

-- A model made by the move constructor has no value in `async_`: a request with enough buffers, of a
-- model whose inputs all have shapes that are not empty, reads it before anything has written it.
pub move_construct-infer :
    (other : Model) (ins outs : List BufferView) (b : ℕ) (accepted : Bool)
    → All HasShape other.input_ptrs
    → length other.input_ptrs ≤ length ins
    → length other.output_ptrs ≤ length outs
    → infer_batch_zerocopy (move_construct other).0 (map some ins) (map some outs) b accepted
      ≡ fault uninitialised
unfolding move_construct infer_batch_zerocopy read_async
move_construct-infer other ins outs b accepted s li lo =
    rw
      (
        prepare_inputs-served b other.input_ptrs 0 _ ins refl li s,
        prepare_outputs-served other.output_ptrs 0 _ outs refl lo,
      )
      refl

-- A model that was moved from keeps its pointers and has no client: a request with enough buffers is
-- made through a null pointer, whatever the move was to.
pub moved_from-infer :
    (self other : Model) (async : Bool) (ins outs : List BufferView) (b : ℕ) (accepted : Bool)
    → other.async ≡ some async
    → All HasShape other.input_ptrs
    → length other.input_ptrs ≤ length ins
    → length other.output_ptrs ≤ length outs
    → (infer_batch_zerocopy (move_construct other).1 (map some ins) (map some outs) b accepted
        ≡ fault null_pointer)
      × (infer_batch_zerocopy (move_assign self other).1 (map some ins) (map some outs) b accepted
          ≡ fault null_pointer)
unfolding move_construct move_assign infer_batch_zerocopy read_async
moved_from-infer self other async ins outs b accepted e s li lo =
    let left : infer_batch_zerocopy (moved_from other) (map some ins) (map some outs) b accepted
        ≡ fault null_pointer =
      rw
        (
          prepare_inputs-served b other.input_ptrs 0 _ ins refl li s,
          prepare_outputs-served other.output_ptrs 0 _ outs refl lo,
          e,
        )
        refl in
    (left, left)
