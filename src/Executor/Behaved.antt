-- ===== src/Executor/Behaved.antt =====
-- Blocks as the scheduler wants them, and ports and buffers in place.
use gr4_torchdsp.Prelude.{
  ℕ, ◌<◌, ◌≡◌, ◌≢◌, refl, sym, ap, subst, ◌∙◌, true, false, List, [], ◌∷◌, Option, none, arith, inl,
  inr, ◌==◌, All, Bool-cases,
}
use gr4_torchdsp.Prelude.Int.{to_unsigned}
use gr4_torchdsp.Runtime.{Runtime, History, Input, Output, WorkIo, WorkReturn, work_ok, work_done}
use gr4_torchdsp.Executor.Checked.{HasBuffer, in_bufps, out_bufps}
use gr4_torchdsp.Executor.Work.{Exec, is_empty, set_wio}

-- OK or DONE.
abbrev pub Finishes : WorkReturn → Type 0
Finishes work_ok = Unit
Finishes work_done = Unit
Finishes _ = ⊥

-- The buffers behind the inputs and the outputs of each block: the wiring of a flowgraph, which
-- stays as it is while the flowgraph runs.
abbrev pub Wires : Type 0
Wires = ℕ → List (Option ℕ) × List (Option ℕ)

-- A block's `work_io` has the ports that the wiring says.
abbrev pub Fits : Wires → ℕ → WorkIo → Type 0
Fits wires b io = (in_bufps io.inputs ≡ (wires b).0) × (out_bufps io.outputs ≡ (wires b).1)

abbrev pub IsWired : Wires → Exec → Type 0
IsWired wires e = (b : ℕ) → Fits wires b (e.wio b)

abbrev pub IsThere : Option ℕ → Type 0
IsThere o = o ≢ none

-- What the scheduler's header asks of the blocks: at the ports of the wiring, work finishes at once
-- and leaves the ports in place. The last block is asynchronous and its requests call back. The first
-- block has an input, the last one an output, and every output has a buffer.
pub record WellBehaved (wires : Wires) (rt : Runtime) (first last : ℕ) : Type 0 where
  pub finishes :
      (h : History) (b : ℕ) (io : WorkIo) → Fits wires b io → Finishes (rt.do_work_of h b io).ret
  pub async : rt.is_async last ≡ true
  pub calls_back :
      (h : History) (io : WorkIo) → Fits wires last io → (rt.do_work_of h last io).calls_back ≡ true
  pub keeps :
      (h : History) (b : ℕ) (io : WorkIo)
      → Fits wires b io
      → Fits wires b (rt.do_work_of h b io).wio
  pub divides : rt.output_multiple_set last ≡ true → 0 < to_unsigned (rt.output_multiple last)
  pub has_input : is_empty (wires first).0 ≡ false
  pub has_output : is_empty (wires last).1 ≡ false
  pub has_buffers : (b : ℕ) → All IsThere (wires b).1

-- The first block has an input and the last one an output.
abbrev pub HasPorts : ℕ → ℕ → Exec → Type 0
HasPorts first last e =
    (is_empty (e.wio first).inputs ≡ false) × (is_empty (e.wio last).outputs ≡ false)

-- Every output of every block has a buffer.
abbrev pub HasBuffers : Exec → Type 0
HasBuffers e = (b : ℕ) → All HasBuffer (e.wio b).outputs

pub set_wio-HasBuffers :
    (b : ℕ) (io : WorkIo) (e : Exec)
    → HasBuffers e
    → All HasBuffer io.outputs
    → HasBuffers (set_wio b io e)
set_wio-HasBuffers b io e h new k = elim (Bool-cases (k == b)) [
  | inl same ↦ rw same new
  | inr other ↦ rw other (h k)
]

pub in_bufps-is_empty : (ws : List Input) → is_empty (in_bufps ws) ≡ is_empty ws
in_bufps-is_empty [] = refl
in_bufps-is_empty (w ∷ ws) = refl

out_bufps-is_empty : (ws : List Output) → is_empty (out_bufps ws) ≡ is_empty ws
out_bufps-is_empty [] = refl
out_bufps-is_empty (w ∷ ws) = refl

out_bufps-HasBuffer : (ws : List Output) → All IsThere (out_bufps ws) → All HasBuffer ws
out_bufps-HasBuffer [] a = tt
out_bufps-HasBuffer (w ∷ ws) a = (a.0, out_bufps-HasBuffer ws a.1)

pub set_wio-IsWired :
    (wires : Wires) (b : ℕ) (io : WorkIo) (e : Exec)
    → Fits wires b io
    → IsWired wires e
    → IsWired wires (set_wio b io e)
set_wio-IsWired wires b io e fits wired k = elim (Bool-cases (k == b)) [
  | inl same ↦ let at : b ≡ k = ground arith in rw same (subst (λ j. Fits wires j io) at fits)
  | inr other ↦ rw other (wired k)
]

module _ (wires : Wires) (rt : Runtime) (first last : ℕ) (good : WellBehaved wires rt first last)
    (e : Exec) (wired : IsWired wires e) where
  pub IsWired-HasPorts : HasPorts first last e
  IsWired-HasPorts = (
    sym (in_bufps-is_empty (e.wio first).inputs) ∙ ap is_empty (wired first).0 ∙ good.has_input,
    sym (out_bufps-is_empty (e.wio last).outputs) ∙ ap is_empty (wired last).1 ∙ good.has_output,
  )

  pub IsWired-HasBuffers : HasBuffers e
  IsWired-HasBuffers b = out_bufps-HasBuffer (e.wio b).outputs (rw (wired b).1 (good.has_buffers b))
