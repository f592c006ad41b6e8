-- ===== src/Executor/Checked.antt =====
-- The checks of the ports return, and keep the ports and their buffers.
use gr4_torchdsp.Prelude.{
  ℕ, ◌<◌, ◌≡◌, refl, Bool, true, false, List, [], ◌∷◌, Option, none, some, arith, ◌≢◌, inl, inr,
  All,
}
use gr4_torchdsp.Prelude.Int.{to_unsigned, to_size}
use gr4_torchdsp.Outcome.{Fault, Outcome-cases, ok, fault}
use gr4_torchdsp.Runtime.{Runtime, History, Input, Output}
use gr4_torchdsp.Executor.Ports.{
  check_input, check_inputs, check_output, check_outputs, fit_multiple, cap_write,
}
use gr4_torchdsp.Executor.Work.{is_empty}

abbrev pub HasBuffer : Output → Type 0
HasBuffer w = w.bufp ≢ none

-- The buffers behind a block's ports.
abbrev pub in_bufps : List Input → List (Option ℕ)
in_bufps [] = []
in_bufps (w ∷ ws) = w.bufp ∷ in_bufps ws

abbrev pub out_bufps : List Output → List (Option ℕ)
out_bufps [] = []
out_bufps (w ∷ ws) = w.bufp ∷ out_bufps ws

check_input-bufp :
    (rt : Runtime) (w : Input) (h : History) (o : Option ℕ)
    → w.bufp ≡ o
    → (check_input rt w h).1.bufp ≡ w.bufp
unfolding check_input
check_input-bufp rt w h o e = ground arith

pub check_inputs-bufps :
    (rt : Runtime) (ws : List Input) (h : History) → in_bufps (check_inputs rt ws h).1 ≡ in_bufps ws
unfolding check_inputs
check_inputs-bufps rt [] h = refl
check_inputs-bufps rt (w ∷ ws) h =
    let rest = check_inputs-bufps rt ws (check_input rt w h).2 in
    ground (arith, check_input-bufp rt w h w.bufp refl, rest)

fit_multiple-ne-fault :
    (is_set : Bool) (multiple n : ℕ) (x : Fault)
    → (is_set ≡ true → 0 < to_unsigned multiple)
    → fit_multiple is_set multiple n ≢ fault x
unfolding fit_multiple
fit_multiple-ne-fault true multiple n x h q = let p = h refl in ground arith
fit_multiple-ne-fault false multiple n x h q = ground arith

check_output-ne-fault :
    (rt : Runtime) (last : ℕ) (w : Output) (h : History) (x : Fault) (o : Option ℕ)
    → w.bufp ≡ o
    → (rt.output_multiple_set last ≡ true → 0 < to_unsigned (rt.output_multiple last))
    → check_output rt last w h ≢ fault x
unfolding check_output
check_output-ne-fault rt last w h x none e d q = ground arith
check_output-ne-fault rt last w h x (some b) e d q =
    let n = cap_write (to_size (rt.write_info_of h b).n_items) (rt.max_buffer_fill b) in
    let fits =
      fit_multiple-ne-fault (rt.output_multiple_set last) (rt.output_multiple last) n x d in
    ground (arith, fits)

check_output-bufp :
    (rt : Runtime) (last : ℕ) (w w' : Output) (h h' : History) (r : Bool)
    → check_output rt last w h ≡ ok (r, w', h')
    → w'.bufp ≡ w.bufp
unfolding check_output
check_output-bufp rt last w w' h h' r q = ground arith

abbrev pub OutputsChecked : Runtime → ℕ → List Output → History → Type 0
OutputsChecked rt last ws h =
    (r : Bool) × (outs : List Output) × (h' : History) × (check_outputs rt last ws h
      ≡ ok (r, outs, h'))
    × (is_empty outs ≡ is_empty ws)
    × (All HasBuffer ws → All HasBuffer outs)
    × (out_bufps outs ≡ out_bufps ws)

pub check_outputs-ok :
    (rt : Runtime) (last : ℕ) (ws : List Output) (h : History)
    → (rt.output_multiple_set last ≡ true → 0 < to_unsigned (rt.output_multiple last))
    → OutputsChecked rt last ws h
unfolding check_outputs
check_outputs-ok rt last [] h d = (true, [], h, refl, refl, λ a. a, refl)
check_outputs-ok rt last (w ∷ ws) h d = elim (Outcome-cases (check_output rt last w h)) [
  | inr (x, q) ↦ absurd (check_output-ne-fault rt last w h x w.bufp refl d q)
  | inl ((true, w', h'), q) ↦
      let (rs, outs, k, run, shape, bufs, same) = check_outputs-ok rt last ws h' d in
      (
        rs,
        w' ∷ outs,
        k,
        rw (q, run),
        refl,
        λ a. (rw (check_output-bufp rt last w w' h h' true q) a.0, bufs a.1),
        rw (check_output-bufp rt last w w' h h' true q, same) refl,
      )
  | inl ((false, w', h'), q) ↦ (
    false,
    w' ∷ ws,
    h',
    rw q,
    refl,
    λ a. (rw (check_output-bufp rt last w w' h h' false q) a.0, a.1),
    rw (check_output-bufp rt last w w' h h' false q) refl,
  )
]
