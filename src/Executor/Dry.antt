-- ===== src/Executor/Dry.antt =====
-- Iterations that stop at the checks of the first block's inputs: lines 36 to 78 of
-- schedulers/triton/lib/graph_executor.cc.
use gr4_torchdsp.Prelude.{
  ℕ, ◌<◌, ltb, ◌≡◌, refl, Bool, true, false, List, [], ◌∷◌, Option, none, some, ◌⊎◌, arith, inl,
  inr, if_ind, last?-cons, Any, Bool-cases,
}
use gr4_torchdsp.Prelude.Int.{pos, ltb_ℤ, to_int}
use gr4_torchdsp.Outcome.{ok}
use gr4_torchdsp.Runtime.{Runtime, History, Event, Input, blkd_in, read_info, get_tags}
use gr4_torchdsp.Trace.{Extends, Extends-refl, Extends-one, Extends-trans, Extends-cons}
use gr4_torchdsp.Executor.Ports.{check_input, check_inputs}
use gr4_torchdsp.Executor.Work.{Exec, set_wio}
use gr4_torchdsp.Executor.Iteration.{run_one_iteration, input_stage}
use gr4_torchdsp.Executor.Blocked.{check_input_calls}

-- The buffer is behind one of these inputs.
abbrev pub IsBehind : List Input → ℕ → Type 0
IsBehind ws b = Any (λ w. w.bufp ≡ some b) ws

-- A question to the buffer behind one of these inputs.
abbrev pub QueryBehind : List Input → Event → Type 0
QueryBehind ws (read_info b) = IsBehind ws b
QueryBehind ws (get_tags b n) = IsBehind ws b
QueryBehind ws _ = ⊥

module _ (rt : Runtime) (all : List Input) where
  abbrev Asks : History → History → Type 0
  Asks = Extends (QueryBehind all)

  check_input-behind :
      (w : Input) (h : History) (o : Option ℕ)
      → w.bufp ≡ o
      → ((b : ℕ) → w.bufp ≡ some b → IsBehind all b)
      → Asks h (check_input rt w h).2
  unfolding check_input
  check_input-behind w h none e behind = rw (e, check_input) (Extends-refl (QueryBehind all) h)
  check_input-behind w h (some b) e behind =
      let asked = Extends-one (QueryBehind all) (read_info b) h (behind b e) in
      elim (check_input_calls rt w h b e) [
        | inl p ↦ rw p asked
        | inr p ↦ rw p (Extends-cons (QueryBehind all) (get_tags b _) h _ (behind b e) asked)
      ]

  check_inputs-behind :
      (ws : List Input) (h : History)
      → ((b : ℕ) → IsBehind ws b → IsBehind all b)
      → Asks h (check_inputs rt ws h).2
  unfolding check_inputs
  check_inputs-behind [] h behind = Extends-refl (QueryBehind all) h
  check_inputs-behind (w ∷ ws) h behind =
      let first = check_input-behind w h w.bufp refl (λ b e. behind b (inl e)) in
      if_ind (λ (r : Bool × List Input × History). Asks h r.2) (check_input rt w h).0
        (let (rs, ws', k) = check_inputs rt ws (check_input rt w h).2 in
          (rs, (check_input rt w h).1 ∷ ws', k))
        (false, (check_input rt w h).1 ∷ ws, (check_input rt w h).2)
        (Extends-trans (QueryBehind all) h (check_input rt w h).2 _ first
          (check_inputs-behind ws (check_input rt w h).2 (λ b i. behind b (inr i))))
        first

-- An input whose buffer, whenever it is asked, is not valid, has no item, or has fewer items than the
-- least that may be read of it, where that is set.
abbrev pub IsDry : Runtime → Input → Type 0
IsDry rt w =
    (b : ℕ) × (w.bufp ≡ some b)
    × ((h : History)
        → ((rt.read_info_of h b).valid ≡ false)
          ⊎ ((ltb_ℤ (rt.read_info_of h b).n_items (pos 1) ≡ true)
              ⊎ ((0 < rt.min_buffer_read b)
                  × (ltb_ℤ (rt.read_info_of h b).n_items (to_int (rt.min_buffer_read b)) ≡ true))))

check_input-dry :
    (rt : Runtime) (w : Input) (h : History) → IsDry rt w → (check_input rt w h).0 ≡ false
unfolding check_input
check_input-dry rt w h (b, e, dry) = elim (dry h) [
  | inl invalid ↦ rw (e, invalid) refl
  | inr (inl no_item) ↦ ground arith
  | inr (inr (limited, few)) ↦
      let set : ltb 0 (rt.min_buffer_read b) ≡ true = ground arith in ground arith
]

check_inputs-dry :
    (rt : Runtime) (ws : List Input) (h : History)
    → Any (IsDry rt) ws
    → (check_inputs rt ws h).0 ≡ false
unfolding check_inputs
check_inputs-dry rt [] h dry = absurd dry
check_inputs-dry rt (w ∷ ws) h (inl dry) = rw (check_input-dry rt w h dry) refl
check_inputs-dry rt (w ∷ ws) h (inr later) = elim (Bool-cases (check_input rt w h).0) [
  | inl go ↦ rw go (check_inputs-dry rt ws (check_input rt w h).2 later)
  | inr stop ↦ rw stop refl
]

input_stage-blocked :
    (fuel : ℕ) (rt : Runtime) (blocks : List ℕ) (first last : ℕ) (e : Exec)
    → (check_inputs rt (e.wio first).inputs e.history).0 ≡ false
    → (e' : Exec) × (input_stage fuel rt blocks first last e ≡ ok (blkd_in, e'))
      × Extends (QueryBehind (e.wio first).inputs) e.history e'.history
      × ((b : ℕ) → (b ≡ first) ⊎ (e'.wio b ≡ e.wio b))
unfolding input_stage
input_stage-blocked fuel rt blocks first last e r =
    let (t, ins, h) = check_inputs rt (e.wio first).inputs e.history in
    let e' =
      set_wio first (record { inputs = ins; outputs = (e.wio first).outputs })
        (record e { history = h }) in
    (
      e',
      rw r,
      check_inputs-behind rt (e.wio first).inputs (e.wio first).inputs e.history (λ b i. i),
      λ b. ground arith,
    )

-- An iteration returns BLKD_IN, whatever the fuel, if one of the first block's inputs has a buffer
-- that, whenever it is asked, is not valid, has no item, or has fewer than the least that may be read
-- of it, where that is set. The iteration only asks the buffers behind
-- that block's inputs: it calls no block's work, posts nothing, notifies nobody, calls no
-- `input_blocked_callback`, and leaves the `work_io` of every other block as it was.
pub run_one_iteration-dry :
    (fuel : ℕ) (rt : Runtime) (d_blocks : List ℕ) (first : ℕ) (rest : List ℕ) (e : Exec)
    → Any (IsDry rt) (e.wio first).inputs
    → (e' : Exec) × (run_one_iteration fuel rt d_blocks (first ∷ rest) e ≡ ok (blkd_in, e'))
      × Extends (QueryBehind (e.wio first).inputs) e.history e'.history
      × ((b : ℕ) → (b ≡ first) ⊎ (e'.wio b ≡ e.wio b))
unfolding run_one_iteration
run_one_iteration-dry fuel rt d_blocks first rest e dry =
    let (last, l) = last?-cons first rest in
    rw l (
      input_stage-blocked fuel rt (first ∷ rest) first last e
        (check_inputs-dry rt (e.wio first).inputs e.history dry))
