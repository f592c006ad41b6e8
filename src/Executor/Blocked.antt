-- ===== src/Executor/Blocked.antt =====
-- What the checks of the first block's inputs ask: lines 36 to 78 of
-- schedulers/triton/lib/graph_executor.cc.
use gr4_torchdsp.Prelude.{
  ℕ, ◌≡◌, refl, Bool, false, List, [], ◌∷◌, Option, none, some, ◌⊎◌, arith, inl, inr, if_ind,
}
use gr4_torchdsp.Runtime.{Runtime, History, Event, Input, read_info, get_tags}
use gr4_torchdsp.Trace.{Extends, Extends-refl, Extends-one, Extends-trans, Extends-cons}
use gr4_torchdsp.Executor.Ports.{check_input, check_inputs, cap_read}

-- A question to an input's buffer.
abbrev pub InputQuery : Event → Type 0
InputQuery (read_info b) = Unit
InputQuery (get_tags b n) = Unit
InputQuery _ = ⊥

pub check_input_calls :
    (rt : Runtime) (w : Input) (h : History) (b : ℕ)
    → w.bufp ≡ some b
    → ((check_input rt w h).2 ≡ read_info b ∷ h)
      ⊎ ((check_input rt w h).2
          ≡ get_tags b (cap_read (rt.read_info_of h b).n_items (rt.max_buffer_read b))
            ∷ read_info b
            ∷ h)
unfolding check_input
check_input_calls rt w h b e = ground arith

pub check_input-queries :
    (rt : Runtime) (w : Input) (h : History) (o : Option ℕ)
    → w.bufp ≡ o
    → Extends InputQuery h (check_input rt w h).2
unfolding check_input
check_input-queries rt w h none e = rw (e, check_input) (Extends-refl InputQuery h)
check_input-queries rt w h (some b) e = elim (check_input_calls rt w h b e) [
  | inl p ↦ rw p asked
  | inr p ↦ rw p (Extends-cons InputQuery (get_tags b _) h _ tt asked)
]
  where
    asked : Extends InputQuery h (read_info b ∷ h)
    asked = Extends-one InputQuery (read_info b) h tt

pub check_inputs-queries :
    (rt : Runtime) (ws : List Input) (h : History) → Extends InputQuery h (check_inputs rt ws h).2
unfolding check_inputs
check_inputs-queries rt [] h = Extends-refl InputQuery h
check_inputs-queries rt (w ∷ ws) h =
    let first = check_input-queries rt w h w.bufp refl in
    if_ind (λ (r : Bool × List Input × History). Extends InputQuery h r.2) (check_input rt w h).0
      (let (rs, ws', k) = check_inputs rt ws (check_input rt w h).2 in
        (rs, (check_input rt w h).1 ∷ ws', k))
      (false, (check_input rt w h).1 ∷ ws, (check_input rt w h).2)
      (Extends-trans InputQuery h (check_input rt w h).2 _ first
        (check_inputs-queries rt ws (check_input rt w h).2))
      first
