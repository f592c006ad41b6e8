-- ===== src/Executor/Inputs.antt =====
-- What the checks of Executor.Ports leave in the first block's inputs.
use gr4_torchdsp.Prelude.{
  ℕ, ◌≤◌, ◌<◌, ◌≡◌, refl, sym, subst, ◌∙◌, ◌⊎◌, inl, inr, true, false, List, [], ◌∷◌, Option, none,
  some, arith, All, Any, Bool-cases,
}
use gr4_torchdsp.Prelude.Int.{ℤ, pos, negsuc, ◌≤ℤ◌, int_max, to_size, to_int-small}
use gr4_torchdsp.Runtime.{Runtime, History, Input, read_info, get_tags}
use gr4_torchdsp.Trace.{Extends, Extends-refl, Extends-one, Extends-trans}
use gr4_torchdsp.Executor.Blocked.{
  InputQuery, check_inputs-queries, check_input-queries, check_input_calls,
}
use gr4_torchdsp.Executor.Ports.{check_input, check_inputs, short_read, cap_read}

-- What one reading of the buffer allows, a reading made between the two histories.
abbrev pub ReadGranted : Runtime → History → History → ℕ → ℕ → Type 0
ReadGranted rt before after b n =
    (h : History) × Extends InputQuery before h
    × Extends InputQuery (read_info b ∷ h) after
    × ((rt.read_info_of h b).valid ≡ true)
    × (0 < n)
    × (pos n ≤ℤ (rt.read_info_of h b).n_items)
    × ((rt.max_buffer_read b ≡ 0) ⊎ (n ≤ rt.max_buffer_read b))

abbrev pub ReadGrantedAt : Runtime → History → History → Option ℕ → ℕ → Type 0
ReadGrantedAt rt before after none n = Unit
ReadGrantedAt rt before after (some b) n = ReadGranted rt before after b n

abbrev pub InputGranted : Runtime → History → History → Input → Type 0
InputGranted rt before after w = ReadGrantedAt rt before after w.bufp w.n_items

ReadGrantedAt-widen :
    (rt : Runtime) (h0 h1 k1 k0 : History) (o : Option ℕ) (n : ℕ)
    → Extends InputQuery h0 h1
    → Extends InputQuery k1 k0
    → ReadGrantedAt rt h1 k1 o n
    → ReadGrantedAt rt h0 k0 o n
ReadGrantedAt-widen rt h0 h1 k1 k0 none n below above g = tt
ReadGrantedAt-widen rt h0 h1 k1 k0 (some b) n below above (h, from, to, v, p, m, c) = (
  h,
  Extends-trans InputQuery h0 h1 h below from,
  Extends-trans InputQuery (read_info b ∷ h) k1 k0 to above,
  v,
  p,
  m,
  c,
)

InputGranted-widen :
    (rt : Runtime) (h0 h1 k : History) (ws : List Input)
    → Extends InputQuery h0 h1
    → All (InputGranted rt h1 k) ws
    → All (InputGranted rt h0 k) ws
InputGranted-widen rt h0 h1 k [] below g = tt
InputGranted-widen rt h0 h1 k (w ∷ ws) below g = (
  ReadGrantedAt-widen rt h0 h1 k k w.bufp w.n_items below (Extends-refl InputQuery k) g.0,
  InputGranted-widen rt h0 h1 k ws below g.1,
)

check_input-asks :
    (rt : Runtime) (w : Input) (h : History) (b : ℕ)
    → w.bufp ≡ some b
    → Extends InputQuery (read_info b ∷ h) (check_input rt w h).2
check_input-asks rt w h b e = elim (check_input_calls rt w h b e) [
  | inl p ↦ rw p (Extends-refl InputQuery (read_info b ∷ h))
  | inr p ↦ rw p (Extends-one InputQuery (get_tags b _) (read_info b ∷ h) tt)
]

check_input-bufp : (rt : Runtime) (w : Input) (h : History) → (check_input rt w h).1.bufp ≡ w.bufp
unfolding check_input
check_input-bufp rt w h = ground arith

cap_read_bounds :
    (n : ℤ) (min max : ℕ)
    → max ≤ int_max
    → short_read n min ≡ false
    → (0 < to_size (cap_read n max))
      × (pos (to_size (cap_read n max)) ≤ℤ n)
      × ((max ≡ 0) ⊎ (to_size (cap_read n max) ≤ max))
unfolding to_size
cap_read_bounds (pos n) min max h s = rw (to_int-small max h) (ground arith)
cap_read_bounds (negsuc n) min max h s = absurd (ground arith)

check_input-granted :
    (rt : Runtime) (w : Input) (h : History) (o : Option ℕ)
    → ((b : ℕ) → rt.max_buffer_read b ≤ int_max)
    → (check_input rt w h).0 ≡ true
    → (check_input rt w h).1.bufp ≡ o
    → ReadGrantedAt rt h (check_input rt w h).2 o (check_input rt w h).1.n_items
unfolding check_input
check_input-granted rt w h none small r e = tt
check_input-granted rt w h (some b) small r e =
    let n = rt.read_info_of h b in
    let bounds =
      cap_read_bounds n.n_items (rt.min_buffer_read b) (rt.max_buffer_read b) (small b) in
    (
      h,
      Extends-refl InputQuery h,
      check_input-asks rt w h b (sym (check_input-bufp rt w h) ∙ e),
      ground arith,
      ground (arith, bounds),
      ground (arith, bounds),
      ground (arith, bounds),
    )

-- Whenever the checks let the iteration go on, and no buffer's limit is more than an `int` holds,
-- every input that has a buffer was granted at least one item, no more than its buffer reported
-- readable when it was asked in the course of these checks, and no more than the buffer's limit.
pub check_inputs-granted :
    (rt : Runtime) (ws : List Input) (h : History)
    → ((b : ℕ) → rt.max_buffer_read b ≤ int_max)
    → (check_inputs rt ws h).0 ≡ true
    → All (InputGranted rt h (check_inputs rt ws h).2) (check_inputs rt ws h).1
unfolding check_inputs
check_inputs-granted rt [] h small r = tt
check_inputs-granted rt (w ∷ ws) h small r = elim (Bool-cases (check_input rt w h).0) [
  | inl go ↦ rw go (
    ReadGrantedAt-widen rt h h (check_input rt w h).2 _ _ _ (Extends-refl InputQuery h)
        (check_inputs-queries rt ws (check_input rt w h).2)
        (check_input-granted rt w h (check_input rt w h).1.bufp small go refl),
    InputGranted-widen rt h (check_input rt w h).2 _ _ (check_input-queries rt w h w.bufp refl)
        (check_inputs-granted rt ws (check_input rt w h).2 small (rw go at r)),
  )
  | inr stop ↦ absurd (ground arith)
]

-- A buffer had nothing valid to read, nothing at all, or less than its minimum, when it was asked
-- between the two histories.
abbrev pub InputShort : Runtime → History → History → Input → Type 0
InputShort rt before after w =
    (b : ℕ) × (h : History) × Extends InputQuery before h
    × Extends InputQuery (read_info b ∷ h) after
    × (w.bufp ≡ some b)
    × (((rt.read_info_of h b).valid ≡ false)
        ⊎ (short_read (rt.read_info_of h b).n_items (rt.min_buffer_read b) ≡ true))

InputShort-widen :
    (rt : Runtime) (h0 h1 k : History) (ws : List Input)
    → Extends InputQuery h0 h1
    → Any (InputShort rt h1 k) ws
    → Any (InputShort rt h0 k) ws
InputShort-widen rt h0 h1 k [] below s = s
InputShort-widen rt h0 h1 k (w ∷ ws) below (inl (b, h, from, to, e, why)) =
    inl (b, h, Extends-trans InputQuery h0 h1 h below from, to, e, why)
InputShort-widen rt h0 h1 k (w ∷ ws) below (inr s) = inr (InputShort-widen rt h0 h1 k ws below s)

check_input-short :
    (rt : Runtime) (w : Input) (h : History) (o : Option ℕ)
    → w.bufp ≡ o
    → (check_input rt w h).0 ≡ false
    → InputShort rt h (check_input rt w h).2 w
unfolding check_input
check_input-short rt w h none e r = absurd (ground arith)
check_input-short rt w h (some b) e r =
    (b, h, Extends-refl InputQuery h, check_input-asks rt w h b e, e, ground arith)

check_inputs-after :
    (rt : Runtime) (w : Input) (ws : List Input) (h : History)
    → ((check_input rt w h).0 ≡ true
        → (check_inputs rt (w ∷ ws) h).2 ≡ (check_inputs rt ws (check_input rt w h).2).2)
      × ((check_input rt w h).0 ≡ false → (check_inputs rt (w ∷ ws) h).2 ≡ (check_input rt w h).2)
unfolding check_inputs
check_inputs-after rt w ws h = ((λ go. rw go refl), (λ stop. rw stop refl))

-- The iteration is held up only by an input whose buffer could not be read as asked, when it was
-- asked in the course of these checks.
pub check_inputs-short :
    (rt : Runtime) (ws : List Input) (h : History)
    → (check_inputs rt ws h).0 ≡ false
    → Any (InputShort rt h (check_inputs rt ws h).2) ws
unfolding check_inputs
check_inputs-short rt [] h r = cc
check_inputs-short rt (w ∷ ws) h r = elim (Bool-cases (check_input rt w h).0) [
  | inl go ↦
      subst (λ k. Any (InputShort rt h k) (w ∷ ws)) (sym ((check_inputs-after rt w ws h).0 go))
        (inr (
          InputShort-widen rt h (check_input rt w h).2 _ ws (check_input-queries rt w h w.bufp refl)
            (check_inputs-short rt ws (check_input rt w h).2 (rw go at r))))
  | inr stop ↦
      subst (λ k. Any (InputShort rt h k) (w ∷ ws)) (sym ((check_inputs-after rt w ws h).1 stop))
        (inl (check_input-short rt w h w.bufp refl stop))
]
