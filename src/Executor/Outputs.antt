-- ===== src/Executor/Outputs.antt =====
-- What the checks of Executor.Ports leave in the last block's outputs.
use native.Mathlib.Nat.{mul-mod_left, div-mul-le_self}
use gr4_torchdsp.Prelude.{
  ℕ, ◌/◌, ◌%◌, ◌≤◌, ◌<◌, ◌≡◌, refl, sym, ap, subst, ◌∙◌, ◌⊎◌, Bool, true, false, List, [], ◌∷◌,
  Option, none, some, arith, All,
}
use gr4_torchdsp.Prelude.Int.{int_max, to_size, to_unsigned}
use gr4_torchdsp.Outcome.{Outcome, ok, fault, >>=-eq-ok}
use gr4_torchdsp.Runtime.{Runtime, History, Output, write_info}
use gr4_torchdsp.Trace.{Extends, Extends-refl, Extends-trans}
use gr4_torchdsp.Executor.Clogged.{OutputQuery, check_output-queries, check_outputs-queries}
use gr4_torchdsp.Executor.Ports.{
  resume_outputs, check_output, check_outputs, cap_write, fit_multiple,
}

-- One reading of the buffer's room that allows `n` items, in the block's multiples, a reading made
-- between the two histories.
abbrev pub WriteGranted : Runtime → ℕ → History → History → ℕ → ℕ → Type 0
WriteGranted rt last before after b n =
    (h : History) × Extends OutputQuery before h
    × Extends OutputQuery (write_info b ∷ h) after
    × ((rt.write_info_of h b).valid ≡ true)
    × (0 < n)
    × (n ≤ to_size (rt.write_info_of h b).n_items)
    × (n ≤ int_max)
    × ((rt.max_buffer_fill b ≡ 0) ⊎ (n ≤ rt.max_buffer_fill b))
    × ((rt.output_multiple_set last ≡ false) ⊎ (n % to_unsigned (rt.output_multiple last) ≡ 0))

abbrev pub WriteGrantedAt : Runtime → ℕ → History → History → Option ℕ → ℕ → Type 0
WriteGrantedAt rt last before after none n = Unit
WriteGrantedAt rt last before after (some b) n = WriteGranted rt last before after b n

abbrev pub OutputGranted : Runtime → ℕ → History → History → Output → Type 0
OutputGranted rt last before after w = WriteGrantedAt rt last before after w.bufp w.n_items

WriteGrantedAt-widen :
    (rt : Runtime) (last : ℕ) (h0 h1 k1 k0 : History) (o : Option ℕ) (n : ℕ)
    → Extends OutputQuery h0 h1
    → Extends OutputQuery k1 k0
    → WriteGrantedAt rt last h1 k1 o n
    → WriteGrantedAt rt last h0 k0 o n
WriteGrantedAt-widen rt last h0 h1 k1 k0 none n below above g = tt
WriteGrantedAt-widen rt last h0 h1 k1 k0 (some b) n below above (h, from, to, v, p, r, i, m, c) = (
  h,
  Extends-trans OutputQuery h0 h1 h below from,
  Extends-trans OutputQuery (write_info b ∷ h) k1 k0 to above,
  v,
  p,
  r,
  i,
  m,
  c,
)

OutputGranted-widen :
    (rt : Runtime) (last : ℕ) (h0 h1 k : History) (ws : List Output)
    → Extends OutputQuery h0 h1
    → All (OutputGranted rt last h1 k) ws
    → All (OutputGranted rt last h0 k) ws
OutputGranted-widen rt last h0 h1 k [] below g = tt
OutputGranted-widen rt last h0 h1 k (w ∷ ws) below g = (
  WriteGrantedAt-widen rt last h0 h1 k k w.bufp w.n_items below (Extends-refl OutputQuery k) g.0,
  OutputGranted-widen rt last h0 h1 k ws below g.1,
)

cap_write_bounds :
    (space max : ℕ)
    → (cap_write space max ≤ space)
      × (cap_write space max ≤ int_max)
      × ((max ≡ 0) ⊎ (cap_write space max ≤ max))
cap_write_bounds space max = ground arith

fit_multiple_bounds :
    (is_set : Bool) (multiple n r : ℕ)
    → n ≤ int_max
    → fit_multiple is_set multiple n ≡ ok r
    → (r ≤ n) × ((is_set ≡ false) ⊎ (r % to_unsigned multiple ≡ 0))
unfolding fit_multiple
fit_multiple_bounds true multiple n r h e = ground (
  arith,
  mul-mod_left (to_unsigned n / to_unsigned multiple) (to_unsigned multiple),
  div-mul-le_self (to_unsigned n) (to_unsigned multiple),
)
fit_multiple_bounds false multiple n r h e = ground arith

check_output-granted :
    (rt : Runtime) (last : ℕ) (w w' : Output) (h h' : History) (o : Option ℕ)
    → check_output rt last w h ≡ ok (true, w', h')
    → w'.bufp ≡ o
    → WriteGrantedAt rt last h h' o w'.n_items
unfolding check_output
check_output-granted rt last w w' h h' none r e = tt
check_output-granted rt last w w' h h' (some b) r e =
    let space = to_size (rt.write_info_of h b).n_items in
    let capped = cap_write_bounds space (rt.max_buffer_fill b) in
    let fitted =
      fit_multiple_bounds (rt.output_multiple_set last) (rt.output_multiple last)
        (cap_write space (rt.max_buffer_fill b)) w'.n_items in
    let asked : h' ≡ write_info b ∷ h = ground arith in
    (
      h,
      Extends-refl OutputQuery h,
      rw asked (Extends-refl OutputQuery (write_info b ∷ h)),
      ground arith,
      ground arith,
      ground (arith, capped, fitted),
      ground (arith, capped, fitted),
      ground (arith, capped, fitted),
      ground (arith, capped, fitted),
    )

resume_outputs-granted :
    (rt : Runtime) (last : ℕ) (ws ws' : List Output) (a h' : History)
    (rest : History → Outcome (Bool × List Output × History)) (r : Bool) (w : Output) (h : History)
    → Extends OutputQuery a h
    → (r ≡ true → OutputGranted rt last a h w)
    → ((us : List Output) (k : History)
        → rest h ≡ ok (true, us, k)
        → Extends OutputQuery h k × All (OutputGranted rt last h k) us)
    → resume_outputs ws rest (r, w, h) ≡ ok (true, ws', h')
    → All (OutputGranted rt last a h') ws'
resume_outputs-granted rt last ws ws' a h' rest true w h below one more e = finish (rest h) refl
  where
    finish :
        (o : Outcome (Bool × List Output × History))
        → rest h ≡ o
        → All (OutputGranted rt last a h') ws'
    finish (ok (true, us, k)) q =
        let shape : ws' ≡ w ∷ us = ground arith in
        let ends : h' ≡ k = ground arith in
        let (above, granted) = more us k q in
        let head =
          WriteGrantedAt-widen rt last a a h k w.bufp w.n_items (Extends-refl OutputQuery a) above
            (one refl) in
        let tail = OutputGranted-widen rt last a h k us below granted in
        subst (λ x. All (OutputGranted rt last a x) ws') (sym ends) (rw shape (head, tail))
    finish (ok (false, us, k)) q = ground arith
    finish (fault x) q = ground arith
resume_outputs-granted rt last ws ws' a h' rest false w h below one more e = ground arith

-- Whenever the checks let the iteration go on, every output that has a buffer was granted at least
-- one item, no more than its buffer's room when it was asked in the course of these checks, than
-- the buffer's limit and than an `int` holds, and a whole number of the last block's output multiples where one is set.
pub check_outputs-granted :
    (rt : Runtime) (last : ℕ) (ws ws' : List Output) (h h' : History)
    → check_outputs rt last ws h ≡ ok (true, ws', h')
    → All (OutputGranted rt last h h') ws'
unfolding check_outputs
check_outputs-granted rt last [] ws' h h' e = ground arith
check_outputs-granted rt last (w ∷ ws) ws' h h' e =
    let (p, first, second) = >>=-eq-ok (check_output rt last w h) _ e in
    resume_outputs-granted rt last ws ws' h h' (check_outputs rt last ws) p.0 p.1 p.2
      (check_output-queries rt last w p.1 p.0 h p.2 w.bufp refl first)
      (λ t.
        check_output-granted rt last w p.1 h p.2 p.1.bufp (first ∙ ap (λ r. ok (r, p.1, p.2)) t)
          refl)
      (λ us k q. (
        check_outputs-queries rt last ws us true p.2 k q,
        check_outputs-granted rt last ws us p.2 k q,
      ))
      second
