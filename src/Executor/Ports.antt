-- ===== src/Executor/Ports.antt =====
-- graph_executor::run_one_iteration of schedulers/triton/lib/graph_executor.cc. The checks on the
-- first block's inputs and the last block's outputs, lines 36 to 146.
use gr4_torchdsp.Prelude.{
  ℕ, ◌*◌, ◌/◌, Bool, true, false, ◌&&◌, ◌||◌, List, [], ◌∷◌, none, some, ltb, leb, ◌==◌,
  if◌then◌else◌,
}
use gr4_torchdsp.Prelude.Int.{ℤ, pos, ltb_ℤ, to_int, to_size, to_unsigned, int_max}
use gr4_torchdsp.Outcome.{Outcome, ok, fault, div_by_zero, ◌>>=◌}
use gr4_torchdsp.Runtime.{Runtime, History, Input, Output, read_info, write_info, get_tags}

abbrev pub s_min_items_to_process : ℕ
s_min_items_to_process = 1

abbrev pub s_min_buf_items : ℕ
s_min_buf_items = 1

-- `unsigned int / unsigned int`: a zero divisor is a fault.
unfoldable pub round_down : ℕ → ℕ → Outcome ℕ
round_down n multiple = if multiple == 0 then fault div_by_zero else ok ((n / multiple) * multiple)

-- lines 56, 57: too little to read
abbrev pub short_read : ℤ → ℕ → Bool
short_read n_items min_read =
    ltb_ℤ n_items (pos s_min_items_to_process)
    || (ltb 0 min_read && ltb_ℤ n_items (to_int min_read))

-- lines 63 to 65: the most that the buffer lets be read
abbrev pub cap_read : ℤ → ℕ → ℤ
cap_read n_items max_read =
    if ltb 0 max_read && ltb_ℤ (to_int max_read) n_items then to_int max_read else n_items

-- The body of the loop over `first_wio.inputs()`: `ready`, the entry, and the calls made.
unfoldable pub check_input : Runtime → Input → History → Bool × Input × History
check_input rt w h = elim w.bufp [
  | none ↦ (true, w, h)
  | some b ↦
      let info = rt.read_info_of h b in
      let h' = read_info b ∷ h in
      let n = cap_read info.n_items (rt.max_buffer_read b) in
      if info.valid
      then if short_read info.n_items (rt.min_buffer_read b)
        then (false, w, h')
        else (true, record w { n_items = to_size n }, get_tags b n ∷ h')
      else (false, w, h')
]

-- The loop stops at the first input that is not ready.
unfoldable pub check_inputs : Runtime → List Input → History → Bool × List Input × History
check_inputs rt [] h = (true, [], h)
check_inputs rt (w ∷ ws) h =
    let (r, w', h') = check_input rt w h in
    let (rs, ws', h'') = check_inputs rt ws h' in
    if r then (rs, w' ∷ ws', h'') else (false, w' ∷ ws, h')

-- lines 107, 108: too little room
abbrev pub short_write : ℕ → ℕ → Bool
short_write space min_fill = ltb space s_min_buf_items || (ltb 0 min_fill && ltb space min_fill)

-- lines 90, 114 to 119
abbrev pub cap_write : ℕ → ℕ → ℕ
cap_write space max_fill =
    let m = if ltb space int_max then space else int_max in
    if ltb 0 max_fill && ltb max_fill m then max_fill else m

-- lines 121 to 126; the arguments of `round_down` are converted to `unsigned int`
unfoldable pub fit_multiple : Bool → ℕ → ℕ → Outcome ℕ
unfolding round_down
fit_multiple is_set multiple n =
    if is_set then round_down (to_unsigned n) (to_unsigned multiple) else ok n

-- lines 128 to 138
abbrev pub grant : Bool → ℕ → Output → History → Bool × Output × History
grant valid n w h =
    if leb n 0
    then (false, w, h)
    else if valid
    then (true, record w { n_items = n }, h)
    else (false, w, h)

-- The body of the loop over `last_wio.outputs()`.
unfoldable pub check_output : Runtime → ℕ → Output → History → Outcome (Bool × Output × History)
unfolding fit_multiple
check_output rt last w h = elim w.bufp [
  | none ↦ ok (true, w, h)
  | some b ↦
      let info = rt.write_info_of h b in
      let h' = write_info b ∷ h in
      let space = to_size info.n_items in
      if short_write space (rt.min_buffer_fill b)
      then ok (false, w, h')
      else (fit_multiple (rt.output_multiple_set last) (rt.output_multiple last)
            (cap_write space (rt.max_buffer_fill b))
          >>= λ n. ok (grant info.valid n w h'))
]

-- `ready` and the rest of the loop after one entry.
abbrev pub resume_outputs :
    List Output
    → (History → Outcome (Bool × List Output × History))
    → Bool × Output × History
    → Outcome (Bool × List Output × History)
resume_outputs ws rest (true, w, h) = rest h >>= λ (rs, ws', h'). ok (rs, w ∷ ws', h')
resume_outputs ws rest (false, w, h) = ok (false, w ∷ ws, h)

unfoldable pub check_outputs :
    Runtime → ℕ → List Output → History → Outcome (Bool × List Output × History)
check_outputs rt last [] h = ok (true, [], h)
check_outputs rt last (w ∷ ws) h =
    check_output rt last w h >>= resume_outputs ws (λ h'. check_outputs rt last ws h')
