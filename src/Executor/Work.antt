-- ===== src/Executor/Work.antt =====
-- graph_executor::run_one_iteration of schedulers/triton/lib/graph_executor.cc. The loop that calls
-- the blocks' work, lines 151 to 253.
use Prim.Native.Nat.{max}
use gr4_torchdsp.Prelude.{
  ℕ, zero, suc, Bool, true, false, ◌&&◌, not, List, [], ◌∷◌, Option, ◌==◌, leb, if◌then◌else◌,
  get_elem?,
}
use gr4_torchdsp.Outcome.{Outcome, ok, fault, at, null_pointer, blocked_forever, out_of_fuel, ◌>>=◌}
use gr4_torchdsp.Runtime.{
  Runtime, History, Input, Output, WorkIo, Work, WorkReturn, work_ok, work_done,
  insufficient_input_items, insufficient_output_items, other_return, Status, ready, blkd_in,
  blkd_out, done, do_work, callback, set_async_callback,
}

-- The blocks' `work_io` objects, by block, and the calls made so far.
pub record Exec : Type 0 where
  pub wio : ℕ → WorkIo
  pub history : History

abbrev pub set_wio : ℕ → WorkIo → Exec → Exec
set_wio b io e = record e { wio = λ k. if k == b then io else e.wio k }

-- The three variables of the function that the loop changes.
pub record Pass : Type 0 where
  pub status : Status
  pub unclog_inputs : Bool
  pub unclog_outputs : Bool

-- How one turn of `while (true)` ends: by `break`, or by going round again.
pub data Round : Type 0 where
  settled again : Pass → Round

abbrev pub is_empty {ℓ} : {A : Type ℓ} → List A → Bool
is_empty [] = true
is_empty (x ∷ xs) = false

-- lines 157 to 160; `first_wio.inputs()[0]` is read at each entry
unfoldable pub assign_inputs : Option Input → List Input → Outcome (List Input)
assign_inputs first [] = ok []
assign_inputs first (w ∷ ws) = at first >>= λ f.
    assign_inputs first ws >>= λ rest. ok (record w { n_items = f.n_items; n_consumed = 0 } ∷ rest)

-- lines 162 to 165
unfoldable pub assign_outputs : Option Output → List Output → Outcome (List Output)
assign_outputs last [] = ok []
assign_outputs last (w ∷ ws) = at last >>= λ l.
    assign_outputs last ws >>= λ rest. ok (record w { n_items = l.n_items; n_produced = 0 } ∷ rest)

-- lines 239 to 242
unfoldable pub max_produced : List Output → ℕ
max_produced [] = 0
max_produced (w ∷ ws) = max w.n_produced (max_produced ws)

-- lines 237 to 247: a source that produced nothing
unfoldable pub is_dry_source : WorkIo → Bool
unfolding max_produced
is_dry_source io =
    is_empty io.inputs && not (is_empty io.outputs) && leb (max_produced io.outputs) 0

-- lines 229 to 251
unfoldable pub after_return : WorkReturn → WorkIo → Pass → Round
after_return work_done io p = settled (record p { status = done })
after_return work_ok io p =
    settled (record p { status = if is_dry_source io then blkd_in else ready })
after_return insufficient_input_items io p = again p
after_return insufficient_output_items io p = again p
after_return (other_return n) io p = again p

abbrev called : ℕ → Work → Exec → Exec
called b r e = set_wio b r.wio (record e { history = do_work b ∷ e.history })

-- lines 200 to 218: wait for the callback, or give up
unfoldable pub await_callback :
    ℕ → WorkReturn → WorkIo → Bool → Pass → Exec → Outcome (Round × Exec)
unfolding after_return
await_callback b work_ok io true p e =
    ok (after_return work_ok io p, record e { history = callback b ∷ e.history })
await_callback b work_done io true p e =
    ok (after_return work_done io p, record e { history = callback b ∷ e.history })
await_callback b work_ok io false p e = fault blocked_forever
await_callback b work_done io false p e = fault blocked_forever
await_callback b insufficient_input_items io c p e =
    ok (settled (record p { status = blkd_in; unclog_inputs = true }), e)
await_callback b insufficient_output_items io c p e =
    ok (settled (record p { status = blkd_out; unclog_outputs = true }), e)
await_callback b (other_return n) io c p e = ok (after_return (other_return n) io p, e)

-- The last block's turn, lines 183 to 251: it must be an `async_block_interface`.
unfoldable pub last_round : Runtime → ℕ → Pass → Exec → Outcome (Round × Exec)
unfolding await_callback
last_round rt b p e =
    let h = set_async_callback b ∷ e.history in
    let r = rt.do_work_of h b (e.wio b) in
    if rt.is_async b
    then await_callback b r.ret r.wio r.calls_back p (called b r (record e { history = h }))
    else fault null_pointer

-- Any other block's turn, lines 221 to 251.
unfoldable pub inner_round : Runtime → ℕ → Pass → Exec → Round × Exec
unfolding after_return
inner_round rt b p e =
    let r = rt.do_work_of e.history b (e.wio b) in (after_return r.ret r.wio p, called b r e)

unfoldable pub round : Runtime → ℕ → ℕ → Pass → Exec → Outcome (Round × Exec)
unfolding last_round inner_round
round rt last b p e = if b == last then last_round rt b p e else ok (inner_round rt b p e)

abbrev pub go_round : (Pass → Exec → Outcome (Pass × Exec)) → Round × Exec → Outcome (Pass × Exec)
go_round rest (settled p, e) = ok (p, e)
go_round rest (again p, e) = rest p e

-- `while (true)`, on fuel
unfoldable pub work_loop : ℕ → Runtime → ℕ → ℕ → Pass → Exec → Outcome (Pass × Exec)
work_loop zero rt last b p e = fault out_of_fuel
work_loop (suc fuel) rt last b p e =
    round rt last b p e >>= go_round (λ p' e'. work_loop fuel rt last b p' e')

-- lines 156 to 166
unfoldable pub prepare : ℕ → ℕ → ℕ → Exec → Outcome Exec
unfolding assign_inputs assign_outputs
prepare first last b e =
    assign_inputs (get_elem? (e.wio first).inputs 0) (e.wio b).inputs >>= λ ins.
    let e' = set_wio b (record { inputs = ins; outputs = (e.wio b).outputs }) e in
    assign_outputs (get_elem? (e'.wio last).outputs 0) (e'.wio b).outputs >>= λ outs.
    ok (set_wio b (record { inputs = ins; outputs = outs }) e')

-- One turn of the loop over the blocks.
unfoldable pub run_block : ℕ → Runtime → ℕ → ℕ → ℕ → Pass → Exec → Outcome (Pass × Exec)
run_block fuel rt first last b p e =
    if rt.is_hier b then ok (p, e) else (prepare first last b e >>= work_loop fuel rt last b p)

unfoldable pub run_blocks : ℕ → Runtime → ℕ → ℕ → List ℕ → Pass → Exec → Outcome (Pass × Exec)
run_blocks fuel rt first last [] p e = ok (p, e)
run_blocks fuel rt first last (b ∷ bs) p e =
    run_block fuel rt first last b p e >>= λ (p', e'). run_blocks fuel rt first last bs p' e'
