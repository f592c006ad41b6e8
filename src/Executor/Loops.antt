-- ===== src/Executor/Loops.antt =====
-- The `while (true)` of a block's turn: when it ends, and when it never does.
use gr4_torchdsp.Prelude.{
  ℕ, zero, suc, ◌≡◌, refl, false, ◌∷◌, arith, ◌⊎◌, ◌==◌, eqb_refl, if◌then◌else◌,
}
use gr4_torchdsp.Outcome.{ok, fault, null_pointer, blocked_forever, out_of_fuel}
use gr4_torchdsp.Runtime.{
  Runtime, History, Work, WorkIo, WorkReturn, work_ok, work_done, insufficient_input_items,
  insufficient_output_items, other_return, set_async_callback,
}
use gr4_torchdsp.Executor.Work.{
  Exec, Pass, again, after_return, await_callback, last_round, inner_round, round, work_loop,
}

-- Every return but OK and DONE.
abbrev pub IsRetry : WorkReturn → Type 0
IsRetry work_ok = ⊥
IsRetry work_done = ⊥
IsRetry _ = Unit

after_return-retry :
    (ret : WorkReturn) (io : WorkIo) (p : Pass) → IsRetry ret → after_return ret io p ≡ again p
unfolding after_return
after_return-retry work_ok io p h = absurd h
after_return-retry work_done io p h = absurd h
after_return-retry insufficient_input_items io p h = refl
after_return-retry insufficient_output_items io p h = refl
after_return-retry (other_return n) io p h = refl

-- A block that is not the last, and whose work keeps returning anything but OK and DONE, such as
-- INSUFFICIENT_INPUT_ITEMS, is called again and again: no number of rounds ends its turn.
pub work_loop-spins :
    (fuel : ℕ) (rt : Runtime) (last b : ℕ) (p : Pass) (e : Exec)
    → (b == last) ≡ false
    → ((h : History) (io : WorkIo) → IsRetry (rt.do_work_of h b io).ret)
    → work_loop fuel rt last b p e ≡ fault out_of_fuel
unfolding work_loop
work_loop-spins zero rt last b p e inner retry = refl
work_loop-spins (suc fuel) rt last b p e inner retry =
    let r = rt.do_work_of e.history b (e.wio b) in
    let turn : round rt last b p e ≡ ok (again p, (inner_round rt b p e).1) =
      unfold round in
      rw inner (rw (after_return-retry r.ret r.wio p (retry e.history (e.wio b)))) in
    rw turn (work_loop-spins fuel rt last b p (inner_round rt b p e).1 inner retry)

-- If the last block's work returns OK or DONE and its request never calls back, the executor waits
-- for ever; if the block is no `async_block_interface`, it calls a member through a null pointer.
pub work_loop-no_callback :
    (fuel : ℕ) (rt : Runtime) (last : ℕ) (p : Pass) (e : Exec) (r : Work)
    → rt.do_work_of (set_async_callback last ∷ e.history) last (e.wio last) ≡ r
    → (r.ret ≡ work_ok) ⊎ (r.ret ≡ work_done)
    → r.calls_back ≡ false
    → work_loop (suc fuel) rt last last p e
      ≡ fault (if rt.is_async last then blocked_forever else null_pointer)
unfolding work_loop round last_round await_callback
work_loop-no_callback fuel rt last p e r worked returned silent = ground (arith, eqb_refl last)
