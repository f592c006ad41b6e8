-- ===== src/Executor/Posts.antt =====
-- What a whole run of graph_executor::run_one_iteration posts, schedulers/triton/lib/graph_executor.cc.
use gr4_torchdsp.Prelude.{ℕ, ◌≡◌, refl, sym, ◌∙◌, List, ◌∷◌, some, ◌⊎◌, inl, inr, last?, Bool-cases}
use gr4_torchdsp.Outcome.{ok, >>=-eq-ok, ok-snd}
use gr4_torchdsp.Runtime.{Runtime, History, Status}
use gr4_torchdsp.Trace.{Extends-mono}
use gr4_torchdsp.Executor.Ports.{check_inputs, check_outputs}
use gr4_torchdsp.Executor.Work.{Exec, set_wio, run_blocks}
use gr4_torchdsp.Executor.Iteration.{
  finish, fresh_pass, work_stage, output_stage, input_stage, run_one_iteration,
}
use gr4_torchdsp.Executor.Totals.{Silent, SameTotals, Extends-SameTotals}
use gr4_torchdsp.Executor.Quiet.{run_blocks-Grows}
use gr4_torchdsp.Executor.Unclogging.{
  Still, Still-Silent, unclog-quiet, OutputQuery-Still, InputQuery-Still,
}
use gr4_torchdsp.Executor.Blocked.{InputQuery, check_inputs-queries}
use gr4_torchdsp.Executor.Clogged.{OutputQuery, check_outputs-queries}
use gr4_torchdsp.Executor.Accounting.{Posted, finish-Posted}

-- Nothing is posted, or what the blocks consumed and produced.
abbrev pub PostsOnce : List ℕ → ℕ → History → Exec → Type 0
PostsOnce blocks last h e = SameTotals h e.history ⊎ Posted blocks last h e

Posted-between :
    (blocks : List ℕ) (last : ℕ) (h0 h1 : History) (e e' : Exec)
    → SameTotals h0 h1
    → Posted blocks last h1 e
    → SameTotals e.history e'.history
    → e'.wio ≡ e.wio
    → Posted blocks last h0 e'
Posted-between blocks last h0 h1 e e' before (o, got, posted) after same = (
  o,
  rw same got,
  λ b.
      let (r, w) = posted b in
      let (r0, w0) = before b in
      let (r1, w1) = after b in (rw (same, r1, r, r0) refl, rw (same, w1, w, w0) refl),
)

work_stage-Posted :
    (fuel : ℕ) (rt : Runtime) (blocks : List ℕ) (first last : ℕ) (e : Exec) (s : Status) (e' : Exec)
    → work_stage fuel rt blocks first last e ≡ ok (s, e')
    → Posted blocks last e.history e'
unfolding work_stage
work_stage-Posted fuel rt blocks first last e s e' q =
    let ((p, f), worked, more) =
      >>=-eq-ok (run_blocks fuel rt first last blocks fresh_pass e) _ q in
    let (g, posted, last_part) = >>=-eq-ok (finish blocks first last f) _ more in
    let (sums, kept) = finish-Posted blocks first last f g posted in
    let (quiet, steady) = unclog-quiet rt blocks first last p g s e' last_part in
    Posted-between blocks last e.history f.history g e'
      (Extends-SameTotals e.history f.history
        (run_blocks-Grows fuel rt first last blocks fresh_pass e p f worked))
      sums
      (Extends-SameTotals g.history e'.history
        (Extends-mono Still Silent g.history e'.history Still-Silent quiet))
      steady

PostsOnce-after :
    (blocks : List ℕ) (last : ℕ) (h0 h1 : History) (e : Exec)
    → SameTotals h0 h1
    → PostsOnce blocks last h1 e
    → PostsOnce blocks last h0 e
PostsOnce-after blocks last h0 h1 e before (inl same) =
    inl (λ b. ((same b).0 ∙ (before b).0, (same b).1 ∙ (before b).1))
PostsOnce-after blocks last h0 h1 e before (inr posted) =
    inr (Posted-between blocks last h0 h1 e e before posted (λ b. (refl, refl)) refl)

output_stage-PostsOnce :
    (fuel : ℕ) (rt : Runtime) (blocks : List ℕ) (first last : ℕ) (e : Exec) (s : Status) (e' : Exec)
    → output_stage fuel rt blocks first last e ≡ ok (s, e')
    → PostsOnce blocks last e.history e'
unfolding output_stage
output_stage-PostsOnce fuel rt blocks first last e s e' q =
    let ((r, outs, h), checked, more) =
      >>=-eq-ok (check_outputs rt last (e.wio last).outputs e.history) _ q in
    let f =
      set_wio last (record { inputs = (e.wio last).inputs; outputs = outs })
        (record e { history = h }) in
    let asked =
      Extends-mono OutputQuery Silent e.history h (λ v k. Still-Silent v (OutputQuery-Still v k))
        (check_outputs-queries rt last (e.wio last).outputs outs r e.history h checked) in
    PostsOnce-after blocks last e.history h e' (Extends-SameTotals e.history h asked)
      (elim (Bool-cases r) [
        | inl go ↦ inr (work_stage-Posted fuel rt blocks first last f s e' (rw go at more))
        | inr stop ↦ inl (
            Extends-SameTotals h e'.history (
              Extends-mono Still Silent _ _ Still-Silent
                (unclog-quiet rt blocks first last _ f s e' (rw stop at more)).0))
      ])

input_stage-PostsOnce :
    (fuel : ℕ) (rt : Runtime) (blocks : List ℕ) (first last : ℕ) (e : Exec) (s : Status) (e' : Exec)
    → input_stage fuel rt blocks first last e ≡ ok (s, e')
    → PostsOnce blocks last e.history e'
unfolding input_stage
input_stage-PostsOnce fuel rt blocks first last e s e' q =
    let (r, ins, h) = check_inputs rt (e.wio first).inputs e.history in
    let f =
      set_wio first (record { inputs = ins; outputs = (e.wio first).outputs })
        (record e { history = h }) in
    let asked =
      Extends-mono InputQuery Silent e.history h (λ v k. Still-Silent v (InputQuery-Still v k))
        (check_inputs-queries rt (e.wio first).inputs e.history) in
    PostsOnce-after blocks last e.history h e' (Extends-SameTotals e.history h asked)
      (elim (Bool-cases r) [
        | inl go ↦ output_stage-PostsOnce fuel rt blocks first last f s e' (rw go at q)
        | inr stop ↦
            let same : f ≡ e' = ok-snd (rw stop at q) in inl (λ b. rw (sym same) (refl, refl))
      ])

-- An iteration that returns has posted all or nothing. Either no buffer was told of a read or a
-- write, or each buffer was told, over all its readers in the list of blocks, of the items that
-- their final `work_io` gives as consumed, and for each output that writes to it, of the count that
-- the last block gives as produced at its first output.
pub run_one_iteration-PostsOnce :
    (fuel : ℕ) (rt : Runtime) (d_blocks : List ℕ) (first : ℕ) (rest : List ℕ) (last : ℕ) (e : Exec)
    (s : Status) (e' : Exec)
    → last? (first ∷ rest) ≡ some last
    → run_one_iteration fuel rt d_blocks (first ∷ rest) e ≡ ok (s, e')
    → PostsOnce (first ∷ rest) last e.history e'
unfolding run_one_iteration
run_one_iteration-PostsOnce fuel rt d_blocks first rest last e s e' l q =
    input_stage-PostsOnce fuel rt (first ∷ rest) first last e s e' (rw l at q)
