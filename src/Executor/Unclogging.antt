-- ===== src/Executor/Unclogging.antt =====
-- The unclogging at the end of an iteration, lines 292 to 319 of
-- schedulers/triton/lib/graph_executor.cc: it posts nothing and calls no work.
use gr4_torchdsp.Prelude.{
  ℕ, ◌≡◌, refl, sym, ap, subst, Bool, List, [], ◌∷◌, ◌&&◌, ◌==◌, inl, inr, Bool-cases, if_ind,
}
use gr4_torchdsp.Outcome.{Outcome, ok, deref, >>=-eq-ok, ok-fst, ok-snd, ok-injective}
use gr4_torchdsp.Runtime.{
  Runtime, History, Event, Input, Status, do_work, input_blocked_callback, notify_output, post_read,
  post_write,
}
use gr4_torchdsp.Trace.{
  Extends, Extends-refl, Extends-one, Extends-trans, Extends-cons, Extends-mono,
}
use gr4_torchdsp.Executor.Ports.{s_min_items_to_process}
use gr4_torchdsp.Executor.Work.{Exec, Pass}
use gr4_torchdsp.Executor.Iteration.{
  unclog_inputs_of, unclog_inputs_all, unclog_outputs_all, unclog,
}
use gr4_torchdsp.Executor.Clogged.{OutputQuery, unclog_outputs_all-queries}
use gr4_torchdsp.Executor.Totals.{Silent}
use gr4_torchdsp.Executor.Blocked.{InputQuery}

-- Any call but a post and a call of work.
abbrev pub Still : Event → Type 0
Still (post_read b n) = ⊥
Still (post_write b n) = ⊥
Still (do_work b) = ⊥
Still _ = Unit

pub Still-Silent : (v : Event) → Still v → Silent v
Still-Silent (post_read b n) s = absurd s
Still-Silent (post_write b n) s = absurd s
Still-Silent _ s = tt

abbrev pub Stays : Exec → Exec → Type 0
Stays e e' = Extends Still e.history e'.history

Stays-same :
    {A : Type 0} (p p' : A) (e e' : Exec)
    → ◌≡◌ {A = Outcome (A × Exec)} (ok (p, e)) (ok (p', e'))
    → Stays e e' × (e'.wio ≡ e.wio)
Stays-same p p' e e' q =
    let same : e ≡ e' = ok-snd q in
    (subst (Stays e) same (Extends-refl Still e.history), ap (λ x. x.wio) (sym same))

unclog_inputs_of-quiet :
    (rt : Runtime) (is_first : Bool) (ws : List Input) (h h' : History)
    → unclog_inputs_of rt is_first ws h ≡ ok h'
    → Extends Still h h'
unfolding unclog_inputs_of
unclog_inputs_of-quiet rt is_first [] h h' q = rw (ok-injective q) (Extends-refl Still h')
unclog_inputs_of-quiet rt is_first (w ∷ ws) h h' q =
    let (b, _, second) = >>=-eq-ok (deref w.bufp) _ q in
    let called = input_blocked_callback b s_min_items_to_process ∷ h in
    let told = Extends-one Still (input_blocked_callback b s_min_items_to_process) h tt in
    Extends-trans Still h _ h'
      (if_ind (Extends Still h) (rt.input_blocked_of h b s_min_items_to_process && is_first)
        (notify_output w.port ∷ called) called
        (Extends-cons Still (notify_output w.port) h called tt told) told)
      (unclog_inputs_of-quiet rt is_first ws _ h' second)

unclog_inputs_all-quiet :
    (rt : Runtime) (first : ℕ) (bs : List ℕ) (e e' : Exec)
    → unclog_inputs_all rt first bs e ≡ ok e'
    → Stays e e' × (e'.wio ≡ e.wio)
unfolding unclog_inputs_all
unclog_inputs_all-quiet rt first [] e e' q =
    rw (ok-injective q) (Extends-refl Still e'.history, refl)
unclog_inputs_all-quiet rt first (b ∷ bs) e e' q =
    let (h, one, second) =
      >>=-eq-ok (unclog_inputs_of rt (b == first) (e.wio b).inputs e.history) _ q in
    let (grown, kept) = unclog_inputs_all-quiet rt first bs (record e { history = h }) e' second in
    (
      Extends-trans Still e.history h e'.history
          (unclog_inputs_of-quiet rt (b == first) (e.wio b).inputs e.history h one) grown,
      kept,
    )

pub OutputQuery-Still : (v : Event) → OutputQuery v → Still v
OutputQuery-Still (post_read b n) s = absurd s
OutputQuery-Still (post_write b n) s = absurd s
OutputQuery-Still (do_work b) s = absurd s
OutputQuery-Still _ s = tt

pub InputQuery-Still : (v : Event) → InputQuery v → Still v
InputQuery-Still (post_read b n) s = absurd s
InputQuery-Still (post_write b n) s = absurd s
InputQuery-Still (do_work b) s = absurd s
InputQuery-Still _ s = tt

pub unclog-quiet :
    (rt : Runtime) (blocks : List ℕ) (first last : ℕ) (p : Pass) (e : Exec) (s : Status) (e' : Exec)
    → unclog rt blocks first last p e ≡ ok (s, e')
    → Stays e e' × (e'.wio ≡ e.wio)
unfolding unclog
unclog-quiet rt blocks first last p e s e' q = elim (Bool-cases p.unclog_inputs) [
  | inl ins ↦
      let (f, one, more) = >>=-eq-ok (unclog_inputs_all rt first blocks e) _ (rw ins at q) in
      rw (sym (ok-snd more)) (unclog_inputs_all-quiet rt first blocks e f one)
  | inr none_ ↦ elim (Bool-cases p.unclog_outputs) [
    | inl outs ↦
        let (f, one, more) =
          >>=-eq-ok (unclog_outputs_all rt last blocks e) _ (rw (none_, outs) at q) in
        let (grown, kept) = unclog_outputs_all-queries rt last blocks e f one in
        rw (sym (ok-snd more))
          (Extends-mono OutputQuery Still e.history f.history OutputQuery-Still grown, kept)
    | inr nothing ↦ Stays-same p.status s e e' (rw (none_, nothing) at q)
  ]
]

-- The unclogging leaves the status as it was.
pub unclog-status :
    (rt : Runtime) (blocks : List ℕ) (first last : ℕ) (p : Pass) (e : Exec) (s : Status) (e' : Exec)
    → unclog rt blocks first last p e ≡ ok (s, e')
    → s ≡ p.status
unfolding unclog
unclog-status rt blocks first last p e s e' q = elim (Bool-cases p.unclog_inputs) [
  | inl ins ↦
      let (f, one, more) = >>=-eq-ok (unclog_inputs_all rt first blocks e) _ (rw ins at q) in
      sym (ok-fst more)
  | inr none_ ↦ elim (Bool-cases p.unclog_outputs) [
    | inl outs ↦
        let (f, one, more) =
          >>=-eq-ok (unclog_outputs_all rt last blocks e) _ (rw (none_, outs) at q) in
        sym (ok-fst more)
    | inr nothing ↦ sym (ok-fst (rw (none_, nothing) at q))
  ]
]
