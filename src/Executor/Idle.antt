-- ===== src/Executor/Idle.antt =====
-- The calls of work in a history, and the parts of graph_executor::run_one_iteration,
-- schedulers/triton/lib/graph_executor.cc, that make none.
use mathlib.Core.List.{append-nil}
use gr4_torchdsp.Prelude.{
  ℕ, ◌≡◌, refl, sym, ap, ◌∙◌, List, [], ◌∷◌, ◌++◌, Option, none, some, All, get_elem?,
}
use gr4_torchdsp.Outcome.{ok, at, >>=-eq-ok, ok-injective}
use gr4_torchdsp.Runtime.{
  History, Event, Input, Output, WorkIo, do_work, post_read, post_write, notify_output,
  notify_input,
}
use gr4_torchdsp.Trace.{Extends, Extends-mono}
use gr4_torchdsp.Executor.Work.{Exec}
use gr4_torchdsp.Executor.Iteration.{
  post_reads, post_reads_all, notify_outputs, post_writes, post_writes_all, notify_inputs, finish,
}
use gr4_torchdsp.Executor.Unclogging.{Still}

abbrev worker : Event → List ℕ
worker (do_work b) = b ∷ []
worker _ = []

-- The blocks whose work was called, oldest first.
abbrev pub workers : History → List ℕ
workers [] = []
workers (v ∷ h) = workers h ++ worker v

-- Any call but a call of work.
abbrev Idle : Event → Type 0
Idle (do_work b) = ⊥
Idle _ = Unit

Still-Idle : (v : Event) → Still v → Idle v
Still-Idle (do_work b) s = absurd s
Still-Idle _ s = tt

worker-Idle : (v : Event) → Idle v → worker v ≡ []
worker-Idle (do_work b) i = absurd i
worker-Idle _ i = refl

workers-append : (es : List Event) (h : History) → All Idle es → workers (es ++ h) ≡ workers h
workers-append [] h a = refl
workers-append (v ∷ es) h a =
    rw (worker-Idle v a.0) (append-nil (workers (es ++ h)) ∙ workers-append es h a.1)

workers-Idle : (h h' : History) → Extends Idle h h' → workers h' ≡ workers h
workers-Idle h h' (es, e, a) = rw e (workers-append es h a)

pub workers-Still : (h h' : History) → Extends Still h h' → workers h' ≡ workers h
workers-Still h h' x = workers-Idle h h' (Extends-mono Still Idle h h' Still-Idle x)

-- What follows the work calls calls none.
post_reads-Idle : (ws : List Input) (h : History) → workers (post_reads ws h) ≡ workers h
unfolding post_reads
post_reads-Idle [] h = refl
post_reads-Idle (w ∷ ws) h =
    post_reads-Idle ws (elim w.bufp [ none ↦ h | some b ↦ post_read b w.n_consumed ∷ h ])
    ∙ posted w.bufp
  where
    posted :
        (o : Option ℕ)
        → workers (elim o [ none ↦ h | some b ↦ post_read b w.n_consumed ∷ h ]) ≡ workers h
    posted none = refl
    posted (some b) = append-nil (workers h)

post_reads_all-Idle :
    (wio : ℕ → WorkIo) (bs : List ℕ) (h : History) → workers (post_reads_all wio bs h) ≡ workers h
unfolding post_reads_all
post_reads_all-Idle wio [] h = refl
post_reads_all-Idle wio (b ∷ bs) h =
    post_reads_all-Idle wio bs (post_reads (wio b).inputs h) ∙ post_reads-Idle (wio b).inputs h

notify_outputs-Idle : (ws : List Input) (h : History) → workers (notify_outputs ws h) ≡ workers h
unfolding notify_outputs
notify_outputs-Idle [] h = refl
notify_outputs-Idle (w ∷ ws) h =
    notify_outputs-Idle ws (notify_output w.port ∷ h) ∙ append-nil (workers h)

post_writes-Idle :
    (np : ℕ) (ws : List Output) (h : History) → workers (post_writes np ws h) ≡ workers h
unfolding post_writes
post_writes-Idle np [] h = refl
post_writes-Idle np (w ∷ ws) h =
    post_writes-Idle np ws (elim w.bufp [ none ↦ h | some b ↦ post_write b np ∷ h ]) ∙ posted w.bufp
  where
    posted :
        (o : Option ℕ) → workers (elim o [ none ↦ h | some b ↦ post_write b np ∷ h ]) ≡ workers h
    posted none = refl
    posted (some b) = append-nil (workers h)

post_writes_all-Idle :
    (np : ℕ) (wio : ℕ → WorkIo) (bs : List ℕ) (h : History)
    → workers (post_writes_all np wio bs h) ≡ workers h
unfolding post_writes_all
post_writes_all-Idle np wio [] h = refl
post_writes_all-Idle np wio (b ∷ bs) h =
    post_writes_all-Idle np wio bs (post_writes np (wio b).outputs h)
    ∙ post_writes-Idle np (wio b).outputs h

notify_inputs-Idle : (ws : List Output) (h : History) → workers (notify_inputs ws h) ≡ workers h
unfolding notify_inputs
notify_inputs-Idle [] h = refl
notify_inputs-Idle (w ∷ ws) h =
    notify_inputs-Idle ws (notify_input w.port ∷ h) ∙ append-nil (workers h)

pub finish-Idle :
    (bs : List ℕ) (first last : ℕ) (e e' : Exec)
    → finish bs first last e ≡ ok e'
    → workers e'.history ≡ workers e.history
unfolding finish
finish-Idle bs first last e e' q =
    let (_, _, rest) = >>=-eq-ok (at (get_elem? (e.wio first).inputs 0)) _ q in
    let (o, _, made) = >>=-eq-ok (at (get_elem? (e.wio last).outputs 0)) _ rest in
    let h1 = post_reads_all e.wio bs e.history in
    let h2 = notify_outputs (e.wio first).inputs h1 in
    let h3 = post_writes_all o.n_produced e.wio bs h2 in
    ap (λ x. workers x.history) (sym (ok-injective made))
    ∙ notify_inputs-Idle (e.wio last).outputs h3
    ∙ post_writes_all-Idle o.n_produced e.wio bs h2
    ∙ notify_outputs-Idle (e.wio first).inputs h1
    ∙ post_reads_all-Idle e.wio bs e.history
