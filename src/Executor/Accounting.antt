-- ===== src/Executor/Accounting.antt =====
-- What an iteration posts: lines 255 to 288 of schedulers/triton/lib/graph_executor.cc, and the
-- whole of run_one_iteration.
use gr4_torchdsp.Prelude.{
  ℕ, ◌+◌, ◌≡◌, refl, ap, List, [], ◌∷◌, Option, none, some, arith, get_elem?, subst,
}
use gr4_torchdsp.Outcome.{ok, at, >>=-eq-ok, ok-injective}
use gr4_torchdsp.Runtime.{
  History, Input, Output, WorkIo, post_read, post_write, notify_output, notify_input,
}
use gr4_torchdsp.Trace.{Extends, Extends-refl, Extends-one, Extends-trans}
use gr4_torchdsp.Executor.Work.{Exec}
use gr4_torchdsp.Executor.Iteration.{
  post_reads, post_reads_all, notify_outputs, post_writes, post_writes_all, notify_inputs, finish,
}
use gr4_torchdsp.Executor.Totals.{
  reads_posted, writes_posted, consumed, fed, consumed_all, fed_all, Silent, Extends-SameTotals,
}

-- What is posted for `b` grows by the two counts.
abbrev Adds : ℕ → ℕ → ℕ → History → History → Type 0
Adds b reads writes h h' =
    (reads_posted b h' ≡ reads + reads_posted b h)
    × (writes_posted b h' ≡ writes + writes_posted b h)

post_reads-Adds :
    (b : ℕ) (ws : List Input) (h : History) → Adds b (consumed b ws) 0 h (post_reads ws h)
unfolding post_reads
post_reads-Adds b [] h = (omega arith, omega arith)
post_reads-Adds b (w ∷ ws) h =
    let (r, u) =
      post_reads-Adds b ws (elim w.bufp [ none ↦ h | some c ↦ post_read c w.n_consumed ∷ h ]) in
    (ground (arith, r), ground (arith, u))

notify_outputs-Silent : (ws : List Input) (h : History) → Extends Silent h (notify_outputs ws h)
unfolding notify_outputs
notify_outputs-Silent [] h = Extends-refl Silent h
notify_outputs-Silent (w ∷ ws) h =
    Extends-trans Silent h _ _ (Extends-one Silent (notify_output w.port) h tt)
      (notify_outputs-Silent ws (notify_output w.port ∷ h))

notify_inputs-Silent : (ws : List Output) (h : History) → Extends Silent h (notify_inputs ws h)
unfolding notify_inputs
notify_inputs-Silent [] h = Extends-refl Silent h
notify_inputs-Silent (w ∷ ws) h =
    Extends-trans Silent h _ _ (Extends-one Silent (notify_input w.port) h tt)
      (notify_inputs-Silent ws (notify_input w.port ∷ h))

post_reads_all-Adds :
    (b : ℕ) (wio : ℕ → WorkIo) (ks : List ℕ) (h : History)
    → Adds b (consumed_all b wio ks) 0 h (post_reads_all wio ks h)
unfolding post_reads_all
post_reads_all-Adds b wio [] h = (omega arith, omega arith)
post_reads_all-Adds b wio (k ∷ ks) h =
    let (r, u) = post_reads-Adds b (wio k).inputs h in
    let (r', u') = post_reads_all-Adds b wio ks (post_reads (wio k).inputs h) in
    (omega (arith, r, r'), omega (arith, u, u'))

post_writes-Adds :
    (b np : ℕ) (ws : List Output) (h : History) → Adds b 0 (fed np b ws) h (post_writes np ws h)
unfolding post_writes
post_writes-Adds b np [] h = (omega arith, omega arith)
post_writes-Adds b np (w ∷ ws) h =
    let (r, u) =
      post_writes-Adds b np ws (elim w.bufp [ none ↦ h | some c ↦ post_write c np ∷ h ]) in
    (ground (arith, r), ground (arith, u))

post_writes_all-Adds :
    (b np : ℕ) (wio : ℕ → WorkIo) (ks : List ℕ) (h : History)
    → Adds b 0 (fed_all np b wio ks) h (post_writes_all np wio ks h)
unfolding post_writes_all
post_writes_all-Adds b np wio [] h = (omega arith, omega arith)
post_writes_all-Adds b np wio (k ∷ ks) h =
    let (r, u) = post_writes-Adds b np (wio k).outputs h in
    let (r', u') = post_writes_all-Adds b np wio ks (post_writes np (wio k).outputs h) in
    (omega (arith, r, r'), omega (arith, u, u'))

-- The state has posted, since the history `h`, what its blocks consumed, and for each output the
-- count of the last block's first output.
abbrev pub Posted : List ℕ → ℕ → History → Exec → Type 0
Posted blocks last h e =
    (o : Output) × (get_elem? (e.wio last).outputs 0 ≡ some o)
    × ((b : ℕ)
        → (reads_posted b e.history ≡ consumed_all b e.wio blocks + reads_posted b h)
          × (writes_posted b e.history ≡ fed_all o.n_produced b e.wio blocks + writes_posted b h))

at-ok : {A : Type 0} (o : Option A) {a : A} → at o ≡ ok a → o ≡ some a
at-ok none e = cc
at-ok (some a) e = ap some (ok-injective e)

pub finish-Posted :
    (blocks : List ℕ) (first last : ℕ) (e e' : Exec)
    → finish blocks first last e ≡ ok e'
    → Posted blocks last e.history e' × (e'.wio ≡ e.wio)
unfolding finish
finish-Posted blocks first last e e' q =
    let (_, _, rest) = >>=-eq-ok (at (get_elem? (e.wio first).inputs 0)) _ q in
    let (o, got, made) = >>=-eq-ok (at (get_elem? (e.wio last).outputs 0)) _ rest in
    let h1 = post_reads_all e.wio blocks e.history in
    let h2 = notify_outputs (e.wio first).inputs h1 in
    let h3 = post_writes_all o.n_produced e.wio blocks h2 in
    let h4 = notify_inputs (e.wio last).outputs h3 in
    let same : record e { history = h4 } ≡ e' = ok-injective made in
    subst (λ x. Posted blocks last e.history x × (x.wio ≡ e.wio)) same
      (
        (
          o,
          at-ok _ got,
          λ b.
              let (r1, w1) = post_reads_all-Adds b e.wio blocks e.history in
              let (r2, w2) =
                Extends-SameTotals h1 h2 (notify_outputs-Silent (e.wio first).inputs h1) b in
              let (r3, w3) = post_writes_all-Adds b o.n_produced e.wio blocks h2 in
              let (r4, w4) =
                Extends-SameTotals h3 h4 (notify_inputs-Silent (e.wio last).outputs h3) b in
              (omega (arith, r1, r2, r3, r4), omega (arith, w1, w2, w3, w4)),
        ),
        refl,
      )
