-- ===== src/Thread/Lifecycle.antt =====
-- What the scheduler's thread promises to those who start, stop and monitor it, with the queue, the
-- blocks and the places of the code left out: a diagram of its life, whether it is flushing, and how
-- often the monitor was told FLUSHED.
use gr4_torchdsp.Prelude.{ℕ, suc, ◌≡◌, refl, sym, ap, ◌∙◌, Bool, true}

-- `cancelled`: asked to stop before it was started, which it does not notice before it is started.
pub data Phase : Type 0 where
  created cancelled running stopping ended : Phase

infix 40 ◌↝◌
pub data ◌↝◌ : Phase → Phase → Type 0 where
  start_created : created ↝ running
  start_cancelled : cancelled ↝ stopping
  stop_created : created ↝ cancelled
  stop_running : running ↝ stopping
  end_stopping : stopping ↝ ended

-- The thread runs its loop.
pub data IsAwake : Phase → Type 0 where
  running_awake : IsAwake running
  stopping_awake : IsAwake stopping

pub record View : Type 0 where
  pub phase : Phase
  pub flushing : Bool
  pub told : ℕ

-- The thread's life goes on by one edge; or flushing starts, in a thread that is awake; or the
-- monitor is told FLUSHED once, by a thread that is awake and flushing; or nothing is to be seen.
infix 40 ◌⟶◌ ◌⟶*◌
pub data ◌⟶◌ (v w : View) : Type 0 where
  goes_on :
      {p q : Phase}
      → v.phase ≡ p
      → w.phase ≡ q
      → p ↝ q
      → w.flushing ≡ v.flushing
      → w.told ≡ v.told
      → v ⟶ w
  starts_flushing :
      {p : Phase}
      → v.phase ≡ p
      → w.phase ≡ p
      → IsAwake p
      → w.flushing ≡ true
      → w.told ≡ v.told
      → v ⟶ w
  tells_flushed :
      {p : Phase}
      → v.phase ≡ p
      → w.phase ≡ p
      → IsAwake p
      → v.flushing ≡ true
      → w.flushing ≡ true
      → w.told ≡ suc v.told
      → v ⟶ w
  stays : w ≡ v → v ⟶ w

pub data ◌⟶*◌ (v : View) : View → Type 0 where
  nothing : v ⟶* v
  next : {u w : View} → v ⟶* u → u ⟶ w → v ⟶* w

no_edge : {p q : Phase} → p ≡ ended → p ↝ q → ⊥
no_edge e start_created = cc
no_edge e start_cancelled = cc
no_edge e stop_created = cc
no_edge e stop_running = cc
no_edge e end_stopping = cc

not_awake : {p : Phase} → p ≡ ended → IsAwake p → ⊥
not_awake e running_awake = cc
not_awake e stopping_awake = cc

-- The end is final, and so is what was seen by then.
ended-⟶ : (v w : View) → v.phase ≡ ended → v ⟶ w → w ≡ v
ended-⟶ v w e (goes_on p q edge f t) = absurd (no_edge (sym p ∙ e) edge)
ended-⟶ v w e (starts_flushing p q awake f t) = absurd (not_awake (sym p ∙ e) awake)
ended-⟶ v w e (tells_flushed p q awake g f t) = absurd (not_awake (sym p ∙ e) awake)
ended-⟶ v w e (stays same) = same

ended-⟶* : {v w : View} → v ⟶* w → v.phase ≡ ended → w ≡ v
ended-⟶* nothing e = refl
ended-⟶* (next {u = u} {w = w} r s) e =
    let same = ended-⟶* r e in ended-⟶ u w (ap (λ x. x.phase) same ∙ e) s ∙ same
