-- ===== src/Thread/Phases.antt =====
-- The phase of its life that the thread of schedulers/triton/lib/thread_wrapper.cc is in, read off its
-- place in the code and its two flags.
use gr4_torchdsp.Prelude.{ℕ, ◌≡◌, ◌≢◌, refl, Bool, true, false}
use gr4_torchdsp.Thread.Body.{Body, Place, waiting, outer, inner, popping, working, finished}
use gr4_torchdsp.Thread.Flushing.{flushed_count}
use gr4_torchdsp.Thread.Lifecycle.{
  Phase, created, cancelled, running, stopping, ended, start_created, start_cancelled, stop_created,
  stop_running, View, ◌⟶◌, goes_on, stays,
}

-- `ready_to_start` and `thread_stopped`.
abbrev pub asked : Bool → Bool → Phase
asked false false = created
asked false true = cancelled
asked true false = running
asked true true = stopping

abbrev pub phase_at : Place → Bool → Bool → Phase
phase_at finished r s = ended
phase_at waiting r s = asked r s
phase_at outer r s = asked r s
phase_at inner r s = asked r s
phase_at popping r s = asked r s
phase_at working r s = asked r s

-- What is to be seen of the thread.
abbrev pub view : {Q : Type 0} → Body Q → View
view b = record {
  phase = phase_at b.place b.thread.ready_to_start b.thread.thread_stopped;
  flushing = b.thread.flushing;
  told = flushed_count b.thread.effects;
}

abbrev pub IsInside : Place → Type 0
IsInside waiting = ⊥
IsInside finished = ⊥
IsInside _ = Unit

pub phase_inside : (p : Place) (r s : Bool) → IsInside p → phase_at p r s ≡ asked r s
phase_inside waiting r s i = absurd i
phase_inside finished r s i = absurd i
phase_inside outer r s i = refl
phase_inside inner r s i = refl
phase_inside popping r s i = refl
phase_inside working r s i = refl

asked_ended : (r s : Bool) → asked r s ≢ ended
asked_ended false false e = cc
asked_ended false true e = cc
asked_ended true false e = cc
asked_ended true true e = cc

ended_at : (p : Place) (r s : Bool) → phase_at p r s ≡ ended → p ≡ finished
ended_at waiting r s e = absurd (asked_ended r s e)
ended_at outer r s e = absurd (asked_ended r s e)
ended_at inner r s e = absurd (asked_ended r s e)
ended_at popping r s e = absurd (asked_ended r s e)
ended_at working r s e = absurd (asked_ended r s e)
ended_at finished r s e = refl

ended_place : {Q : Type 0} (b : Body Q) → (view b).phase ≡ ended → b.place ≡ finished
ended_place b e = ended_at b.place b.thread.ready_to_start b.thread.thread_stopped e

abbrev shown : Phase → Bool → ℕ → View
shown p f n = record { phase = p; flushing = f; told = n }

asked_started : (r s f : Bool) (n : ℕ) → shown (asked r s) f n ⟶ shown (asked true s) f n
asked_started false false f n = goes_on refl refl start_created refl refl
asked_started false true f n = goes_on refl refl start_cancelled refl refl
asked_started true s f n = stays refl

asked_stopped : (r s f : Bool) (n : ℕ) → shown (asked r s) f n ⟶ shown (asked r true) f n
asked_stopped false false f n = goes_on refl refl stop_created refl refl
asked_stopped true false f n = goes_on refl refl stop_running refl refl
asked_stopped r true f n = stays refl

-- What `start` and the request to stop do to the phase, at every place.
pub started_seen :
    (p : Place) (r s f : Bool) (n : ℕ) → shown (phase_at p r s) f n ⟶ shown (phase_at p true s) f n
started_seen waiting r s f n = asked_started r s f n
started_seen outer r s f n = asked_started r s f n
started_seen inner r s f n = asked_started r s f n
started_seen popping r s f n = asked_started r s f n
started_seen working r s f n = asked_started r s f n
started_seen finished r s f n = stays refl

pub stopped_seen :
    (p : Place) (r s f : Bool) (n : ℕ) → shown (phase_at p r s) f n ⟶ shown (phase_at p r true) f n
stopped_seen waiting r s f n = asked_stopped r s f n
stopped_seen outer r s f n = asked_stopped r s f n
stopped_seen inner r s f n = asked_stopped r s f n
stopped_seen popping r s f n = asked_stopped r s f n
stopped_seen working r s f n = asked_stopped r s f n
stopped_seen finished r s f n = stays refl
