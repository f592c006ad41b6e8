-- ===== src/Thread/Flushing.antt =====
-- The flushing that starts when the runtime monitor says DONE: thread_wrapper.cc, lines 88 to 138.
use mathlib.Core.List.{append_assoc, append-nil}
use gr4_torchdsp.Prelude.{
  ℕ, suc, ◌+◌, ◌-◌, ◌≤◌, ◌<◌, ◌≡◌, refl, sym, ap, ◌∙◌, true, false, List, [], ◌∷◌, ◌++◌, arith,
  length,
}
use gr4_torchdsp.Runtime.{Status}
use gr4_torchdsp.Channel.{Channel, Message, scheduler_action, notify_all}
use gr4_torchdsp.Thread.State.{Thread, Effect, rtmon_flushed, start_flushing}
use gr4_torchdsp.Prelude.Int.{size_mod}
use gr4_torchdsp.Thread.Work.{after_iteration}

-- How often the monitor was told that the thread is flushed.
abbrev pub flushed_count : List Effect → ℕ
flushed_count [] = 0
flushed_count (rtmon_flushed i ∷ es) = suc (flushed_count es)
flushed_count (_ ∷ es) = flushed_count es

abbrev pub notify_alls : List Status → List Message
notify_alls [] = []
notify_alls (s ∷ ss) = scheduler_action notify_all ∷ notify_alls ss

module _ (ch : Channel) where
  open ch use {Queue, contents, push, contents-push}

  -- What the thread is after one call of `handle_work_notification` for each of these statuses.
  pub iterate : List Status → Thread Queue → Thread Queue
  iterate [] t = t
  iterate (s ∷ ss) t = iterate ss (after_iteration ch s t).1

  abbrev pub Flushing : Thread Queue → Type 0
  Flushing t = (t.flushing ≡ true) × (t.opts.flush ≡ true) × (t.opts.flush_count < size_mod)

  abbrev pub Counted : Thread Queue → Thread Queue → Type 0
  Counted t u =
      (u.flush_cnt ≡ suc t.flush_cnt)
      × (u.msgq ≡ push t.msgq (scheduler_action notify_all))
      × (flushed_count u.effects ≡ flushed_count t.effects)
      × (u.flushing ≡ t.flushing)
      × (u.opts ≡ t.opts)

  pub after_iteration-counts :
      (s : Status) (t : Thread Queue)
      → Flushing t
      → suc t.flush_cnt < t.opts.flush_count
      → Counted t (after_iteration ch s t).1
  unfolding after_iteration
  after_iteration-counts s t f h = ground arith

  pub after_iteration-flushes :
      (s : Status) (t : Thread Queue)
      → Flushing t
      → t.opts.flush_count ≤ suc t.flush_cnt
      → suc t.flush_cnt < size_mod
      → ((after_iteration ch s t).0 ≡ false)
        × (flushed_count (after_iteration ch s t).1.effects ≡ suc (flushed_count t.effects))
        × ((after_iteration ch s t).1.msgq ≡ t.msgq)
  unfolding after_iteration
  after_iteration-flushes s t f h b = ground arith

  abbrev Iterated : List Status → Thread Queue → Thread Queue → Type 0
  Iterated ss t u =
      (u.flush_cnt ≡ t.flush_cnt + length ss)
      × (contents u.msgq ≡ contents t.msgq ++ notify_alls ss)
      × (flushed_count u.effects ≡ flushed_count t.effects)
      × (u.flushing ≡ t.flushing)
      × (u.opts ≡ t.opts)

  iterate-counts :
      (ss : List Status) (t : Thread Queue)
      → Flushing t
      → t.flush_cnt + length ss ≤ t.opts.flush_count - 1
      → Iterated ss t (iterate ss t)
  unfolding iterate
  iterate-counts [] t f h = (omega arith, sym (append-nil (contents t.msgq)), refl, refl, refl)
  iterate-counts (s ∷ ss) t f h =
      let u = (after_iteration ch s t).1 in
      let (cnt, queue, told, flushing, opts) = after_iteration-counts s t f (omega arith) in
      let kept : Flushing u = (flushing ∙ f.0, ap (λ o. o.flush) opts ∙ f.1, rw opts f.2) in
      let (cnts, queues, tolds, flushings, optss) =
        iterate-counts ss u kept (rw (cnt, opts) (omega arith)) in
      (
        omega arith,
        queues
            ∙ ap (λ q. contents q ++ notify_alls ss) queue
            ∙ ap (λ c. c ++ notify_alls ss) (contents-push t.msgq (scheduler_action notify_all))
            ∙ append_assoc (contents t.msgq) (scheduler_action notify_all ∷ []) (notify_alls ss),
        tolds ∙ told,
        flushings ∙ flushing,
        optss ∙ opts,
      )

  -- If the option `flush` is set, then once `start_flushing` has run the monitor is told FLUSHED at the `flush_count`-th work
  -- notification (the first, if the count is 0) and not before, whatever the iterations return: the
  -- statuses are not looked at. Every earlier notification queues the next one, NOTIFY_ALL.
  pub start_flushing-flushed :
      (t : Thread Queue) (ss : List Status) (s : Status)
      → t.opts.flush ≡ true
      → t.opts.flush_count < size_mod
      → length ss ≡ t.opts.flush_count - 1
      → let u = iterate ss (start_flushing ch t) in
        (flushed_count u.effects ≡ flushed_count t.effects)
        × (contents u.msgq ≡ contents t.msgq ++ scheduler_action notify_all ∷ notify_alls ss)
        × (flushed_count (after_iteration ch s u).1.effects ≡ suc (flushed_count t.effects))
        × ((after_iteration ch s u).0 ≡ false)
        × ((after_iteration ch s u).1.msgq ≡ u.msgq)
  unfolding start_flushing
  start_flushing-flushed t ss s on bound n =
      let t0 = start_flushing ch t in
      let u = iterate ss t0 in
      let (cnt, queue, told, flushing, opts) =
        iterate-counts ss t0 (refl, on, bound) (omega arith) in
      let (stops, more, same) =
        after_iteration-flushes s u (flushing, ap (λ o. o.flush) opts ∙ on, rw opts bound)
          (rw (opts, cnt) (omega arith)) (rw cnt (omega arith)) in
      (
        told,
        queue
            ∙ ap (λ c. c ++ notify_alls ss) (contents-push t.msgq (scheduler_action notify_all))
            ∙ append_assoc (contents t.msgq) (scheduler_action notify_all ∷ []) (notify_alls ss),
        more ∙ ap suc told,
        stops,
        same,
      )
