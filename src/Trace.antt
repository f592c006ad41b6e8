-- ===== src/Trace.antt =====
-- Histories that grow by events of one kind.
use mathlib.Core.List.{append_assoc}
use gr4_torchdsp.Prelude.{◌≡◌, refl, sym, ap, ◌∙◌, List, [], ◌∷◌, ◌++◌, All}
use gr4_torchdsp.Runtime.{Event, History}

-- `h'` is `h` with events on top that all satisfy `P`.
abbrev pub Extends : (Event → Type 0) → History → History → Type 0
Extends P h h' = (es : List Event) × (h' ≡ es ++ h) × All P es

All-append :
    (P : Event → Type 0) (later earlier : List Event)
    → All P later
    → All P earlier
    → All P (later ++ earlier)
All-append P [] earlier top below = below
All-append P (v ∷ later) earlier (one, top) below = (one, All-append P later earlier top below)

module _ (P : Event → Type 0) where
  pub Extends-refl : (h : History) → Extends P h h
  Extends-refl h = ([], refl, tt)

  pub Extends-one : (v : Event) (h : History) → P v → Extends P h (v ∷ h)
  Extends-one v h p = (v ∷ [], refl, (p, tt))

  pub Extends-trans : (a b c : History) → Extends P a b → Extends P b c → Extends P a c
  Extends-trans a b c (xs, e, p) (ys, f, q) =
      (ys ++ xs, f ∙ ap (◌++◌ ys) e ∙ sym (append_assoc ys xs a), All-append P ys xs q p)

  pub Extends-cons : (v : Event) (a b : History) → P v → Extends P a b → Extends P a (v ∷ b)
  Extends-cons v a b p r = Extends-trans a b (v ∷ b) r (Extends-one v b p)

All-mono :
    (P Q : Event → Type 0) → ((v : Event) → P v → Q v) → (es : List Event) → All P es → All Q es
All-mono P Q f [] a = tt
All-mono P Q f (v ∷ es) a = (f v a.0, All-mono P Q f es a.1)

pub Extends-mono :
    (P Q : Event → Type 0) (a b : History)
    → ((v : Event) → P v → Q v)
    → Extends P a b
    → Extends Q a b
Extends-mono P Q a b f (es, e, p) = (es, e, All-mono P Q f es p)
