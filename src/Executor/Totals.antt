-- ===== src/Executor/Totals.antt =====
-- What an iteration has posted to a buffer, counted from the calls alone, and what the blocks'
-- `work_io` says of it: an independent account of lines 255 to 288 of
-- schedulers/triton/lib/graph_executor.cc.
use gr4_torchdsp.Prelude.{
  ℕ, ◌+◌, ◌≡◌, refl, List, [], ◌∷◌, ◌++◌, Option, none, some, ◌==◌, if◌then◌else◌, arith, All,
}
use gr4_torchdsp.Runtime.{Event, History, Input, Output, WorkIo, post_read, post_write}
use gr4_torchdsp.Trace.{Extends}

abbrev pub read_of : ℕ → Event → ℕ
read_of b (post_read c n) = if c == b then n else 0
read_of b _ = 0

abbrev pub write_of : ℕ → Event → ℕ
write_of b (post_write c n) = if c == b then n else 0
write_of b _ = 0

-- The items posted as read from buffer `b`, and as written to it.
abbrev pub reads_posted : ℕ → History → ℕ
reads_posted b [] = 0
reads_posted b (v ∷ h) = read_of b v + reads_posted b h

abbrev pub writes_posted : ℕ → History → ℕ
writes_posted b [] = 0
writes_posted b (v ∷ h) = write_of b v + writes_posted b h

abbrev pub is_buffer : {A : Type 0} → ℕ → Option ℕ → A → A → A
is_buffer b none ours other = other
is_buffer b (some c) ours other = if c == b then ours else other

-- The items consumed at inputs that read buffer `b`, and `np` for each output that writes to it.
abbrev pub consumed : ℕ → List Input → ℕ
consumed b [] = 0
consumed b (w ∷ ws) = is_buffer b w.bufp w.n_consumed 0 + consumed b ws

abbrev pub fed : ℕ → ℕ → List Output → ℕ
fed np b [] = 0
fed np b (w ∷ ws) = is_buffer b w.bufp np 0 + fed np b ws

abbrev pub consumed_all : ℕ → (ℕ → WorkIo) → List ℕ → ℕ
consumed_all b wio [] = 0
consumed_all b wio (k ∷ ks) = consumed b (wio k).inputs + consumed_all b wio ks

abbrev pub fed_all : ℕ → ℕ → (ℕ → WorkIo) → List ℕ → ℕ
fed_all np b wio [] = 0
fed_all np b wio (k ∷ ks) = fed np b (wio k).outputs + fed_all np b wio ks

-- Any call but a post.
abbrev pub Silent : Event → Type 0
Silent (post_read b n) = ⊥
Silent (post_write b n) = ⊥
Silent _ = Unit

read_of-Silent : (b : ℕ) (v : Event) → Silent v → read_of b v ≡ 0
read_of-Silent b (post_read c n) s = absurd s
read_of-Silent b _ s = refl

write_of-Silent : (b : ℕ) (v : Event) → Silent v → write_of b v ≡ 0
write_of-Silent b (post_write c n) s = absurd s
write_of-Silent b _ s = refl

-- The same has been posted.
abbrev pub SameTotals : History → History → Type 0
SameTotals h h' =
    (b : ℕ) → (reads_posted b h' ≡ reads_posted b h) × (writes_posted b h' ≡ writes_posted b h)

SameTotals-append : (es : List Event) (h : History) → All Silent es → SameTotals h (es ++ h)
SameTotals-append [] h s b = (refl, refl)
SameTotals-append (v ∷ es) h s b =
    let rest = SameTotals-append es h s.1 b in
    let read = read_of-Silent b v s.0 in
    let written = write_of-Silent b v s.0 in
    (omega (arith, rest.0, read), omega (arith, rest.1, written))

pub Extends-SameTotals : (h h' : History) → Extends Silent h h' → SameTotals h h'
Extends-SameTotals h h' (es, e, s) b = rw e (SameTotals-append es h s b)
