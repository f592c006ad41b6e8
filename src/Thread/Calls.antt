-- ===== src/Thread/Calls.antt =====
-- The calls that the loops over the blocks in schedulers/triton/lib/thread_wrapper.cc make, lines 30
-- to 32 (`start`) and 48 to 50 (`stop`), as a list.
use mathlib.Core.List.{reverse, reverse_aux, reverse_aux-eq}
use gr4_torchdsp.Prelude.{ℕ, ◌≡◌, refl, ◌∙◌, List, [], ◌∷◌, ◌++◌, map}
use gr4_torchdsp.Runtime.{Event, History, block_start, block_stop}
use gr4_torchdsp.Thread.State.{start_all, stop_all}

-- The same call of each block, once, in the order of the blocks, on top of a history.
abbrev pub each_in_order : (ℕ → Event) → List ℕ → History → History
each_in_order call bs h = reverse (map call bs) ++ h

start_all-onto : (bs : List ℕ) (h : History) → start_all bs h ≡ reverse_aux (map block_start bs) h
unfolding start_all
start_all-onto [] h = refl
start_all-onto (b ∷ bs) h = start_all-onto bs (block_start b ∷ h)

stop_all-onto : (bs : List ℕ) (h : History) → stop_all bs h ≡ reverse_aux (map block_stop bs) h
unfolding stop_all
stop_all-onto [] h = refl
stop_all-onto (b ∷ bs) h = stop_all-onto bs (block_stop b ∷ h)

pub start_all-order : (bs : List ℕ) (h : History) → start_all bs h ≡ each_in_order block_start bs h
start_all-order bs h = start_all-onto bs h ∙ reverse_aux-eq (map block_start bs) h

pub stop_all-order : (bs : List ℕ) (h : History) → stop_all bs h ≡ each_in_order block_stop bs h
stop_all-order bs h = stop_all-onto bs h ∙ reverse_aux-eq (map block_stop bs) h
