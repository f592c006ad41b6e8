-- ===== src/Buffer/Ledger.antt =====
-- What a process holds of the system and of the server after a list of calls: a description of the
-- calls of blocklib/torchdsp/lib/shm_utils.h and of the client that is independent of who makes them.
use text.Mathlib.Text
use text.Mathlib.TextPositions.{eq_refl}
use gr4_torchdsp.Prelude.{
  ℕ, ◌≡◌, refl, Bool, true, false, ◌&&◌, String, List, [], ◌∷◌, Option, none, some, ◌==◌,
  if◌then◌else◌, eqb_refl,
}
use gr4_torchdsp.Prelude.Int.{ℤ, pos, negsuc}
use gr4_torchdsp.Buffer.Calls.{
  Calls, create_client, create_region, map_memory, close_memory, register_memory, unmap_memory,
  unlink_region, unregister_memory,
}

-- An open descriptor; the name of a region; a mapping with its size; a registration at the server.
pub data Resource : Type 0 where
  descriptor : ℤ → Resource
  region_name : String → Resource
  mapping : ℕ → ℕ → Resource
  registration : String → Resource

abbrev pub eq_ℤ : ℤ → ℤ → Bool
eq_ℤ (pos a) (pos b) = a == b
eq_ℤ (negsuc a) (negsuc b) = a == b
eq_ℤ (pos a) (negsuc b) = false
eq_ℤ (negsuc a) (pos b) = false

abbrev pub same : Resource → Resource → Bool
same (descriptor a) (descriptor b) = eq_ℤ a b
same (region_name a) (region_name b) = Text.◌==◌ a b
same (mapping a n) (mapping b m) = (a == b) && (n == m)
same (registration a) (registration b) = Text.◌==◌ a b
same _ _ = false

pub same_refl : (r : Resource) → same r r ≡ true
same_refl (descriptor (pos a)) = eqb_refl a
same_refl (descriptor (negsuc a)) = eqb_refl a
same_refl (region_name a) = eq_refl a
same_refl (mapping a n) = rw (eqb_refl a, eqb_refl n) refl
same_refl (registration a) = eq_refl a

-- The list without the first entry that is the same.
unfoldable pub release : Resource → List Resource → List Resource
release r [] = []
release r (x ∷ xs) = if same r x then xs else x ∷ release r xs

-- The descriptor -1 is none.
abbrev pub is_open : ℤ → Bool
is_open (pos n) = true
is_open (negsuc n) = if n == 0 then false else true

abbrev pub map_held : Option ℕ → ℕ → List Resource → List Resource
map_held none size rs = rs
map_held (some a) size rs = mapping a size ∷ rs

abbrev pub unmap_held : Option ℕ → ℕ → List Resource → List Resource
unmap_held none size rs = rs
unmap_held (some a) size rs = release (mapping a size) rs

unfoldable pub held : Calls → List Resource
unfolding release
held [] = []
held (create_client url ∷ cs) = held cs
held (create_region path size r ∷ cs) =
    if is_open r.fd then descriptor r.fd ∷ region_name path ∷ held cs else held cs
held (map_memory fd offset size addr ∷ cs) = map_held addr size (held cs)
held (close_memory fd ∷ cs) = if is_open fd then release (descriptor fd) (held cs) else held cs
held (register_memory key path size accepted ∷ cs) =
    if accepted then registration key ∷ held cs else held cs
held (unmap_memory addr size done ∷ cs) = if done then unmap_held addr size (held cs) else held cs
held (unlink_region path done ∷ cs) = if done then release (region_name path) (held cs) else held cs
held (unregister_memory key done ∷ cs) =
    if done then release (registration key) (held cs) else held cs

abbrev pub descriptors : List Resource → List ℤ
descriptors [] = []
descriptors (descriptor fd ∷ rs) = fd ∷ descriptors rs
descriptors (_ ∷ rs) = descriptors rs
