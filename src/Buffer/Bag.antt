-- ===== src/Buffer/Bag.antt =====
-- Resources up to their order: how often each is held, for the calls of
-- blocklib/torchdsp/lib/buffer_triton.cc.
use text.Mathlib.TextEquality.{eq_iff}
use mathlib.Core.Quot.{Quot}
use gr4_torchdsp.Prelude.{
  ℕ, ◌+◌, ◌≤◌, ◌<◌, ◌≡◌, refl, ap, true, List, [], ◌∷◌, ◌++◌, if◌then◌else◌, arith, inl, inr,
  Bool-cases,
}
use gr4_torchdsp.Prelude.Int.{ℤ, pos, negsuc}
use gr4_torchdsp.Buffer.Ledger.{
  Resource, descriptor, region_name, mapping, registration, eq_ℤ, same, same_refl, release,
}

abbrev pub count : Resource → List Resource → ℕ
count r [] = 0
count r (x ∷ xs) = (if same r x then 1 else 0) + count r xs

-- The same resources, each as often.
abbrev pub SameResources : List Resource → List Resource → Type 0
SameResources xs ys = (r : Resource) → count r xs ≡ count r ys

abbrev pub Bag : Type 0
Bag = Quot SameResources

abbrev pub bag : List Resource → Bag
bag = Quot.mk

pub count-append :
    (r : Resource) (xs ys : List Resource) → count r (xs ++ ys) ≡ count r xs + count r ys
count-append r [] ys = omega arith
count-append r (x ∷ xs) ys = omega (arith, count-append r xs ys)

eq_ℤ-eq : (a b : ℤ) → eq_ℤ a b ≡ true → a ≡ b
eq_ℤ-eq (pos a) (pos b) h = ground arith
eq_ℤ-eq (negsuc a) (negsuc b) h = ground arith
eq_ℤ-eq (pos a) (negsuc b) h = cc
eq_ℤ-eq (negsuc a) (pos b) h = cc

same-eq : (a b : Resource) → same a b ≡ true → a ≡ b
same-eq (descriptor a) (descriptor b) h = ap descriptor (eq_ℤ-eq a b h)
same-eq (region_name a) (region_name b) h = ap region_name ((eq_iff a b).0 h)
same-eq (mapping a n) (mapping b m) h = ground arith
same-eq (registration a) (registration b) h = ap registration ((eq_iff a b).0 h)
same-eq (descriptor a) (region_name b) h = cc
same-eq (descriptor a) (mapping b m) h = cc
same-eq (descriptor a) (registration b) h = cc
same-eq (region_name a) (descriptor b) h = cc
same-eq (region_name a) (mapping b m) h = cc
same-eq (region_name a) (registration b) h = cc
same-eq (mapping a n) (descriptor b) h = cc
same-eq (mapping a n) (region_name b) h = cc
same-eq (mapping a n) (registration b) h = cc
same-eq (registration a) (descriptor b) h = cc
same-eq (registration a) (region_name b) h = cc
same-eq (registration a) (mapping b m) h = cc

-- Giving back a resource that is held takes it off the count, and no other.
pub count-release :
    (r x : Resource) (xs : List Resource) → 0 < count x xs → count r (x ∷ release x xs) ≡ count r xs
unfolding release
count-release r x [] h = absurd (omega arith)
count-release r x (y ∷ ys) h = elim (Bool-cases (same x y)) [
  | inl it ↦ rw it (rw (same-eq x y it) refl)
  | inr other ↦
      let kept : 0 < 0 + count x ys = rw other at h in
      let more : 0 < count x ys = omega arith in
      let rest = count-release r x ys more in rw other (omega (arith, rest))
]

-- Giving back takes at most that off the count.
pub count-release_le :
    (r x : Resource) (xs : List Resource) → count r xs ≤ count r (x ∷ release x xs)
unfolding release
count-release_le r x [] = omega arith
count-release_le r x (y ∷ ys) = elim (Bool-cases (same x y)) [
  | inl it ↦ rw it (rw (same-eq x y it) (omega arith))
  | inr other ↦ let rest = count-release_le r x ys in rw other (omega (arith, rest))
]

unfoldable pub release_all : List Resource → List Resource → List Resource
release_all [] xs = xs
release_all (o ∷ os) xs = release o (release_all os xs)

pub count-release_all :
    (os xs : List Resource)
    → ((r : Resource) → count r os ≤ count r xs)
    → (r : Resource) → count r (release_all os xs) + count r os ≡ count r xs
unfolding release_all
count-release_all [] xs h r = omega arith
count-release_all (o ∷ os) xs h r =
    let rest = count-release_all os xs (λ q. omega (arith, h q)) in
    let there : 0 < count o (release_all os xs) =
      let once : count o (o ∷ os) ≡ 1 + count o os = rw (same_refl o) refl in
      omega (arith, once, h o, rest o) in
    omega (arith, count-release r o (release_all os xs) there, rest r)
