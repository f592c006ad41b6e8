-- ===== src/Model/Sizes.antt =====
-- The sizes that allocate_shm of blocklib/torchdsp/lib/triton_model_impl.cc computes.
use native.Mathlib.Nat.{add-mul-mod_self_right, mod-add-div', add-mul, mul_assoc, mul_comm, mul-one}
use gr4_torchdsp.Prelude.{
  ℕ, ◌+◌, ◌*◌, ◌/◌, ◌%◌, ◌≤◌, ◌<◌, zero, suc, ◌≡◌, sym, ap, ◌∙◌, List, [], ◌∷◌, arith, String, ◌⊎◌,
  inl, inr,
}
use gr4_torchdsp.Prelude.Int.{size_mod}
use gr4_torchdsp.Model.Metadata.{
  IoMetadata, num_elements_from, num_elements, itemsize, allocate_shm,
}

-- The first number past an `int64_t`.
abbrev pub int64_end : ℕ
int64_end = 9223372036854775808

-- The number of elements of a tensor, without a bound.
abbrev pub product : List ℕ → ℕ
product [] = 1
product (d ∷ ds) = d * product ds

-- None of the products on the way overflows an `int64_t`.
abbrev pub StaysBelow : ℕ → List ℕ → Type 0
StaysBelow n [] = Unit
StaysBelow n (d ∷ ds) = (n * d < int64_end) × StaysBelow (n * d) ds

mod-mul : (a b m : ℕ) → ((a % m) * b) % m ≡ (a * b) % m
mod-mul a b m =
    let split : ((a % m) * b + (a / m * b) * m) ≡ a * b =
      ap (λ x. (a % m) * b + x)
        (mul_assoc (a / m) b m ∙ ap (λ x. a / m * x) (mul_comm b m) ∙ sym (mul_assoc (a / m) m b))
      ∙ sym (add-mul (a % m) (a / m * m) b)
      ∙ ap (λ x. x * b) (mod-add-div' a m) in
    sym (add-mul-mod_self_right ((a % m) * b) (a / m * b) m) ∙ ap (λ x. x % m) split

num_elements_from-modulo :
    (shape : List ℕ) (n b : ℕ)
    → (num_elements_from n shape * b) % size_mod ≡ (n * product shape * b) % size_mod
unfolding num_elements_from
num_elements_from-modulo [] n b = ap (λ x. x * b % size_mod) (sym (mul-one n))
num_elements_from-modulo (d ∷ ds) n b =
    num_elements_from-modulo ds ((n * d) % size_mod) b
    ∙ ap (λ x. x % size_mod) (mul_assoc ((n * d) % size_mod) (product ds) b)
    ∙ mod-mul (n * d) (product ds * b) size_mod
    ∙ ap (λ x. x % size_mod)
        (sym (mul_assoc (n * d) (product ds) b) ∙ ap (λ x. x * b) (mul_assoc n d (product ds)))

itemsize_le : (t : String) → itemsize t ≤ 4
unfolding itemsize
itemsize_le t = ground arith

factor_positive : (n s : ℕ) → ((n * s) % size_mod ≡ 0) ⊎ (0 < s)
factor_positive n zero = inl (omega arith)
factor_positive n (suc s) = inr (omega arith)

-- The same with the value that the model gives to a product that overflows.
pub allocate_shm-modulo :
    (m : IoMetadata) (segment : ℕ)
    → let mem = (allocate_shm m segment).0 in
      (mem.element_byte_size ≡ (product m.shape * mem.item_size) % size_mod)
      × (mem.item_size ≤ 4)
      × ((mem.element_byte_size ≡ 0) ⊎ (0 < mem.item_size))
unfolding allocate_shm num_elements
allocate_shm-modulo m segment = (
  num_elements_from-modulo m.shape 1 (itemsize m.datatype)
      ∙ ap (λ x. x * itemsize m.datatype % size_mod)
          (mul_comm 1 (product m.shape) ∙ mul-one (product m.shape)),
  itemsize_le m.datatype,
  factor_positive (num_elements m.shape) (itemsize m.datatype),
)
