-- ===== src/Model/Metadata.antt =====
-- What triton_model_impl computes from a model's metadata: num_elements, itemsize and allocate_shm of
-- blocklib/torchdsp/lib/triton_model_impl.cc, with the two structs of its header.
use Prim.Native.String
use text.Mathlib.Text.{◌==◌}
use gr4_torchdsp.Prelude.{
  ℕ, zero, suc, ◌+◌, ◌*◌, ◌/◌, ◌%◌, ◌≡◌, refl, String, List, [], ◌∷◌, if◌then◌else◌, ltb,
}
use gr4_torchdsp.Prelude.Int.{size_mod}

-- Dimensions are `int64_t`, none of them negative once read.
pub record IoMetadata : Type 0 where
  pub shape : List ℕ
  pub name : String
  pub datatype : String

-- The address in `data_ptr` is the same for all, and never used.
pub record IoMemory : Type 0 where
  pub item_size : ℕ
  pub element_byte_size : ℕ
  pub shm_key : String

-- An `int64_t` product, read as `size_t`. An overflow of it is undefined in the source: the value
-- given here then, which wraps, stands for nothing.
unfoldable pub num_elements_from : ℕ → List ℕ → ℕ
num_elements_from n [] = n
num_elements_from n (d ∷ ds) = num_elements_from ((n * d) % size_mod) ds

unfoldable pub num_elements : List ℕ → ℕ
unfolding num_elements_from
num_elements shape = num_elements_from 1 shape

unfoldable pub itemsize : String → ℕ
itemsize t =
    if t == "FP32"
    then 4
    else if t == "FLOAT32"
    then 4
    else if t == "INT32"
    then 4
    else if t == "INT16"
    then 2
    else if t == "INT8"
    then 1
    else 0

digit : ℕ → String
digit d =
    if ltb d 1
    then "0"
    else if ltb d 2
    then "1"
    else if ltb d 3
    then "2"
    else if ltb d 4
    then "3"
    else if ltb d 5
    then "4"
    else if ltb d 6
    then "5"
    else if ltb d 7
    then "6"
    else if ltb d 8
    then "7"
    else if ltb d 9
    then "8"
    else "9"

to_string_fuel : ℕ → ℕ → String
unfolding digit
to_string_fuel zero n = ""
to_string_fuel (suc f) n =
    let rest = to_string_fuel f (n / 10) in
    if ltb n 10 then digit n else String.◌++◌ rest (digit (n % 10))

-- `std::to_string` of an unsigned number: it has at most ten digits.
unfoldable pub to_string : ℕ → String
unfolding to_string_fuel
to_string n = to_string_fuel 10 n

-- The `static` segment number comes in and goes out.
unfoldable pub allocate_shm : IoMetadata → ℕ → IoMemory × ℕ
unfolding num_elements itemsize to_string
allocate_shm m segment = (
  record {
    item_size = itemsize m.datatype;
    element_byte_size = (num_elements m.shape * itemsize m.datatype) % size_mod;
    shm_key = String.◌++◌ (String.◌++◌ "/gr_" m.name) (to_string segment);
  },
  (segment + 1) % 4294967296,
)

to_string_runs : to_string 4096 ≡ "4096"
unfolding to_string
to_string_runs = refl
