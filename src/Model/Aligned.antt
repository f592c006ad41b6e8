-- ===== src/Model/Aligned.antt =====
-- The lists that a triton_model_impl keeps beside each other: one entry each per input and per output
-- of the model.
use gr4_torchdsp.Prelude.{
  ℕ, ◌<◌, ◌≡◌, refl, subst, Bool, false, String, List, [], ◌∷◌, ◌++◌, Option, none, some, length,
  length-append, All, arith, ◌==◌, zero, suc, if◌then◌else◌, if_ind, Bool-cases, inl, inr,
}
use gr4_torchdsp.Prelude.Int.{to_int, is_zero}
use gr4_torchdsp.Outcome.{Outcome, ok, deref, >>=-eq-ok, Holds, Holds->>=, Holds-seq, Holds-ok}
use gr4_torchdsp.Model.Health.{is_server_healthy}
use gr4_torchdsp.Model.Metadata.{IoMemory, allocate_shm}
use gr4_torchdsp.Model.Json.{Rapidjson, Client, array_at, parse_io, get_model_metadata}
use gr4_torchdsp.Model.Configure.{
  Model, Counters, blank, configure_inputs, configure_outputs, configure, construct, make,
  get_num_inputs,
}

abbrev pub Sized : IoMemory → Type 0
Sized m = 0 < m.element_byte_size

abbrev pub Aligned : Model → Type 0
Aligned o =
    (length o.input_ptrs ≡ length o.inputs)
    × (length o.registered_input_names ≡ length o.inputs)
    × (length o.output_ptrs ≡ length o.outputs)
    × (length o.registered_output_names ≡ length o.outputs)
    × All Sized o.inputs
    × All Sized o.outputs

snoc-length {ℓ κ} :
    {A : Type ℓ} {B : Type κ} (xs : List A) (ys : List B) (x : A) (y : B)
    → length xs ≡ length ys
    → length (xs ++ x ∷ []) ≡ length (ys ++ y ∷ [])
snoc-length xs ys x y e = omega (arith, length-append xs (x ∷ []), length-append ys (y ∷ []))

All-snoc :
    (P : IoMemory → Type 0) (xs : List IoMemory) (y : IoMemory)
    → All P xs
    → P y
    → All P (xs ++ y ∷ [])
All-snoc P [] y a p = (p, a)
All-snoc P (x ∷ xs) y a p = (a.0, All-snoc P xs y a.1 p)

-- The loops go on with the rest only after an entry that has bytes.
pub if_zero_ind {ℓ κ} :
    {A : Type ℓ} (n : ℕ) (P : A → Type κ) (x y : A)
    → P x
    → (0 < n → P y)
    → P (if n == 0 then x else y)
if_zero_ind zero P x y p q = p
if_zero_ind (suc n) P x y p q =
    let nonzero : (suc n == 0) ≡ false = ground arith in rw nonzero (q (omega arith))

abbrev Configured : Model × Counters → Type 0
Configured r = Aligned r.0

some_input : (n : ℕ) → is_zero (to_int n) ≡ false → 0 < n
unfolding to_int
some_input n h = ground arith

picked :
    (m o : Model) (k c : Counters)
    → ◌≡◌ {A = Outcome (Option Model × Counters)}
        (ok (if is_zero (get_num_inputs m) then none else some m, k))
        (ok (some o, c))
    → (0 < length m.inputs) × (m ≡ o)
unfolding get_num_inputs
picked m o k c e = elim (Bool-cases (is_zero (to_int (length m.inputs)))) [
  | inl none_there ↦ absurd (ground (arith, none_there))
  | inr there ↦ (some_input (length m.inputs) there, ground (arith, there))
]

module _ (json : Rapidjson) where
  open json use {Value}

  configure_inputs-Aligned :
      (js : List Value) (o : Model) (c : Counters)
      → Aligned o
      → Holds Configured (configure_inputs json js o c)
  unfolding configure_inputs
  configure_inputs-Aligned [] o c a = a
  configure_inputs-Aligned (j ∷ js) o c a = Holds->>= Configured (parse_io json j) _ (λ m.
      let mem = (allocate_shm m c.segment_number).0 in
      if_zero_ind mem.element_byte_size (Holds Configured) _ _ a (λ sized.
        configure_inputs-Aligned js _ _ (
          snoc-length _ _ _ _ a.0,
          snoc-length _ _ _ _ a.1,
          a.2,
          a.3,
          All-snoc Sized o.inputs mem a.4 sized,
          a.5,
        )))

  configure_outputs-Aligned :
      (js : List Value) (o : Model) (c : Counters)
      → Aligned o
      → Holds Configured (configure_outputs json js o c)
  unfolding configure_outputs
  configure_outputs-Aligned [] o c a = a
  configure_outputs-Aligned (j ∷ js) o c a = Holds->>= Configured (parse_io json j) _ (λ m.
      let mem = (allocate_shm m c.segment_number).0 in
      if_zero_ind mem.element_byte_size (Holds Configured) _ _ a (λ sized.
        configure_outputs-Aligned js _ _ (
          a.0,
          a.1,
          snoc-length _ _ _ _ a.2,
          snoc-length _ _ _ _ a.3,
          a.4,
          All-snoc Sized o.outputs mem a.5 sized,
        )))

  configure-Aligned :
      (name : String) (o : Model) (c : Counters)
      → Aligned o
      → Holds Configured (configure json name o c)
  unfolding configure
  configure-Aligned name o c a =
      Holds->>= Configured (get_model_metadata json o.client name) _ (λ document.
        Holds->>= Configured (array_at json "inputs" document) _ (λ ins.
          Holds-seq Configured Configured (configure_inputs json ins o c) _
            (configure_inputs-Aligned ins o c a)
            (λ (o', c') a'. Holds->>= Configured (array_at json "outputs" document) _ (λ outs.
              Holds-seq Configured Configured (configure_outputs json outs o' c') _
                (configure_outputs-Aligned outs o' c' a') (λ r a''. a'')))))

  construct-Aligned :
      (connect : String → Option Client) (name : String) (async : Bool) (url : String)
      (c : Counters)
      → Holds Configured (construct json connect name async url c)
  unfolding construct
  construct-Aligned connect name async url c =
      let o = blank (connect url) name (some async) in
      let empty : Aligned o = (refl, refl, refl, refl, tt, tt) in
      Holds->>= Configured (deref o.client) _ (λ client.
        Holds->>= Configured (is_server_healthy client.server) _ (λ healthy.
          if_ind (Holds Configured) healthy (configure json name o c) (ok (o, c))
            (configure-Aligned name o c empty) empty))

  -- A model that `make` hands out has at least one input; each of its inputs and of its outputs has
  -- its pointer, its registered name and a number of bytes above zero.
  pub make-Aligned :
      (connect : String → Option Client) (name : String) (async : Bool) (url : String)
      (c c' : Counters) (o : Model)
      → make json connect name async url c ≡ ok (some o, c')
      → (0 < length o.inputs) × Aligned o
  unfolding make
  make-Aligned connect name async url c c' o e =
      let ((m, k), first, second) = >>=-eq-ok (construct json connect name async url c) _ e in
      let kept = Holds-ok Configured first (construct-Aligned connect name async url c) in
      let (positive, same) = picked m o k c' second in
      subst (λ x. (0 < length x.inputs) × Aligned x) same (positive, kept)
