-- ===== src/Model/Json.antt =====
-- get_model_metadata of blocklib/torchdsp/lib/triton_model_impl.cc, and the JSON readers of its
-- header, lines 115 to 130. The JSON library and the client of the server are parameters.
use gr4_torchdsp.Prelude.{ℕ, suc, String, List, [], ◌∷◌, Option, none, some}
use gr4_torchdsp.Prelude.Int.{ℤ, pos, negsuc}
use gr4_torchdsp.Outcome.{Outcome, ok, deref, asserted, ◌>>=◌}
use gr4_torchdsp.Model.Health.{Server}
use gr4_torchdsp.Model.Metadata.{IoMetadata}

-- What the code uses of rapidjson. `parse` gives a document for every text, after an error too; the
-- other four give nothing for a value of another kind, or a member that is not there, which the
-- library asserts against.
pub record Rapidjson : Type 1 where
  pub Value : Type 0
  pub parse : String → Value
  pub get_member : Value → String → Option Value
  pub get_array : Value → Option (List Value)
  pub get_string : Value → Option String
  pub get_int64 : Value → Option ℤ

-- A connected `InferenceServerHttpClient`: what the server answers to the health queries, and what
-- `ModelMetadata` writes for a model's name, if it succeeds.
pub record Client : Type 0 where
  pub server : Server
  pub model_metadata : String → Option String

-- `std::abs` of an `int64_t` above INT64_MIN
unfoldable pub abs : ℤ → ℕ
abs (pos n) = n
abs (negsuc n) = suc n

-- The error of `ModelMetadata` is dropped, and the string is then still empty.
abbrev pub answered : Option String → String
answered none = ""
answered (some text) = text

module _ (json : Rapidjson) where
  open json use {Value, parse, get_member, get_array, get_string, get_int64}

  -- `v[name].GetArray()`
  abbrev pub array_at : String → Value → Outcome (List Value)
  array_at name v = asserted (get_member v name) >>= λ member. asserted (get_array member)

  abbrev pub string_at : String → Value → Outcome String
  string_at name v = asserted (get_member v name) >>= λ member. asserted (get_string member)

  unfoldable pub read_dimensions : List Value → Outcome (List ℕ)
  unfolding abs
  read_dimensions [] = ok []
  read_dimensions (d ∷ ds) =
      asserted (get_int64 d) >>= λ n. read_dimensions ds >>= λ shape. ok (abs n ∷ shape)

  unfoldable pub parse_io_shape : Value → Outcome (List ℕ)
  unfolding read_dimensions
  parse_io_shape v = array_at "shape" v >>= read_dimensions

  unfoldable pub parse_io_name : Value → Outcome String
  parse_io_name v = string_at "name" v

  unfoldable pub parse_io_datatype : Value → Outcome String
  parse_io_datatype v = string_at "datatype" v

  -- lines 105 to 107 and 119 to 121 of the constructor
  unfoldable pub parse_io : Value → Outcome IoMetadata
  unfolding parse_io_shape parse_io_name parse_io_datatype
  parse_io v = parse_io_shape v >>= λ shape. parse_io_name v >>= λ name.
      parse_io_datatype v >>= λ datatype.
      ok (record { shape = shape; name = name; datatype = datatype })

  unfoldable pub get_model_metadata : Option Client → String → Outcome Value
  get_model_metadata client model_name =
      deref client >>= λ c. ok (parse (answered (c.model_metadata model_name)))
