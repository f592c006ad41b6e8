-- ===== src/Tests/Json.antt =====
-- A JSON library that meets the interface of Model.Json, with a parser that knows one text, and a
-- client whose server runs the model that the text describes.
use package.text.Mathlib.Text.{◌==◌}
use gr4_torchdsp.Prelude.{true, String, List, [], ◌∷◌, Option, none, some, if◌then◌else◌}
use gr4_torchdsp.Prelude.Int.{ℤ, pos, negsuc}
use gr4_torchdsp.Model.Health.{Reply, Server}
use gr4_torchdsp.Model.Json.{Rapidjson, Client}

mutual
  pub data Json : Type 0 where
    null : Json
    text : String → Json
    number : ℤ → Json
    array : Elements → Json
    object : Members → Json

  pub data Elements : Type 0 where
    end : Elements
    element : Json → Elements → Elements

  pub data Members : Type 0 where
    empty : Members
    member : String → Json → Members → Members

abbrev values : Elements → List Json
values end = []
values (element v vs) = v ∷ values vs

abbrev find : String → Members → Option Json
find name empty = none
find name (member n v ms) = let rest = find name ms in if n == name then some v else rest

abbrev member_of : Json → String → Option Json
member_of (object ms) name = find name ms
member_of _ name = none

abbrev values_of : Json → Option (List Json)
values_of (array vs) = some (values vs)
values_of _ = none

abbrev text_of : Json → Option String
text_of (text s) = some s
text_of _ = none

abbrev number_of : Json → Option ℤ
number_of (number n) = some n
number_of _ = none

-- A batch of any size of 4 floats.
abbrev pub floats : Json
floats = object (
    member "name" (text "x") (
      member "datatype" (text "FP32") (
        member "shape" (array (element (number (negsuc 0)) (element (number (pos 4)) end))) empty)))

abbrev document : Json
document = object (
    member "inputs" (array (element floats (element floats end)))
      (member "outputs" (array (element floats end)) empty))

abbrev parse_text : String → Json
parse_text s = if s == "add.json" then document else null

abbrev pub library : Rapidjson
library = record {
  Value = Json;
  parse = parse_text;
  get_member = member_of;
  get_array = values_of;
  get_string = text_of;
  get_int64 = number_of;
}

abbrev good : Reply
good = record { is_ok = true; flag = some true }

abbrev pub healthy : Server
healthy = record { is_server_live = good; is_server_ready = good }

abbrev stored : String → Option String
stored name = if name == "add" then some "add.json" else none

abbrev pub client : Client
client = record { server = healthy; model_metadata = stored }

abbrev pub connected : String → Option Client
connected url = some client
