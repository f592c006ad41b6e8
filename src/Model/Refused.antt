-- ===== src/Model/Refused.antt =====
-- The constructor of triton_model_impl when the client or the metadata is not there:
-- blocklib/torchdsp/lib/triton_model_impl.cc, lines 86 to 104 and 225 to 234.
use gr4_torchdsp.Prelude.{◌≡◌, refl, Bool, true, String, Option, none, some}
use gr4_torchdsp.Outcome.{ok, fault, null_pointer, assertion_failed}
use gr4_torchdsp.Model.Health.{is_server_healthy}
use gr4_torchdsp.Model.Json.{Rapidjson, Client, get_model_metadata}
use gr4_torchdsp.Model.Configure.{Counters, configure, construct, make}

module _ (json : Rapidjson) (connect : String → Option Client) (name : String) (async : Bool)
    (url : String) (c : Counters) where
  -- If no client could be created, `make` does not return: the health check goes through a null
  -- pointer, since the error of the creation is dropped.
  pub make-unconnected :
      connect url ≡ none → make json connect name async url c ≡ fault null_pointer
  unfolding make construct
  make-unconnected e = rw e refl

  -- If the server is healthy and does not know the model, `make` does not return, with a library that
  -- finds no member in the document of the empty text: the error of the query is dropped, and the
  -- empty answer is read as if it had the model's inputs.
  pub make-unanswered :
      (client : Client)
      → connect url ≡ some client
      → is_server_healthy client.server ≡ ok true
      → client.model_metadata name ≡ none
      → json.get_member (json.parse "") "inputs" ≡ none
      → make json connect name async url c ≡ fault assertion_failed
  unfolding make construct configure get_model_metadata
  make-unanswered client e healthy unknown empty = rw (e, healthy) (rw unknown (rw empty refl))
