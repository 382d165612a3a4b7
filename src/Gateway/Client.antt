-- ===== src/Gateway/Client.antt =====
-- apps/gateway/src/phulax_gateway/control_plane.py: how ControlPlaneClient reads a response. A
-- transport error of the HTTP library passes through the client and is no ControlPlaneError.
use phulax.Prelude.{
  ℕ, Option, none, some, List, [], ◌∷◌, ◌==◌, leb, if◌then◌else◌, Result, ok, err, ◌>>=◌,
}
use phulax.Gateway.Calls.{Failure, control_plane_error, execution_conflict}

-- A response with its JSON body.
pub record HttpResponse (A : Type 0) : Type 0 where
  pub status_code : ℕ
  pub json : A

module _ {A : Type 0} where
  -- `_raise_for_status`, and then the body.
  unfoldable pub raise_for_status : HttpResponse A → Result Failure A
  raise_for_status response =
      if leb 400 response.status_code then err control_plane_error else ok response.json

  -- `get_agent`
  unfoldable pub get_agent : HttpResponse A → Result Failure (Option A)
  unfolding raise_for_status
  get_agent response =
      if response.status_code == 404
      then ok none
      else (raise_for_status response >>= λ json. ok (some json))

  -- `get_latest_bundle`
  unfoldable pub get_latest_bundle : HttpResponse A → Result Failure (Option A)
  unfolding raise_for_status
  get_latest_bundle response =
      if response.status_code == 404
      then ok none
      else (raise_for_status response >>= λ json. ok (some json))

  -- `tools[0] if tools else None`
  abbrev first_of : List A → Option A
  first_of [] = none
  first_of (tool ∷ tools) = some tool

  -- `claim_execution`
  unfoldable pub claim_execution : HttpResponse A → Result Failure A
  unfolding raise_for_status
  claim_execution response =
      if response.status_code == 409 then err execution_conflict else raise_for_status response

  -- `complete_execution`
  unfoldable pub complete_execution : HttpResponse A → Result Failure A
  unfolding raise_for_status
  complete_execution response =
      if response.status_code == 409 then err execution_conflict else raise_for_status response

-- `get_tool`
unfoldable pub get_tool : {A : Type 0} → HttpResponse (List A) → Result Failure (Option A)
unfolding raise_for_status
get_tool response = raise_for_status response >>= λ tools. ok (first_of tools)
