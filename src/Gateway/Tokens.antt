-- ===== src/Gateway/Tokens.antt =====
-- apps/gateway/src/phulax_gateway/tokens.py: the validation of a token. `decode` is jwt.decode with
-- the algorithm and the required claims of the code, at a time, on a token, a key and an audience;
-- `read_id` is `uuid.UUID` of a text, `none` where it raises a ValueError.
use phulax.Prelude.{ℕ, String, Option, none, some, Result, ok, err}
use phulax.Value.{null, str, Value, scalar, Fields, get}
use phulax.Gateway.Calls.{Claims}

-- The exceptions of the library, by the branch that catches them.
pub data JwtError : Type 0 where
  expired_signature invalid_audience missing_required_claim invalid_token : JwtError

-- A TokenError by its code; and what the code does not catch or check: a claim that is missing
-- although it is required, an id that is neither a text nor null (`uuid.UUID` raises an
-- AttributeError), and a version or an environment that is no text.
pub data TokenFailure : Type 0 where
  token_error : String → TokenFailure
  key_error attribute_error not_text : TokenFailure

abbrev pub error_code : JwtError → String
error_code expired_signature = "token_expired"
error_code invalid_audience = "wrong_audience"
error_code missing_required_claim = "missing_claim"
error_code invalid_token = "invalid_token"

module _ {F : Type 0} (read_id : String → Option ℕ) where
  -- `uuid.UUID`
  abbrev pub uuid_of : Value F → Result TokenFailure ℕ
  uuid_of (scalar (str s)) = elim (read_id s) [
    | none ↦ err (token_error "invalid_claims")
    | some id ↦ ok id
  ]
  uuid_of (scalar null) = err (token_error "invalid_claims")
  uuid_of v = err attribute_error

  -- `uuid.UUID(payload[key])`
  abbrev pub id_claim : Fields F → String → Result TokenFailure ℕ
  id_claim payload key = elim (get payload key) [ none ↦ err key_error | some v ↦ uuid_of v ]

  -- `payload[key]`
  abbrev pub text_of : Option (Value F) → Result TokenFailure String
  text_of none = err key_error
  text_of (some (scalar (str s))) = ok s
  text_of (some v) = err not_text

  -- The claims, read in the order of the code.
  unfoldable pub read_claims : Fields F → Result TokenFailure Claims
  read_claims payload = elim (id_claim payload "sub") [
    | err e ↦ err e
    | ok agent_id ↦ elim (id_claim payload "org") [
      | err e ↦ err e
      | ok org_id ↦ elim (id_claim payload "avid") [
        | err e ↦ err e
        | ok agent_version_id ↦ elim (text_of (get payload "ver")) [
          | err e ↦ err e
          | ok version ↦ elim (id_claim payload "sid") [
            | err e ↦ err e
            | ok session_id ↦ elim (text_of (get payload "env")) [
              | err e ↦ err e
              | ok environment ↦ ok (record {
                agent_id = agent_id;
                org_id = org_id;
                agent_version_id = agent_version_id;
                version = version;
                session_id = session_id;
                environment = environment;
              })
            ]
          ]
        ]
      ]
    ]
  ]

  unfoldable pub validate_token :
      (ℕ → String → String → String → Result JwtError (Fields F))
      → ℕ
      → String
      → String
      → String
      → Result TokenFailure Claims
  unfolding read_claims
  validate_token decode now token key audience = elim (decode now token key audience) [
    | err e ↦ err (token_error (error_code e))
    | ok payload ↦ read_claims payload
  ]
