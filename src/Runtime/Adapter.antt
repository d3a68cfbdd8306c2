-- ===== src/Runtime/Adapter.antt =====
-- runtime/adapter.py: the client of the compute listener. The environment, `float` of a text (nothing
-- where it raises ValueError), the encoding of the payload, which may raise, and the exchange over HTTP
-- are arguments.
pub mod Responses
use planes.Base.{
  ℕ, String, Bool, true, false, ◌||◌, Option, none, some, List, [], ◌∷◌, eqb, if◌then◌else◌,
}
use planes.Base.Int.{ℤ}
use planes.Base.Text.{is_blank, strip, any_char, f_string, join}
use planes.Base.Decimal.{show_ℤ}
use planes.Base.Result.{
  Error, ErrorKind, Result, ok, err, value_error, type_error, overflow_error, ◌>>=◌,
}
use planes.Json.{Float, Json, Fields}
use planes.Json.Loading.{Loaded, loaded, not_json, unloaded}
use planes.Json.Numbers.{float_leb, float_zero}
use planes.Runtime.Contract.{ComputeRequest, ComputeResponse, request_to_dict}
use planes.Runtime.Contract.Responses.{Outcome, make_response, parse_response}

-- How the exchange ended: with an HTTP error status, an expired wait, another `URLError`, any further
-- exception, or a reply, with what decoding it gave.
pub data Exchange : Type 0 where
  http_error : ℤ → Exchange
  wait_expired url_error : Exchange
  raised : Error → Exchange
  replied : Loaded → Exchange

abbrev pub required_names : List String
required_names = "COMPUTE_HOST" ∷ "COMPUTE_TOKEN" ∷ "COMPUTE_TIMEOUT_SECONDS" ∷ []

abbrev pub adapter_outcome : ComputeRequest → String → List String → Outcome
adapter_outcome request outcome limitations = record {
  job_id = request.job_id;
  outcome = outcome;
  method = "runtime-adapter";
  objective = request.optimization.objective;
  runtime_seconds = float_zero;
  seed = request.seed;
  limitations = limitations;
  log_ref = none;
  mission_plan = none;
}

-- `_adapter_error`
abbrev pub adapter_error : ComputeRequest → String → Result ComputeResponse
adapter_error request limitation =
    make_response
      (adapter_outcome request "error" (limitation ∷ "No solver result was produced." ∷ []))

-- `_adapter_timeout`
abbrev pub adapter_timeout : ComputeRequest → Result ComputeResponse
adapter_timeout request =
    make_response
      (adapter_outcome request "timed_out" ("Client wait for the compute listener expired." ∷ []))

abbrev pub invalid_json : String
invalid_json = "Compute listener returned invalid JSON."

-- The exceptions that are caught around decoding and parsing the reply.
abbrev pub is_parse_error : ErrorKind → Bool
is_parse_error value_error = true
is_parse_error type_error = true
is_parse_error _ = false

abbrev pub after_parse : ComputeRequest → Result ComputeResponse → Result ComputeResponse
after_parse request (ok response) = ok response
after_parse request (err e) =
    if is_parse_error e.kind then adapter_error request invalid_json else err e

-- What is answered for an exchange.
unfoldable pub after_exchange : ComputeRequest → Exchange → Result ComputeResponse
unfolding make_response parse_response show_ℤ
after_exchange request (http_error code) =
    adapter_error request (f_string ("Compute listener returned HTTP " ∷ show_ℤ code ∷ "." ∷ []))
after_exchange request wait_expired = adapter_timeout request
after_exchange request url_error = adapter_error request "Compute listener is unreachable."
after_exchange request (raised e) = err e
after_exchange request (replied not_json) = adapter_error request invalid_json
after_exchange request (replied (unloaded e)) = after_parse request (err e)
after_exchange request (replied (loaded value)) = after_parse request (parse_response value)

-- `/`, `\`, a space or a colon.
abbrev pub bad_host_char : ℕ → Bool
bad_host_char c = eqb c 47 || eqb c 92 || eqb c 32 || eqb c 58

abbrev pub bad_timeout : String
bad_timeout = "COMPUTE_TIMEOUT_SECONDS must be a positive number of seconds."

module _ (environ : String → String) (parse_float : String → Option Float) {Bytes : Type 0}
    (encode : Fields → Result Bytes) (exchange : String → String → Bytes → Float → Exchange) where
  abbrev pub missing_names : List String → List String
  missing_names [] = []
  missing_names (name ∷ names) =
      let rest = missing_names names in if is_blank (environ name) then name ∷ rest else rest

  abbrev pub with_timeout : ComputeRequest → String → Option Float → Result ComputeResponse
  with_timeout request host none = adapter_error request bad_timeout
  with_timeout request host (some timeout) =
      if float_leb timeout float_zero then adapter_error request bad_timeout else (do
        payload ← encode (request_to_dict request)
        after_exchange request (exchange host (environ "COMPUTE_TOKEN") payload timeout))

  abbrev pub configured : ComputeRequest → List String → Result ComputeResponse
  configured request (name ∷ names) =
      adapter_error request
        (f_string ("Missing compute configuration: " ∷ join ", " (name ∷ names) ∷ "." ∷ []))
  configured request [] =
      let host = strip (environ "COMPUTE_HOST") in
      if any_char bad_host_char host
      then adapter_error request "COMPUTE_HOST must be a host name without a port."
      else with_timeout request host (parse_float (strip (environ "COMPUTE_TIMEOUT_SECONDS")))

  -- `RuntimeEngineAdapter.solve`
  unfoldable pub solve : ComputeRequest → Result ComputeResponse
  unfolding is_blank any_char after_exchange request_to_dict float_leb
  solve request = configured request (missing_names required_names)
