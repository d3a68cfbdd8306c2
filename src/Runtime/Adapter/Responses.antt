-- ===== src/Runtime/Adapter/Responses.antt =====
-- What the client of runtime/adapter.py answers, whatever the environment and the exchange are.
use planes.Base.{String, false, ◌≡◌, ◌⊎◌, Option, true}
use planes.Base.Result.{Error, Result, ok, err, overflow_error}
use planes.Json.{Float, Json, Fields}
use planes.Json.Loading.{loaded, unloaded}
use planes.Json.Numbers.{nan, float_ltb, float_zero}
use planes.Runtime.Contract.{ComputeRequest, ComputeResponse, request_to_dict}
use planes.Runtime.Contract.Responses.{parse_response}
use planes.Runtime.Contract.Replies.{IsResponse}
use planes.Runtime.Adapter.{Exchange, raised, replied, is_parse_error}

-- A response of the contract is returned.
abbrev pub Responds : Result ComputeResponse → Type 0
Responds m = (r : ComputeResponse) × (m ≡ ok r) × IsResponse r

-- An exception that leaves the client: one of the exchange that it does not catch, one of decoding the
-- reply, or the overflow of the reply's number.
pub data Escapes (m : Result ComputeResponse) (x : Exchange) : Type 0 where
  uncaught : (e : Error) → x ≡ raised e → m ≡ err e → Escapes m x
  undecoded :
      (e : Error)
      → x ≡ replied (unloaded e)
      → is_parse_error e.kind ≡ false
      → m ≡ err e
      → Escapes m x
  overflows :
      (value : Json) (e : Error)
      → x ≡ replied (loaded value)
      → parse_response value ≡ err e
      → e.kind ≡ overflow_error
      → m ≡ err e
      → Escapes m x

module _ (environ : String → String) (parse_float : String → Option Float) {Bytes : Type 0}
    (encode : Fields → Result Bytes) (exchange : String → String → Bytes → Float → Exchange) where
  -- The timeout is positive or nan, and an exception leaves: of encoding the request, or of the exchange
  -- or its reply.
  abbrev pub Exchanged : ComputeRequest → Result ComputeResponse → Type 0
  Exchanged request m =
      (host : String) × (timeout : Float) × ((float_ltb float_zero timeout ≡ true)
        ⊎ (timeout ≡ nan))
      × (((e : Error) × (encode (request_to_dict request) ≡ err e) × (m ≡ err e))
          ⊎ ((payload : Bytes) × (encode (request_to_dict request) ≡ ok payload)
              × Escapes m (exchange host (environ "COMPUTE_TOKEN") payload timeout)))
