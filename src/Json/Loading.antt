-- ===== src/Json/Loading.antt =====
-- What `json.loads(raw.decode("utf-8"))` makes of bytes.
use planes.Base.Result.{Error}
use planes.Json.{Json}

-- The value; the error of bytes that are not UTF-8 or not JSON; or any further exception, such as the
-- plain `ValueError` of an integer of more than 4300 digits, or a `RecursionError`.
pub data Loaded : Type 0 where
  loaded : Json → Loaded
  not_json : Loaded
  unloaded : Error → Loaded
