-- ===== src/Backend/ErrorCodes/Signals.antt =====
-- backend/error_codes.py: the texts and limitations that a result's classification reads. A payload is
-- JSON, so a mapping is a dict and a sequence a list.
use planes.Base.{
  String, Bool, true, false, Option, none, some, List, [], ◌∷◌, ◌++◌, contains, if◌then◌else◌,
}
use planes.Base.Text.{is_blank}
use planes.Json.{Json, Items, Fields, str, arr, obj, nil, cons, end, get, is_text}

abbrev pub text_of : Json → List String
text_of (str s) = s ∷ []
text_of _ = []

-- A value that is a text and not blank.
abbrev pub given_text : Json → List String
given_text (str s) = if is_blank s then [] else s ∷ []
given_text _ = []

unfoldable pub texts_in : Items → List String
texts_in nil = []
texts_in (cons x xs) = text_of x ++ texts_in xs

abbrev list_texts : Json → List String
list_texts (arr xs) = texts_in xs
list_texts _ = []

-- `_limitations_of`
unfoldable pub limitations_of : Json → List String
unfolding texts_in
limitations_of (obj report) = list_texts (get "limitations" report)
limitations_of _ = []

-- `limitations.extend(item for item in texts if item not in limitations)`: the list grows while the
-- generator runs, so a text that stands twice is taken once.
unfoldable pub extend_new : List String → List String → List String
extend_new limitations [] = limitations
extend_new limitations (item ∷ items) = elim (contains item limitations) [
  | true ↦ extend_new limitations items
  | false ↦ extend_new (limitations ++ item ∷ []) items
]

abbrev pub dict_of : Json → Fields
dict_of (obj fs) = fs
dict_of _ = end

-- The texts of a payload and of its nested error; of a value that is no dict nothing is read.
unfoldable pub signal_texts : Fields → List String
unfolding is_blank
signal_texts payload =
    let error = dict_of (get "error" payload) in
    given_text (get "message" payload)
    ++ given_text (get "error" payload)
    ++ given_text (get "message" error)
    ++ given_text (get "error" error)
    ++ given_text (get "type" error)
    ++ text_of (get "error" (dict_of (get "solver_report" error)))

abbrev pub is_state : String → Fields → Bool
is_state state payload = is_text state (get "state" payload)

abbrev pub state_outcome : Fields → Option String
state_outcome payload =
    if is_state "failed" payload
    then some "error"
    else if is_state "timed_out" payload
    then some "timed_out"
    else none

abbrev pub or_else : Option String → Option String → Option String
or_else (some s) other = some s
or_else none other = other

abbrev pub optional_text : Json → Option String
optional_text (str s) = some s
optional_text _ = none

-- What `_collect_signals` returns.
pub record Signals : Type 0 where
  pub outcome : Option String
  pub texts : List String
  pub limitations : List String

-- `_collect_signals`
unfoldable pub collect_signals : Fields → Signals
unfolding limitations_of extend_new signal_texts
collect_signals payload =
    let error = dict_of (get "error" payload) in
    let texts = signal_texts payload in
    record {
      outcome =
          or_else (optional_text (get "outcome" payload))
            (or_else (optional_text (get "outcome" error)) (state_outcome payload));
      texts = texts;
      limitations =
          extend_new
            (limitations_of (get "solver_report" payload)
              ++ limitations_of (get "solver_report" error))
            texts;
    }
