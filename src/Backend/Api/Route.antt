-- ===== src/Backend/Api/Route.antt =====
-- The paths of backend/api.py: `/jobs`, `^/jobs/([^/]+)$` and `^/jobs/([^/]+)/result$`, where `$`
-- also matches before a newline at the end.
use Prim.Native.Char.{code}
use Prim.Native.String.{String, [], ◌∷◌, ◌++◌}
use mathlib.Core.Path.{◌≡◌, refl}
use mathlib.Core.Bool.{Bool, true, false, ◌||◌}
use mathlib.Core.Option.{Option, none, some}
use native.Mathlib.Omega.{arith}
use text.Mathlib.Text.{◌==◌}
use text.Mathlib.TextLemmas.{cons-append}
use planes.Base.Text.{strip_prefix, strip_prefix-append}
use planes.Base.{eqb, if◌then◌else◌, eq_iff, Bool-cases, inl, inr, ◌≢◌}

pub data Target : Type 0 where
  jobs elsewhere : Target
  job result : String → Target

-- A text up to its first slash, and the rest with the slash.
unfoldable pub segment : String → String × String
segment [] = ([], [])
segment (c ∷ s) =
    let rest = segment s in if eqb (code c) b'/' then ([], c ∷ s) else (c ∷ rest.0, rest.1)

abbrev is_result : String → Bool
is_result rest = rest == "/result" || rest == "/result\n"

abbrev route_segment : String × String → Target
route_segment (id, rest) =
    if id == ""
    then elsewhere
    else if rest == ""
    then job id
    else if is_result rest
    then result id
    else elsewhere

abbrev route_rest : Option String → Target
route_rest none = elsewhere
route_rest (some rest) = route_segment (segment rest)

unfoldable pub route : String → Target
unfolding strip_prefix segment
route path = if path == "/jobs" then jobs else route_rest (strip_prefix "/jobs/" path)

-- Every character of the text differs from the slash.
unfoldable pub no_slash : String → Bool
no_slash [] = true
no_slash (c ∷ s) = if eqb (code c) b'/' then false else no_slash s

segment_all : (s : String) → no_slash s ≡ true → segment s ≡ (s, [])
unfolding segment no_slash
segment_all [] h = refl
segment_all (c ∷ s) h = elim (Bool-cases (eqb (code c) b'/')) [
  | inl slash ↦ cc (rw slash at h)
  | inr char ↦ rw (char, segment_all s (rw char at h)) refl
]

segment_result : (s : String) → no_slash s ≡ true → segment (s ++ "/result") ≡ (s, "/result")
unfolding segment no_slash
segment_result [] h = refl
segment_result (c ∷ s) h = elim (Bool-cases (eqb (code c) b'/')) [
  | inl slash ↦ cc (rw slash at h)
  | inr char ↦ rw cons-append (rw (char, segment_result s (rw char at h)) refl)
]

not_blank : (s : String) → s ≢ "" → (s == "") ≡ false
not_blank s h = elim (Bool-cases (s == "")) [ inl e ↦ absurd (h ((eq_iff s "").0 e)) | inr e ↦ e ]

not_jobs : (s : String) → ("/jobs/" ++ s == "/jobs") ≡ false
unfolding strip_prefix
not_jobs s = elim (Bool-cases ("/jobs/" ++ s == "/jobs")) [
  | inr e ↦ e
  | inl e ↦
      let same : "/jobs/" ++ s ≡ "/jobs" = (eq_iff ("/jobs/" ++ s) "/jobs").0 e in
      let short : strip_prefix "/jobs/" "/jobs" ≡ none = refl in
      cc (rw same at (strip_prefix-append "/jobs/" s), short)
]

-- The paths that the API documents lead to the job that they name, if its id holds no slash.
pub route_documented :
    (id : String)
    → id ≢ ""
    → no_slash id ≡ true
    → (route ("/jobs/" ++ id) ≡ job id) × (route ("/jobs/" ++ (id ++ "/result")) ≡ result id)
unfolding route
route_documented id given plain = (
  rw (not_jobs id, strip_prefix-append "/jobs/" id, segment_all id plain, not_blank id given) refl,
  rw
      (
        not_jobs (id ++ "/result"),
        strip_prefix-append "/jobs/" (id ++ "/result"),
        segment_result id plain,
        not_blank id given,
      )
      refl,
)

segment_rest : (s : String) → no_slash s ≡ false → ((segment s).1 == "") ≡ false
unfolding segment no_slash
segment_rest [] h = cc
segment_rest (c ∷ s) h = elim (Bool-cases (eqb (code c) b'/')) [
  | inl slash ↦ rw slash (not_blank (c ∷ s) (λ e. cc))
  | inr char ↦ rw char (segment_rest s (rw char at h))
]

route_segment-slash :
    (p : String × String) (k : String) → (p.1 == "") ≡ false → route_segment p ≢ job k
route_segment-slash p k h e = ground arith

-- A job whose id holds a slash has no path of its own: no request for `/jobs/<id>` reads it.
pub route_slash : (id k : String) → no_slash id ≡ false → route ("/jobs/" ++ id) ≢ job k
unfolding route
route_slash id k h e =
    route_segment-slash (segment id) k (segment_rest id h)
      (rw (not_jobs id, strip_prefix-append "/jobs/" id) at e)
