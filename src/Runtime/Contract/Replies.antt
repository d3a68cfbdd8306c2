-- ===== src/Runtime/Contract/Replies.antt =====
-- What `parse_response` accepts, that `response_to_dict` inverts it, what `make_response` makes, and
-- which exceptions leave the parser.
use planes.Base.Int.{pos, negsuc}
use planes.Base.{
  ℕ, ◌*◌, arith, String, true, false, ◌==◌, ◌≡◌, refl, subst, inl, inr, Option, none, some, List,
  [], ◌∷◌, contains, Bool-cases, Option-cases, if◌then◌else◌,
}
use planes.Base.Result.{ok, require, Gives, Gives-bind, Gives-ok, Gives-skip, ok-injective}
use planes.Json.{Float, Number, int, float, Json, Fields, str, obj, get, is_text, text_items}
use planes.Json.Numbers.{
  magnitude, unit, nan, infinity, neg_infinity, finite, float_ltb, is_negative, float_leb, to_float,
}
use planes.Runtime.Contract.{
  contract_version, outcomes, is_job_id, SolverReport, ArtifactRef, ComputeResponse, checked_dict,
  checked_id, checked_seconds, checked_int, checked_text,
}
use planes.Runtime.Contract.RoundTrip.{IsSeconds, checked_id-ok, checked_seconds-ok}
use planes.Runtime.Contract.Limitations.{
  Distinct, unique_limitations-Distinct, unique_limitations_fixed,
}
use planes.Runtime.Contract.Responses.{
  outcome_of, mission_of, method_of, texts_of_items, limitations_of, parse_report, parse_items,
  parse_artifacts, parse_response, report_to_dict, artifact_items, plan_field, response_to_dict,
  Outcome, elapsed_of, make_response, made,
}

pub record IsReport (r : SolverReport) : Type 0 where
  pub method : (r.method == "") ≡ false
  pub runtime : IsSeconds (float r.runtime_seconds)
  pub limitations : Distinct r.limitations

pub record IsResponse (r : ComputeResponse) : Type 0 where
  pub version : r.contract_version ≡ contract_version
  pub job_id : is_job_id r.job_id ≡ true
  pub outcome : contains r.outcome outcomes ≡ true
  pub report : IsReport r.solver_report

texts-back : (texts : List String) → texts_of_items (text_items texts) ≡ some texts
texts-back [] = refl
texts-back (x ∷ xs) = rw (texts-back xs) refl

report-back : (r : SolverReport) → IsReport r → parse_report (obj (report_to_dict r)) ≡ ok r
unfolding parse_report to_float
report-back r v =
    rw
      (
        v.method,
        v.runtime.0,
        v.runtime.1,
        texts-back r.limitations,
        unique_limitations_fixed r.limitations v.limitations,
      )
      refl

artifacts-back : (items : List ArtifactRef) → parse_items (artifact_items items) ≡ ok items
unfolding parse_items
artifacts-back [] = refl
artifacts-back (x ∷ xs) = rw (artifacts-back xs) refl

mission-back : (plan : Option Fields) → mission_of (get "mission_plan" (plan_field plan)) ≡ ok plan
mission-back none = refl
mission-back (some plan) = refl

pub parse_response-back :
    (r : ComputeResponse) → IsResponse r → parse_response (obj (response_to_dict r)) ≡ ok r
unfolding parse_response response_to_dict parse_artifacts
parse_response-back r v =
    rw
      (
        v.version,
        v.job_id,
        v.outcome,
        mission-back r.mission_plan,
        report-back r.solver_report v.report,
        artifacts-back r.artifacts,
      )
      refl

negative_int : (n : ℕ) → is_negative (int (negsuc n)) ≡ false → ⊥
unfolding is_negative
negative_int n h = ground arith

never_negative : (k : ℕ) → is_negative (float (finite (pos k))) ≡ false
unfolding is_negative float_ltb
never_negative k = ground arith

-- The conversion to a float keeps a number of seconds one.
to_float-IsSeconds : (n : Number) → IsSeconds n → Gives (λ f. IsSeconds (float f)) (to_float n)
unfolding to_float
to_float-IsSeconds (float f) v = Gives-ok _ f v
to_float-IsSeconds (int (negsuc n)) v = absurd (negative_int n v.1)
to_float-IsSeconds (int (pos n)) v = λ f h. elim (Option-cases (magnitude n)) [
  | inl big ↦ cc (rw big at h)
  | inr (m, fits) ↦
      subst (λ x. IsSeconds (float x)) (ok-injective (rw fits at h))
        (refl, never_negative (m * unit))
]

elapsed_of-IsSeconds : (t : Float) → IsSeconds (float (elapsed_of t))
unfolding float_leb is_negative float_ltb
elapsed_of-IsSeconds nan = (refl, refl)
elapsed_of-IsSeconds infinity = (refl, refl)
elapsed_of-IsSeconds neg_infinity = (refl, refl)
elapsed_of-IsSeconds (finite (pos n)) = ground arith
elapsed_of-IsSeconds (finite (negsuc n)) = ground arith

unknown-good : is_job_id "unknown" ≡ true
unfolding is_job_id
unknown-good = refl

job_id-good : (id : String) → is_job_id (if is_job_id id then id else "unknown") ≡ true
job_id-good id = elim (Bool-cases (is_job_id id)) [
  | inl good ↦ rw (good, good) refl
  | inr bad ↦ rw bad unknown-good
]

pub made-IsResponse :
    (o : Outcome)
    → (o.method == "") ≡ false
    → contains o.outcome outcomes ≡ true
    → IsResponse (made o)
made-IsResponse o named known = record {
  version = refl;
  job_id = job_id-good o.job_id;
  outcome = known;
  report = record {
    method = named;
    runtime = elapsed_of-IsSeconds o.runtime_seconds;
    limitations = unique_limitations-Distinct o.limitations;
  };
}

make_response-IsResponse :
    (o : Outcome) → (o.method == "") ≡ false → Gives IsResponse (make_response o)
unfolding make_response
make_response-IsResponse o named = elim (Bool-cases (contains o.outcome outcomes)) [
  | inr bad ↦ rw bad (λ r h. cc)
  | inl known ↦ rw known (Gives-ok _ _ (made-IsResponse o named known))
]

parse_report-IsReport : (j : Json) → Gives IsReport (parse_report j)
unfolding parse_report
parse_report-IsReport j = Gives-skip _ (checked_dict _ j) _ (λ fs.
    Gives-bind _ (λ s. (s == "") ≡ false) (method_of (get "method" fs)) _
      (λ s h. method_of-ok (get "method" fs) s h)
      (λ s named.
        Gives-skip _ (checked_text "solver_report.objective must be a string" (get "objective" fs))
          _
          (λ o.
            Gives-bind _ IsSeconds
              (checked_seconds "solver_report.runtime_seconds" (get "runtime_seconds" fs)) _
              (λ n h.
                (checked_seconds-ok "solver_report.runtime_seconds" (get "runtime_seconds" fs) n
                  h).1)
              (λ n seconds.
                Gives-skip _ (checked_int "solver_report.seed must be an integer" (get "seed" fs)) _
                  (λ z. Gives-skip _ (limitations_of (get "limitations" fs)) _ (λ ls.
                    Gives-bind _ _ (to_float n) _ (to_float-IsSeconds n seconds) (λ f fine.
                      Gives-ok _ _ (record {
                        method = named;
                        runtime = fine;
                        limitations = unique_limitations-Distinct ls;
                      }))))))))
  where
    method_of-ok : (m : Json) (s : String) → method_of m ≡ ok s → (s == "") ≡ false
    method_of-ok (str x) s h = elim (Bool-cases (x == "")) [
      | inl empty ↦ cc (rw empty at h)
      | inr given ↦ subst (λ y. (y == "") ≡ false) (ok-injective (rw given at h)) given
    ]
    method_of-ok _ s h = cc

outcome_of-ok : (m : Json) (s : String) → outcome_of m ≡ ok s → contains s outcomes ≡ true
outcome_of-ok (str x) s h = elim (Bool-cases (contains x outcomes)) [
  | inl known ↦ subst (λ y. contains y outcomes ≡ true) (ok-injective (rw known at h)) known
  | inr bad ↦ cc (rw bad at h)
]
outcome_of-ok _ s h = cc

parse_response-IsResponse : (j : Json) → Gives IsResponse (parse_response j)
unfolding parse_response
parse_response-IsResponse j = Gives-skip _ (checked_dict _ j) _ (λ fs.
    Gives-skip _ (require (is_text contract_version (get "contract_version" fs)) _ _) _ (λ _.
      Gives-bind _ (λ id. is_job_id id ≡ true)
        (checked_id "response job_id is missing or unsafe" (get "job_id" fs)) _
        (λ id h. (checked_id-ok "response job_id is missing or unsafe" (get "job_id" fs) id h).1)
        (λ id good.
          Gives-bind _ (λ s. contains s outcomes ≡ true) (outcome_of (get "outcome" fs)) _
            (λ s h. outcome_of-ok (get "outcome" fs) s h)
            (λ s known. Gives-skip _ (mission_of (get "mission_plan" fs)) _ (λ plan.
              Gives-bind _ _ (parse_report (get "solver_report" fs)) _
                (parse_report-IsReport (get "solver_report" fs))
                (λ report fine. Gives-skip _ (parse_artifacts (get "artifacts" fs)) _ (λ items.
                  Gives-ok _ _ (record {
                    version = refl;
                    job_id = good;
                    outcome = known;
                    report = fine;
                  }))))))))

-- A response that was parsed is well formed: its version is v0, its id is safe, its outcome is one of
-- the four, its method is not empty, its time is a number of seconds and no limitation stands twice.
-- Printed and parsed again it is the same.
pub parse_response-print :
    (j : Json) (r : ComputeResponse)
    → parse_response j ≡ ok r
    → IsResponse r × (parse_response (obj (response_to_dict r)) ≡ ok r)
parse_response-print j r h = let v = parse_response-IsResponse j r h in (v, parse_response-back r v)

-- What `make_response` makes with a method that is not empty can be sent: it is well formed, and
-- printed and parsed it is the same, whatever the id, the time, the limitations and the log are.
pub make_response-print :
    (o : Outcome) (r : ComputeResponse)
    → (o.method == "") ≡ false
    → make_response o ≡ ok r
    → IsResponse r × (parse_response (obj (response_to_dict r)) ≡ ok r)
make_response-print o r named h =
    let v = make_response-IsResponse o named r h in (v, parse_response-back r v)
