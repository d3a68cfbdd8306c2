-- ===== src/Runtime/Contract/RoundTrip.antt =====
-- What the parsers of runtime/types.py accept, that the printers invert them, and what
-- `make_response` makes.
use planes.Base.{
  String, true, false, ◌≡◌, refl, ap, subst, inl, inr, Option, none, some, Bool-cases,
}
use planes.Base.Text.{is_blank}
use planes.Base.Result.{Gives, Gives-bind, Gives-ok, Gives-skip, ok, ok-injective, require}
use planes.Json.{Number, Json, Fields, num, str, obj, get, is_text}
use planes.Json.Numbers.{is_finite, is_negative}
use planes.Runtime.Contract.{
  contract_version, is_job_id, ComputeRequest, checked_dict, checked_id, checked_seconds,
  objective_of, placeholder_of, placeholder_field, parse_seed, parse_optimization, parse_request,
  request_to_dict,
}

-- A number of seconds that the parsers take.
abbrev pub IsSeconds : Number → Type 0
IsSeconds n = (is_finite n ≡ true) × (is_negative n ≡ false)

pub record IsRequest (r : ComputeRequest) : Type 0 where
  pub version : r.contract_version ≡ contract_version
  pub job_id : is_job_id r.job_id ≡ true
  pub objective : is_blank r.optimization.objective ≡ false
  pub limit : IsSeconds r.optimization.time_limit_seconds

checked_dict-ok : (m : String) (j : Json) (fs : Fields) → checked_dict m j ≡ ok fs → j ≡ obj fs
checked_dict-ok m (obj x) fs h = cc
checked_dict-ok m _ fs h = cc

pub checked_id-ok :
    (m : String) (j : Json) (id : String)
    → checked_id m j ≡ ok id
    → (j ≡ str id) × (is_job_id id ≡ true)
checked_id-ok m (str s) id h = elim (Bool-cases (is_job_id s)) [
  | inl good ↦
      let e : s ≡ id = ok-injective (rw good at h) in
      (ap str e, subst (λ x. is_job_id x ≡ true) e good)
  | inr bad ↦ cc (rw bad at h)
]
checked_id-ok m _ id h = cc

pub checked_seconds-ok :
    (m : String) (j : Json) (n : Number) → checked_seconds m j ≡ ok n → (j ≡ num n) × IsSeconds n
checked_seconds-ok m (num x) n h = elim (Bool-cases (is_finite x)) [
  | inr bad ↦ cc (rw bad at h)
  | inl good ↦ elim (Bool-cases (is_negative x)) [
    | inl low ↦ cc (rw (good, low) at h)
    | inr high ↦
        let e : x ≡ n = ok-injective (rw (good, high) at h) in
        (ap num e, subst IsSeconds e (good, high))
  ]
]
checked_seconds-ok m _ n h = cc

objective_of-ok :
    (j : Json) (s : String) → objective_of j ≡ ok s → (j ≡ str s) × (is_blank s ≡ false)
objective_of-ok (str x) s h = elim (Bool-cases (is_blank x)) [
  | inl blank ↦ cc (rw blank at h)
  | inr given ↦
      let e : x ≡ s = ok-injective (rw given at h) in
      (ap str e, subst (λ y. is_blank y ≡ false) e given)
]
objective_of-ok _ s h = cc

parse_optimization-Gives :
    (j : Json)
    → Gives
        (λ o. (is_blank o.objective ≡ false) × IsSeconds o.time_limit_seconds)
        (parse_optimization j)
unfolding parse_optimization
parse_optimization-Gives j = Gives-skip _ (checked_dict _ j) _ (λ fs.
    Gives-bind _ _ (objective_of (get "objective" fs)) _
      (λ s h. (objective_of-ok (get "objective" fs) s h).1)
      (λ s given.
        Gives-bind _ IsSeconds
          (checked_seconds "optimization.time_limit_seconds" (get "time_limit_seconds" fs)) _
          (λ n h.
            (checked_seconds-ok "optimization.time_limit_seconds" (get "time_limit_seconds" fs) n
              h).1)
          (λ n seconds.
            Gives-skip _ (placeholder_of (get "placeholder_outcome" fs)) _
              (λ p. Gives-ok _ _ (given, seconds)))))

parse_request-IsRequest : (j : Json) → Gives IsRequest (parse_request j)
unfolding parse_request
parse_request-IsRequest j = Gives-skip _ (checked_dict _ j) _ (λ fs.
    Gives-skip _ (require (is_text contract_version (get "contract_version" fs)) _ _) _ (λ _.
      Gives-bind _ (λ id. is_job_id id ≡ true)
        (checked_id "job_id is missing or unsafe" (get "job_id" fs)) _
        (λ id h. (checked_id-ok "job_id is missing or unsafe" (get "job_id" fs) id h).1)
        (λ id good.
          Gives-skip _ (checked_dict "scenario must be a JSON object" (get "scenario" fs)) _ (λ sc.
            Gives-bind _ _ (parse_optimization (get "optimization" fs)) _
              (parse_optimization-Gives (get "optimization" fs))
              (λ o fine. Gives-skip _ (parse_seed (get "seed" fs)) _ (λ z.
                Gives-ok _ _ (record {
                  version = refl;
                  job_id = good;
                  objective = fine.0;
                  limit = fine.1;
                })))))))

placeholder-back :
    (p : Option String) → placeholder_of (get "placeholder_outcome" (placeholder_field p)) ≡ ok p
placeholder-back none = refl
placeholder-back (some s) = refl

pub parse_request-back :
    (r : ComputeRequest) → IsRequest r → parse_request (obj (request_to_dict r)) ≡ ok r
unfolding parse_request request_to_dict parse_optimization
parse_request-back r v =
    rw
      (
        v.version,
        v.job_id,
        v.objective,
        v.limit.0,
        v.limit.1,
        placeholder-back r.optimization.placeholder_outcome,
      )
      refl

-- A request that was parsed is well formed: its version is v0, its id is safe, its objective is not
-- blank and its limit is a number of seconds. Printed and parsed again it is the same.
pub parse_request-print :
    (j : Json) (r : ComputeRequest)
    → parse_request j ≡ ok r
    → IsRequest r × (parse_request (obj (request_to_dict r)) ≡ ok r)
parse_request-print j r h = let v = parse_request-IsRequest j r h in (v, parse_request-back r v)
