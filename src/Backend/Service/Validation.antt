-- ===== src/Backend/Service/Validation.antt =====
-- Exactly which submissions pass the checks of `submit_job`.
use planes.Base.{
  String, eq_iff, and_left, and_right, ◌&&◌, ◌≡◌, refl, subst, inl, inr, ◌↔◌, true, false, arith,
  Bool-cases,
}
use planes.Base.Int.{ℤ}
use planes.Base.Text.{is_blank}
use planes.Base.Result.{
  ok, validation_error, >>=-eq-ok, ok-injective, require, require-Gives, Raises, Raises-bind,
  Raises-require, Raises-ok,
}
use planes.Json.{
  int, float, Json, Fields, null, bool, num, str, arr, obj, end, field, is_empty, is_text,
  fields_finite, fields_short,
}
use planes.Backend.Models.{contract_version}
use planes.Backend.Service.{
  Submission, Accepted, scenario_of, optimization_of, seed_of, job_id_of, snapshot, validate,
}

-- The id is the client's, not blank, or a fresh one if the client gave none.
abbrev pub NamesJob : String → Json → String → Type 0
NamesJob uuid null id = id ≡ uuid
NamesJob uuid (str s) id = (id ≡ s) × (is_blank s ≡ false)
NamesJob uuid _ id = ⊥

-- What `submit_job` asks of its arguments, and what it makes of them.
pub record Accepts (uuid : String) (s : Submission) (a : Accepted) : Type 0 where
  pub version : s.version ≡ str contract_version
  pub scenario : s.scenario ≡ obj a.scenario
  pub scenario_given : is_empty a.scenario ≡ false
  pub scenario_finite : fields_finite a.scenario ≡ true
  pub scenario_short : fields_short a.scenario ≡ true
  pub optimization : s.optimization ≡ obj a.optimization
  pub optimization_finite : fields_finite a.optimization ≡ true
  pub optimization_short : fields_short a.optimization ≡ true
  pub seed : s.seed ≡ num (int a.seed)
  pub job_id : NamesJob uuid s.job_id a.job_id

is_text_lem : (t : String) (j : Json) → is_text t j ≡ true → j ≡ str t
is_text_lem t (str s) h = let e : s ≡ t = (eq_iff s t).0 h in rw e refl
is_text_lem t _ h = cc

scenario_of-ok :
    (j : Json) (fs : Fields) → scenario_of j ≡ ok fs → (j ≡ obj fs) × (is_empty fs ≡ false)
scenario_of-ok (obj end) fs h = cc
scenario_of-ok (obj (field k v r)) fs h =
    let e : field k v r ≡ fs = ok-injective h in (rw e refl, rw (← e) refl)
scenario_of-ok _ fs h = cc

optimization_of-ok : (j : Json) (fs : Fields) → optimization_of j ≡ ok fs → j ≡ obj fs
optimization_of-ok (obj x) fs h = cc
optimization_of-ok _ fs h = cc

seed_of-ok : (j : Json) (z : ℤ) → seed_of j ≡ ok z → j ≡ num (int z)
seed_of-ok (num (int x)) z h = cc
seed_of-ok (num (float x)) z h = cc
seed_of-ok _ z h = cc

job_id_of-ok :
    (uuid : String) (j : Json) (id : String) → job_id_of uuid j ≡ ok id → NamesJob uuid j id
job_id_of-ok uuid null id h = cc
job_id_of-ok uuid (str s) id h = elim (Bool-cases (is_blank s)) [
  | inl blank ↦ cc (rw blank at h)
  | inr text ↦ (cc (rw text at h), text)
]
job_id_of-ok uuid _ id h = cc

snapshot-ok :
    (name : String) (fs out : Fields)
    → snapshot name fs ≡ ok out
    → (out ≡ fs) × (fields_finite fs ≡ true) × (fields_short fs ≡ true)
unfolding snapshot
snapshot-ok name fs out h = elim (Bool-cases (fields_finite fs && fields_short fs)) [
  | inl f ↦ (cc (rw f at h), and_left _ _ f, and_right _ _ f)
  | inr f ↦ cc (rw f at h)
]

-- A submission that passes meets the conditions.
validate-Accepts :
    (uuid : String) (s : Submission) (a : Accepted) → validate uuid s ≡ ok a → Accepts uuid s a
unfolding validate
validate-Accepts uuid s a h =
    let (u, h₀, h₁) = >>=-eq-ok (require (is_text contract_version s.version) _ _) _ h in
    let (sc, hs, h₂) = >>=-eq-ok (scenario_of s.scenario) _ h₁ in
    let (op, ho, h₃) = >>=-eq-ok (optimization_of s.optimization) _ h₂ in
    let (seed, he, h₄) = >>=-eq-ok (seed_of s.seed) _ h₃ in
    let (id, hi, h₅) = >>=-eq-ok (job_id_of uuid s.job_id) _ h₄ in
    let (sc', hs', h₆) = >>=-eq-ok (snapshot "scenario" sc) _ h₅ in
    let (op', ho', h₇) = >>=-eq-ok (snapshot "optimization" op) _ h₆ in
    let (se, sf, sl) = snapshot-ok "scenario" sc sc' hs' in
    let (oe, of, ol) = snapshot-ok "optimization" op op' ho' in
    let (ss, sn) = scenario_of-ok s.scenario sc hs in
    subst (Accepts uuid s) (ok-injective h₇) (record {
      version = is_text_lem contract_version s.version (require-Gives _ _ _ u h₀);
      scenario = rw se ss;
      scenario_given = rw se sn;
      scenario_finite = rw se sf;
      scenario_short = rw se sl;
      optimization = rw oe (optimization_of-ok s.optimization op ho);
      optimization_finite = rw oe of;
      optimization_short = rw oe ol;
      seed = seed_of-ok s.seed seed he;
      job_id = job_id_of-ok uuid s.job_id id hi;
    })

NamesJob-ok :
    (uuid : String) (j : Json) (id : String) → NamesJob uuid j id → job_id_of uuid j ≡ ok id
NamesJob-ok uuid null id h = rw h refl
NamesJob-ok uuid (str s) id h = rw (h.1, h.0) refl
NamesJob-ok uuid (bool b) id h = absurd h
NamesJob-ok uuid (num n) id h = absurd h
NamesJob-ok uuid (arr xs) id h = absurd h
NamesJob-ok uuid (obj fs) id h = absurd h

scenario_given_ok : (fs : Fields) → is_empty fs ≡ false → scenario_of (obj fs) ≡ ok fs
scenario_given_ok fs h = rw h refl

-- A submission that meets the conditions passes.
Accepts-validate :
    (uuid : String) (s : Submission) (a : Accepted) → Accepts uuid s a → validate uuid s ≡ ok a
unfolding validate snapshot
Accepts-validate uuid s a h =
    rw
      (
        h.version,
        h.scenario,
        h.scenario_given,
        h.optimization,
        h.seed,
        NamesJob-ok uuid s.job_id a.job_id h.job_id,
        h.scenario_finite,
        h.scenario_short,
        h.optimization_finite,
        h.optimization_short,
      )
      refl

-- `submit_job` accepts exactly the submissions of version v0 with a non-empty scenario, an
-- optimization object and an integer seed, with all numbers of both objects finite and no integer of
-- more than 4300 digits in them, and a job id that is not blank or not given; it keeps what they hold.
pub validate_iff :
    (uuid : String) (s : Submission) (a : Accepted) → (validate uuid s ≡ ok a) ↔ Accepts uuid s a
validate_iff uuid s a = (validate-Accepts uuid s a, Accepts-validate uuid s a)

scenario_of-Raises : (j : Json) → Raises validation_error (scenario_of j)
scenario_of-Raises (obj end) e h = cc
scenario_of-Raises (obj (field k v r)) e h = cc
scenario_of-Raises _ e h = cc

optimization_of-Raises : (j : Json) → Raises validation_error (optimization_of j)
optimization_of-Raises (obj fs) e h = cc
optimization_of-Raises _ e h = cc

seed_of-Raises : (j : Json) → Raises validation_error (seed_of j)
seed_of-Raises (num (int z)) e h = cc
seed_of-Raises (num (float f)) e h = cc
seed_of-Raises _ e h = cc

job_id_of-Raises : (uuid : String) (j : Json) → Raises validation_error (job_id_of uuid j)
job_id_of-Raises uuid null e h = cc
job_id_of-Raises uuid (str s) e h = ground arith
job_id_of-Raises uuid _ e h = cc

snapshot-Raises : (name : String) (fs : Fields) → Raises validation_error (snapshot name fs)
unfolding snapshot
snapshot-Raises name fs e h = ground arith

-- Whatever the checks raise is a `ValidationError`.
pub validate-Raises : (uuid : String) (s : Submission) → Raises validation_error (validate uuid s)
unfolding validate
validate-Raises uuid s =
    Raises-bind validation_error (require (is_text contract_version s.version) _ _) _
      (Raises-require _ _ _)
      λ _.
        Raises-bind validation_error (scenario_of s.scenario) _ (scenario_of-Raises s.scenario)
          λ sc.
            Raises-bind validation_error (optimization_of s.optimization) _
              (optimization_of-Raises s.optimization)
              λ op. Raises-bind validation_error (seed_of s.seed) _ (seed_of-Raises s.seed) λ z.
                Raises-bind validation_error (job_id_of uuid s.job_id) _
                  (job_id_of-Raises uuid s.job_id)
                  λ id.
                    Raises-bind validation_error (snapshot "scenario" sc) _
                      (snapshot-Raises "scenario" sc)
                      λ _.
                        Raises-bind validation_error (snapshot "optimization" op) _
                          (snapshot-Raises "optimization" op) λ _. Raises-ok validation_error _
