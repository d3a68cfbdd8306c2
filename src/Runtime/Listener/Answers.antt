-- ===== src/Runtime/Listener/Answers.antt =====
-- What the listener of runtime/http_server.py answers, and what becomes of its lock.
use planes.Base.{
  eqb, ℕ, String, Bool, true, false, ◌==◌, ◌≡◌, refl, ap, subst, ◌∙◌, inl, inr, Option, none, some,
  contains, Bool-cases, arith, eq_iff,
}
use planes.Base.Result.{Result, ok, err, ok-injective, Result-cases, >>=-eq-ok, Gives, Gives-skip}
use planes.Json.{Float, Json, obj}
use planes.Json.Loading.{Loaded, loaded, not_json, unloaded}
use planes.Runtime.Contract.{ComputeResponse, outcomes}
use planes.Runtime.Contract.Responses.{Outcome, make_response, parse_response, response_to_dict}
use planes.Runtime.Contract.Replies.{parse_response-back}
use planes.Runtime.Pipeline.Answers.{make_response-Answers}
use planes.Runtime.Listener.{
  authorized, CliEnd, expired, completed, failed, as_json, listener_outcome, synthesized,
  checked_output, after_cli, run_cli, timeout_from_body, Post, Reply, refusal, body_error,
  read_body, is_caught, locked, try_acquire, after_body, after_auth, do_post,
}
use planes.Runtime.Listener.Access.{Bears, authorized_iff}

-- The value is a response of the contract.
abbrev pub Parses : Json → Type 0
Parses value = (r : ComputeResponse) × (parse_response value ≡ ok r)

outcome-Parses :
    (o : Outcome)
    → (o.method == "") ≡ false
    → contains o.outcome outcomes ≡ true
    → (o.mission_plan ≡ none)
    → Gives Parses (as_json (make_response o))
outcome-Parses o named known planless value h =
    let (r, made, answer) = make_response-Answers o named known (inl planless) in
    let e : obj (response_to_dict r) ≡ value = ok-injective (rw made at h) in
    subst Parses e (r, parse_response-back r answer.response)

synthesized-Parses :
    (outcome : String) (body : Loaded) (limitation : String)
    → contains outcome outcomes ≡ true
    → Gives Parses (synthesized outcome body limitation)
unfolding synthesized
synthesized-Parses outcome (unloaded e) limitation known value h = cc
synthesized-Parses outcome not_json limitation known value h =
    outcome-Parses (listener_outcome outcome not_json limitation) refl known refl value h
synthesized-Parses outcome (loaded body) limitation known value h =
    outcome-Parses (listener_outcome outcome (loaded body) limitation) refl known refl value h

checked_output-Parses :
    (body : Loaded) (output : Json)
    → Gives Parses (checked_output body output (parse_response output))
checked_output-Parses body output value h = elim (Result-cases (parse_response output)) [
  | inl (r, e) ↦ subst Parses (ok-injective (rw e at h)) (r, e)
  | inr (x, e) ↦ elim (Bool-cases (is_caught x.kind)) [
    | inl caught ↦ synthesized-Parses "error" body _ refl value (rw (e, caught) at h)
    | inr other ↦ cc (rw (e, other) at h)
  ]
]

after_cli-Parses : (body : Loaded) (ended : CliEnd) → Gives Parses (after_cli body ended)
after_cli-Parses body expired value h = synthesized-Parses "timed_out" body _ refl value h
after_cli-Parses body (failed e) value h = cc
after_cli-Parses body (completed not_json) value h = synthesized-Parses "error" body _ refl value h
after_cli-Parses body (completed (unloaded e)) value h = elim (Bool-cases (is_caught e.kind)) [
  | inl caught ↦ synthesized-Parses "error" body _ refl value (rw caught at h)
  | inr other ↦ cc (rw other at h)
]
after_cli-Parses body (completed (loaded output)) value h =
    checked_output-Parses body output value h

run_cli-Parses : (cli : Float → CliEnd) (body : Loaded) → Gives Parses (run_cli cli body)
unfolding run_cli
run_cli-Parses cli body =
    Gives-skip Parses (timeout_from_body body) _ (λ limit. after_cli-Parses body (cli limit))

-- A refusal with another status is no solution.
refused :
    (status : ℕ) (error : String) (r : Reply)
    → ok (refusal status error) ≡ ok r
    → r.status ≡ 200
    → eqb status 200 ≡ false
    → ⊥
refused status error r h s ne =
    let e : refusal status error ≡ r = ok-injective h in
    let k : status ≡ 200 = ap (λ x. x.status) e ∙ s in ground arith

-- What a reply with status 200 tells.
pub record IsSolved (token : String) (q : Post) (held : Bool) (r : Reply) : Type 0 where
  pub path : q.path ≡ "/v0/solve"
  pub bears : Bears q.authorization token
  pub free : held ≡ false
  pub response : Parses r.payload

module _ (cli : Float → CliEnd) (token : String) (q : Post) where
  locked-free :
      (job : Result Json) (held : Bool) (r : Reply)
      → (locked job held (try_acquire held)).0 ≡ ok r
      → r.status ≡ 200
      → (held ≡ false) × (job ≡ ok r.payload)
  locked-free job true r h s = absurd (refused 503 "busy" r h s refl)
  locked-free job false r h s =
      let (payload, e, k) = >>=-eq-ok job _ h in (refl, e ∙ ap (λ x. ok x.payload) (ok-injective k))

  locked-lock : (job : Result Json) (held : Bool) → (locked job held (try_acquire held)).1 ≡ held
  locked-lock job true = refl
  locked-lock job false = refl

  body-lock : (o : Option String) (held : Bool) → (after_body cli q o held).1 ≡ held
  body-lock (some error) held = refl
  body-lock none held = locked-lock _ held

  auth-lock : (allowed : Result Bool) (held : Bool) → (after_auth cli q allowed held).1 ≡ held
  auth-lock (err e) held = refl
  auth-lock (ok false) held = refl
  auth-lock (ok true) held = body-lock (body_error q.content_length) held

  -- The lock is as it was: a request that takes it releases it, also when the job raises.
  pub do_post-lock : (held : Bool) → (do_post cli token q held).1 ≡ held
  unfolding do_post
  do_post-lock held = elim (Bool-cases (q.path == "/v0/solve")) [
    | inl here ↦ rw here (auth-lock (authorized q.authorization token) held)
    | inr elsewhere ↦ rw elsewhere refl
  ]

  body-IsSolved :
      (o : Option String) (held : Bool) (r : Reply)
      → (after_body cli q o held).0 ≡ ok r
      → r.status ≡ 200
      → (held ≡ false) × Parses r.payload
  body-IsSolved (some error) held r h s = absurd (refused 400 error r h s refl)
  body-IsSolved none held r h s =
      let job = run_cli cli (read_body q.content_length q.body) in
      let (free, e) = locked-free job held r h s in
      (free, run_cli-Parses cli (read_body q.content_length q.body) r.payload e)

  auth-IsSolved :
      (allowed : Result Bool) (held : Bool) (r : Reply)
      → (after_auth cli q allowed held).0 ≡ ok r
      → r.status ≡ 200
      → (allowed ≡ ok true) × (held ≡ false) × Parses r.payload
  auth-IsSolved (err e) held r h s = cc
  auth-IsSolved (ok false) held r h s = absurd (refused 401 "unauthorized" r h s refl)
  auth-IsSolved (ok true) held r h s =
      let (free, response) = body-IsSolved (body_error q.content_length) held r h s in
      (refl, free, response)

  -- A reply with status 200 was made for a request to `/v0/solve` with the token, while no other
  -- request held the lock, and its payload is a response of the contract.
  pub do_post-IsSolved :
      (held : Bool) (r : Reply)
      → (do_post cli token q held).0 ≡ ok r
      → r.status ≡ 200
      → IsSolved token q held r
  unfolding do_post
  do_post-IsSolved held r h s = elim (Bool-cases (q.path == "/v0/solve")) [
    | inr elsewhere ↦ absurd (refused 404 "not_found" r (rw elsewhere at h) s refl)
    | inl here ↦
        let (allowed, free, response) =
          auth-IsSolved (authorized q.authorization token) held r (rw here at h) s in
        record {
          path = (eq_iff q.path "/v0/solve").0 here;
          bears = (authorized_iff q.authorization token).0 allowed;
          free = free;
          response = response;
        }
  ]
