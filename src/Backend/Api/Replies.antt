-- ===== src/Backend/Api/Replies.antt =====
-- What the API answers, and what it lets through.
use planes.Base.{
  ℕ, String, ◌==◌, ◌≡◌, refl, ap, ◌⊎◌, inl, inr, Bool, true, false, ◌&&◌, ◌||◌, not, Option, none,
  some, [], ◌∷◌, ◌++◌, arith, Bool-cases, Option-cases, eq_iff, and_left, and_right,
}
use planes.Base.Int.{ℤ, pos, leb_ℤ}
use planes.Base.Result.{
  Error, ErrorKind, Result, ok, err, raise, validation_error, overflow_error, integrity_error,
  job_not_found, result_not_ready, Fails, Result-cases,
}
use planes.Json.{Float, Fields, null, bool, num, str, arr, obj}
use planes.Backend.Store.{Table, find, fits_int64}
use planes.Backend.Store.Invariant.{IsValid}
use planes.Backend.Service.{Accepted, validate, status_view, submit_job, get_job, get_result}
use planes.Backend.Service.Validation.{Accepts, validate-Raises}
use planes.Backend.Service.Clients.{
  row_of, submitted, submit_job_lem, unknown, early, unclassified, get_result_errors,
}
use planes.Backend.ErrorCodes.Attach.Errors.{IsLongNumber}
use planes.Backend.Api.{
  Body, undecodable, decoded, unreadable, Request, Response, max_body_bytes, payload_of, read_body,
  submission_of, accepted, caught, handle_error, post_job, answer, call,
}
use planes.Backend.Api.Route.{Target, jobs, job, result, elsewhere, route}

-- The body was not read: for a reason that the adapter answers, or by an exception that passes.
abbrev Unanswered : Body → Error → Type 0
Unanswered b e = (e.kind ≡ validation_error) ⊎ (b ≡ unreadable e)

invalid_raises :
    {m : String} {e : Error}
    → raise {Value = Fields} validation_error m ≡ err e
    → e.kind ≡ validation_error
invalid_raises h = cc

payload_of-Fails : (b : Body) → Fails (Unanswered b) (payload_of b)
payload_of-Fails (undecodable m) e h = inl (invalid_raises h)
payload_of-Fails (unreadable x) e h = inr (cc)
payload_of-Fails (decoded (obj fs)) e h = cc
payload_of-Fails (decoded null) e h = inl (invalid_raises h)
payload_of-Fails (decoded (bool _)) e h = inl (invalid_raises h)
payload_of-Fails (decoded (num _)) e h = inl (invalid_raises h)
payload_of-Fails (decoded (str _)) e h = inl (invalid_raises h)
payload_of-Fails (decoded (arr _)) e h = inl (invalid_raises h)

read_body-Fails : (n : Option ℤ) (b : Body) → Fails (Unanswered b) (read_body n b)
unfolding read_body
read_body-Fails none b e h = inl (invalid_raises h)
read_body-Fails (some n) b e h =
    elim (Bool-cases (leb_ℤ n (pos 0) || not (leb_ℤ n (pos max_body_bytes)))) [
      | inl refused ↦ inl (invalid_raises (rw refused at h))
      | inr fits ↦ payload_of-Fails b e (rw fits at h)
    ]

-- The two exceptions that the adapter does not catch.
abbrev pub Uncaught : Error → Type 0
Uncaught e = (e.kind ≡ overflow_error) ⊎ (e.kind ≡ integrity_error)

-- An error of a class that the adapter catches is answered.
handled : (e x : Error) → handle_error e ≡ err x → e.kind ≡ validation_error → ⊥
unfolding handle_error
handled e x h k = cc (rw k at h)

handled_missing : (e x : Error) → handle_error e ≡ err x → e.kind ≡ job_not_found → ⊥
unfolding handle_error
handled_missing e x h k = cc (rw k at h)

handled_early : (e x : Error) → handle_error e ≡ err x → e.kind ≡ result_not_ready → ⊥
unfolding handle_error
handled_early e x h k = cc (rw k at h)

-- What the adapter raises is the error that it was given.
handle_error-same : (e x : Error) → handle_error e ≡ err x → e ≡ x
unfolding handle_error
handle_error-same e x h = ground arith

submitted-Uncaught :
    (a : Accepted) (now : String) (rows : Table) (e : Error)
    → (submitted a now rows).0 ≡ err e
    → Uncaught e
unfolding submitted
submitted-Uncaught a now rows e h = elim (Bool-cases (fits_int64 a.seed)) [
  | inr big ↦ inl (error_kind (rw big at h))
  | inl fits ↦ elim (Option-cases (find a.job_id rows)) [
    | inl absent ↦ cc (rw (fits, absent) at h)
    | inr (r, taken) ↦ inr (error_kind (rw (fits, taken) at h))
  ]
]
  where
    error_kind : {k : ErrorKind} {m : String} → raise {Value = Fields} k m ≡ err e → e.kind ≡ k
    error_kind h = cc

caught-err :
    (f : Fields → Response) (r : Result Fields) (x : Error)
    → caught f r ≡ err x
    → (e : Error) × (r ≡ err e) × (handle_error e ≡ err x)
caught-err f (ok v) x h = cc
caught-err f (err e) x h = (e, refl, h)

post-Uncaught :
    (uuid now : String) (q : Request) (rows : Table) (x : Error)
    → (post_job uuid now q rows).0 ≡ err x
    → Uncaught x ⊎ (q.body ≡ unreadable x)
unfolding post_job
post-Uncaught uuid now q rows x h = elim (Result-cases (read_body q.length q.body)) [
  | inr (e, refused) ↦ elim (read_body-Fails q.length q.body e refused) [
    | inl answered ↦ absurd (handled e x (rw refused at h) answered)
    | inr passed ↦ inr (rw (← handle_error-same e x (rw refused at h)) passed)
  ]
  | inl (payload, read) ↦
      let (e, raised, passed_on) =
        caught-err accepted (submit_job uuid now (submission_of payload) rows).0 x (rw read at h) in
      elim (Result-cases (validate uuid (submission_of payload))) [
        | inr (v, invalid) ↦
            let same : v ≡ e = cc (rw (submit_invalid payload v invalid) at raised) in
            absurd (
              handled e x passed_on
                (rw (← same) (validate-Raises uuid (submission_of payload) v invalid)))
        | inl (a, valid) ↦
            let u =
              submitted-Uncaught a now rows e
                (rw (submit_job_lem uuid now (submission_of payload) a rows valid) at raised) in
            inl (rw (← handle_error-same e x passed_on) u)
      ]
]
  where
    submit_invalid :
        (payload : Fields) (v : Error)
        → validate uuid (submission_of payload) ≡ err v
        → submit_job uuid now (submission_of payload) rows ≡ (err v, rows)
    submit_invalid payload v invalid = unfold submit_job in rw invalid refl

get_job-missing :
    (id : String) (rows : Table) (e : Error) → get_job id rows ≡ err e → e.kind ≡ job_not_found
unfolding get_job
get_job-missing id rows e h = elim (Option-cases (find id rows)) [
  | inl absent ↦ error_kind (rw absent at h)
  | inr (r, found) ↦ cc (rw found at h)
]
  where
    error_kind : {k : ErrorKind} {m : String} → raise {Value = Fields} k m ≡ err e → e.kind ≡ k
    error_kind h = cc

module _ (is_alnum : ℕ → Bool) (parse_float : String → Float) where
  answer_errors :
      (reading : Bool) (t : Target) (rows : Table) (x : Error)
      → IsValid rows
      → answer is_alnum parse_float reading t rows ≡ err x
      → (reading ≡ true) × ((id : String) × (t ≡ result id)) × IsLongNumber x
  unfolding answer
  answer_errors true (result id) rows x h k =
      let (e, raised, passed_on) = caught-err _ (get_result is_alnum parse_float id rows) x k in
      elim (get_result_errors is_alnum parse_float id rows e h raised) [
        | unknown absent same ↦ absurd (handled_missing e x passed_on (ap (λ y. y.kind) same))
        | early r found waits same ↦ absurd (handled_early e x passed_on (ap (λ y. y.kind) same))
        | unclassified r found ended long ↦
            (refl, (id, refl), rw (← handle_error-same e x passed_on) long)
      ]
  answer_errors true (job id) rows x h k =
      let (e, raised, passed_on) = caught-err _ (get_job id rows) x k in
      absurd (handled_missing e x passed_on (get_job-missing id rows e raised))
  answer_errors true jobs rows x h k = cc
  answer_errors true elsewhere rows x h k = cc
  answer_errors false jobs rows x h k = cc
  answer_errors false (job _) rows x h k = cc
  answer_errors false (result _) rows x h k = cc
  answer_errors false elsewhere rows x h k = cc

  -- On a valid table an error leaves the adapter only on `POST /jobs`, and then it is one of the two
  -- errors of the database, an overflow or a breach of the unique key, or an exception of reading the
  -- body that is not the decoder's own; or when the result of a job is read and the classification meets
  -- a number of more than 4300 digits.
  pub call_errors :
      (uuid now : String) (q : Request) (rows : Table) (x : Error)
      → IsValid rows
      → (call is_alnum parse_float uuid now q rows).0 ≡ err x
      → ((q.method ≡ "POST") × (q.path ≡ "/jobs") × (Uncaught x ⊎ (q.body ≡ unreadable x)))
        ⊎ ((q.method ≡ "GET") × ((id : String) × (route q.path ≡ result id)) × IsLongNumber x)
  unfolding call
  call_errors uuid now q rows x h k = elim (Bool-cases (q.method == "POST" && q.path == "/jobs")) [
    | inl post ↦ inl (
      (eq_iff _ _).0 (and_left _ _ post),
      (eq_iff _ _).0 (and_right _ _ post),
      post-Uncaught uuid now q rows x (rw post at k),
    )
    | inr reading ↦
        let (get_it, target, long) =
          answer_errors (q.method == "GET") (route q.path) rows x h (rw reading at k) in
        inr ((eq_iff _ _).0 get_it, target, long)
  ]

-- What an accepted submission did: its body held a JSON object that meets the conditions of a
-- submission; one queued job with exactly what it held was appended, and the answer was 202.
pub record Created (uuid now : String) (q : Request) (rows rows' : Table) (r : Result Response)
    : Type 0 where
  pub payload : Fields
  pub held : q.body ≡ decoded (obj payload)
  pub job : Accepted
  pub accepts : Accepts uuid (submission_of payload) job
  pub fresh_id : find job.job_id rows ≡ none
  pub appended : rows' ≡ rows ++ row_of job now ∷ []
  pub answered : r ≡ ok (accepted (status_view (row_of job now)))
