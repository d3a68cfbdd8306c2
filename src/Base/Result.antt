-- ===== src/Base/Result.antt =====
-- Python's exceptions as values, and the monad of code that may raise.
use Prim.Native.String.{String}
use mathlib.Core.Path.{◌≡◌, refl, subst}
use mathlib.Core.Logic.{◌⊎◌, inl, inr}
use mathlib.Core.Bool.{Bool, true, false}

-- The exception classes that the modelled code raises or tells apart; `other` is any further class
-- below `Exception`, by its name.
pub data ErrorKind : Type 0 where
  value_error type_error overflow_error runtime_error not_implemented_error : ErrorKind
  integrity_error validation_error job_not_found result_not_ready : ErrorKind
  other : String → ErrorKind

pub record Error : Type 0 where
  pub kind : ErrorKind
  pub message : String

pub data Result {ℓ} (Value : Type ℓ) : Type ℓ where
  err : Error → Result Value
  ok : Value → Result Value

abbrev pub raise {ℓ} : {Value : Type ℓ} → ErrorKind → String → Result Value
raise k m = err (record { kind = k; message = m })

-- `if not test: raise kind(message)`
abbrev pub require : Bool → ErrorKind → String → Result (Unit {0})
require true k m = ok tt
require false k m = raise k m

infixl 5 ◌>>=◌ ◌>>◌
-- What follows a raise is not run.
abbrev pub ◌>>=◌ {κ μ} :
    {Value : Type κ} {Next : Type μ} → Result Value → (Value → Result Next) → Result Next
err e >>= next = err e
ok v >>= next = next v

pub >>=-eq-ok {κ μ} :
    {Value : Type κ} {Next : Type μ} (first : Result Value) (next : Value → Result Next) {w : Next}
    (h : (first >>= next) ≡ ok w)
    → (v : Value) × (first ≡ ok v) × (next v ≡ ok w)
>>=-eq-ok (err e) next h = cc
>>=-eq-ok (ok v) next h = (v, refl, h)

-- The statement form: the value of the first part is `None`.
abbrev pub ◌>>◌ {ℓ} : {Next : Type ℓ} → Result (Unit {0}) → Result Next → Result Next
first >> next = first >>= λ done. next

-- `type(error).__name__`
abbrev pub kind_name : ErrorKind → String
kind_name value_error = "ValueError"
kind_name type_error = "TypeError"
kind_name overflow_error = "OverflowError"
kind_name runtime_error = "RuntimeError"
kind_name not_implemented_error = "NotImplementedError"
kind_name integrity_error = "IntegrityError"
kind_name validation_error = "ValidationError"
kind_name job_not_found = "JobNotFoundError"
kind_name result_not_ready = "ResultNotReadyError"
kind_name (other name) = name

pub ok-injective {ℓ} : {A : Type ℓ} {a b : A} → ok a ≡ ok b → a ≡ b
ok-injective h = cc

pub Result-cases {κ} :
    {Value : Type κ} (m : Result Value) → ((v : Value) × (m ≡ ok v)) ⊎ ((x : Error) × (m ≡ err x))
Result-cases (err x) = inr (x, refl)
Result-cases (ok v) = inl (v, refl)

-- Whatever `m` raises is of the class `k`.
abbrev pub Raises {ℓ} : {A : Type ℓ} → ErrorKind → Result A → Type ℓ
Raises k m = (e : Error) → m ≡ err e → e.kind ≡ k

pub Raises-bind {ℓ κ} :
    {A : Type ℓ} {B : Type κ} (k : ErrorKind) (m : Result A) (f : A → Result B)
    → Raises k m
    → ((a : A) → Raises k (f a))
    → Raises k (m >>= f)
Raises-bind k (ok a) f hm hf e h = hf a e h
Raises-bind k (err x) f hm hf e h = hm e (cc)

pub Raises-require : (b : Bool) (k : ErrorKind) (m : String) → Raises k (require b k m)
Raises-require true k m e h = cc
Raises-require false k m e h = cc

pub Raises-ok {ℓ} : {A : Type ℓ} (k : ErrorKind) (a : A) → Raises k (ok a)
Raises-ok k a e h = cc

pub Raises-raise {ℓ} : {A : Type ℓ} (k : ErrorKind) (m : String) → Raises {A = A} k (raise k m)
Raises-raise k m e h = cc

-- Whatever `m` returns satisfies `P`.
abbrev pub Gives {κ μ} : {Value : Type κ} → (Value → Type μ) → Result Value → Type (κ ⊔ μ)
Gives {Value = Value} P m = (v : Value) → m ≡ ok v → P v

pub Gives-ok {κ μ} : {Value : Type κ} (P : Value → Type μ) (v : Value) → P v → Gives P (ok v)
Gives-ok P v p w h = subst P (ok-injective h) p

pub Gives-bind {κ μ ν ξ} :
    {Value : Type κ} {Next : Type μ} (P : Next → Type ν) (Q : Value → Type ξ) (m : Result Value)
    (f : Value → Result Next)
    → Gives Q m
    → ((v : Value) → Q v → Gives P (f v))
    → Gives P (m >>= f)
Gives-bind P Q (ok v) f hm hf w h = hf v (hm v refl) w h
Gives-bind P Q (err e) f hm hf w h = cc

-- The same where nothing is known of what `m` returns.
pub Gives-skip {κ μ ν} :
    {Value : Type κ} {Next : Type μ} (P : Next → Type ν) (m : Result Value)
    (f : Value → Result Next)
    → ((v : Value) → Gives P (f v))
    → Gives P (m >>= f)
Gives-skip P m f h = Gives-bind P (λ _. Unit {0}) m f (λ _ _. tt) (λ v _. h v)

-- Whatever `m` raises satisfies `P`.
abbrev pub Fails {κ μ} : {Value : Type κ} → (Error → Type μ) → Result Value → Type (κ ⊔ μ)
Fails P m = (x : Error) → m ≡ err x → P x

pub Fails-ok {κ μ} : {Value : Type κ} (P : Error → Type μ) (v : Value) → Fails P (ok v)
Fails-ok P v x h = cc

pub Fails-bind {κ μ ν} :
    {Value : Type κ} {Next : Type μ} (P : Error → Type ν) (m : Result Value)
    (f : Value → Result Next)
    → Fails P m
    → ((v : Value) → Fails P (f v))
    → Fails P (m >>= f)
Fails-bind P (ok v) f hm hf x h = hf v x h
Fails-bind P (err e) f hm hf x h = hm x (cc)

-- A check that was passed.
pub require-Gives : (b : Bool) (k : ErrorKind) (m : String) → Gives (λ _. b ≡ true) (require b k m)
require-Gives true k m u h = refl
require-Gives false k m u h = cc
