-- ===== src/Runtime/Listener/Access.antt =====
-- Who is let in by the listener of runtime/http_server.py, and what it answers.
use Prim.Native.String.{◌++◌}
use planes.Base.{
  ℕ, String, eq_iff, eq_refl, true, false, ◌&&◌, ◌==◌, ◌≡◌, refl, ap, ◌↔◌, inl, inr, Option, none,
  some, Bool-cases, and_right, arith, eqb,
}
use planes.Base.Text.{strip_prefix, strip_prefix-some, strip_prefix-append}
use planes.Base.Result.{ok, ok-injective}
use planes.Runtime.Listener.{text_length, is_ascii, compare_digest, check_token, authorized}

-- The token is ASCII and not empty, and the header is `Bearer ` and the token.
pub record Bears (sent : Option String) (token : String) : Type 0 where
  pub header : sent ≡ some ("Bearer " ++ token)
  pub given : (token == "") ≡ false
  pub ascii : is_ascii token ≡ true

digest-same : (a b : String) → compare_digest a b ≡ ok true → (a ≡ b) × (is_ascii b ≡ true)
digest-same a b h = elim (Bool-cases (is_ascii a && is_ascii b)) [
  | inl plain ↦
      ((eq_iff a b).0 (ok-injective (rw plain at h)), and_right (is_ascii a) (is_ascii b) plain)
  | inr other ↦ cc (rw other at h)
]

token-same :
    (token : String) (o : Option String)
    → check_token token o ≡ ok true
    → (o ≡ some token) × (is_ascii token ≡ true)
token-same token none h = cc
token-same token (some presented) h =
    elim (Bool-cases (eqb (text_length presented) (text_length token))) [
      | inr other ↦ cc (rw other at h)
      | inl same ↦ let (e, plain) = digest-same presented token (rw same at h) in (ap some e, plain)
    ]

authorized-Bears :
    (header : Option String) (token : String)
    → authorized header token ≡ ok true
    → Bears header token
unfolding authorized
authorized-Bears none token h = cc
authorized-Bears (some text) token h = elim (Bool-cases (token == "")) [
  | inl empty ↦ cc (rw empty at h)
  | inr given ↦
      let (e, plain) = token-same token (strip_prefix "Bearer " text) (rw given at h) in
      record {
        header = ap some (strip_prefix-some "Bearer " text token e);
        given = given;
        ascii = plain;
      }
]

Bears-authorized :
    (header : Option String) (token : String)
    → Bears header token
    → authorized header token ≡ ok true
unfolding authorized
Bears-authorized header token b =
    rw
      (
        b.header,
        b.given,
        strip_prefix-append "Bearer " token,
        eqb_refl (text_length token),
        b.ascii,
        eq_refl token,
      )
      refl
  where
    eqb_refl : (n : ℕ) → eqb n n ≡ true
    eqb_refl n = ground arith

-- A request is let in exactly if its header is `Bearer ` and the token, which is ASCII and not empty.
pub authorized_iff :
    (header : Option String) (token : String)
    → (authorized header token ≡ ok true) ↔ Bears header token
authorized_iff header token = (authorized-Bears header token, Bears-authorized header token)
