-- ===== src/Kind/Codes.antt =====
-- The codes of the enumerations: each `TryFrom` inverts its `From`, as far as the code allows.
use fakepostmaster.Prelude.{
  ℕ, ◌≡◌, ◌↔◌, refl, ap, sym, ◌∙◌, arith, Bool, true, false, if◌then◌else◌,
}
use fakepostmaster.Int.{ℤ}
use fakepostmaster.Outcome.{ok, err, kind_needs_context}
use fakepostmaster.Outcome.Laws.{Decides}
use fakepostmaster.Kind.Request.{RequestMessageKind, startup_message, request_code, request_kind_of}
use fakepostmaster.Kind.Backend.{BackendMessageKind, authentication, backend_code, backend_kind_of}
use fakepostmaster.Kind.Authentication.{
  AuthenticationMessageKind, authentication_ok, authentication_code, authentication_kind_of,
}
use fakepostmaster.Kind.Frontend.{
  FrontendMessageKind, bind, gss_response, parse, password_message, sasl_initial_response,
  sasl_response, frontend_code, frontend_kind_of,
}

backend_kind_of-backend_code : (k : BackendMessageKind) → backend_kind_of (backend_code k) ≡ ok k
unfolding backend_kind_of backend_code
backend_kind_of-backend_code authentication = refl
backend_kind_of-backend_code k = refl

backend_kind_of_sound :
    (c : ℕ) (k : BackendMessageKind) → backend_kind_of c ≡ ok k → backend_code k ≡ c
unfolding backend_kind_of backend_code
backend_kind_of_sound c k h = ground arith

-- A byte is read as a kind of backend message exactly when it is the code of that kind.
pub backend_kind_of_iff :
    (c : ℕ) (k : BackendMessageKind) → (backend_kind_of c ≡ ok k) ↔ (backend_code k ≡ c)
backend_kind_of_iff c k =
    (backend_kind_of_sound c k, λ e. ap backend_kind_of (sym e) ∙ backend_kind_of-backend_code k)

request_kind_of-request_code : (k : RequestMessageKind) → request_kind_of (request_code k) ≡ ok k
unfolding request_kind_of request_code
request_kind_of-request_code startup_message = refl
request_kind_of-request_code k = refl

request_kind_of_sound :
    (c : ℤ) (k : RequestMessageKind) → request_kind_of c ≡ ok k → request_code k ≡ c
unfolding request_kind_of request_code
request_kind_of_sound c k h = ground arith

-- A number is read as a kind of request exactly when it is the code of that kind.
pub request_kind_of_iff :
    (c : ℤ) (k : RequestMessageKind) → (request_kind_of c ≡ ok k) ↔ (request_code k ≡ c)
request_kind_of_iff c k =
    (request_kind_of_sound c k, λ e. ap request_kind_of (sym e) ∙ request_kind_of-request_code k)

authentication_kind_of-authentication_code :
    (k : AuthenticationMessageKind) → authentication_kind_of (authentication_code k) ≡ ok k
unfolding authentication_kind_of authentication_code
authentication_kind_of-authentication_code authentication_ok = refl
authentication_kind_of-authentication_code k = refl

authentication_kind_of_sound :
    (c : ℤ) (k : AuthenticationMessageKind)
    → authentication_kind_of c ≡ ok k
    → authentication_code k ≡ c
unfolding authentication_kind_of authentication_code
authentication_kind_of_sound c k h = ground arith

-- A number is read as a kind of authentication message exactly when it is the code of that kind.
pub authentication_kind_of_iff :
    (c : ℤ) (k : AuthenticationMessageKind)
    → (authentication_kind_of c ≡ ok k) ↔ (authentication_code k ≡ c)
authentication_kind_of_iff c k = (
  authentication_kind_of_sound c k,
  λ e. ap authentication_kind_of (sym e) ∙ authentication_kind_of-authentication_code k,
)

-- The kinds whose code says too little: it also stands for other messages, or for none of these.
abbrev pub needs_context : FrontendMessageKind → Bool
needs_context gss_response = true
needs_context parse = true
needs_context password_message = true
needs_context sasl_initial_response = true
needs_context sasl_response = true
needs_context k = false

frontend_kind_of-frontend_code :
    (k : FrontendMessageKind)
    → frontend_kind_of (frontend_code k)
      ≡ (if needs_context k then err kind_needs_context else ok k)
unfolding frontend_kind_of frontend_code
frontend_kind_of-frontend_code bind = refl
frontend_kind_of-frontend_code k = refl

frontend_kind_of_sound :
    (c : ℕ) (k : FrontendMessageKind) → frontend_kind_of c ≡ ok k → frontend_code k ≡ c
unfolding frontend_kind_of frontend_code
frontend_kind_of_sound c k h = ground arith

frontend_kind_of_knows :
    (c : ℕ) (k : FrontendMessageKind) → frontend_kind_of c ≡ ok k → needs_context k ≡ false
unfolding frontend_kind_of
frontend_kind_of_knows c k h = ground arith

frontend_kind_of_complete :
    (c : ℕ) (k : FrontendMessageKind)
    → needs_context k ≡ false
    → frontend_code k ≡ c
    → frontend_kind_of c ≡ ok k
frontend_kind_of_complete c k n e =
    ap frontend_kind_of (sym e) ∙ frontend_kind_of-frontend_code k ∙ rw n

-- A byte is read as a kind exactly when it is the code of that kind and the kind is not one of five
-- kinds; the code of each of the five is an error.
pub frontend_kind_of_lem :
    (c : ℕ) (k : FrontendMessageKind)
    → ((frontend_kind_of c ≡ ok k) ↔ ((needs_context k ≡ false) × (frontend_code k ≡ c)))
      × (frontend_kind_of (frontend_code k)
          ≡ (if needs_context k then err kind_needs_context else ok k))
frontend_kind_of_lem c k = (
  (
    λ h. (frontend_kind_of_knows c k h, frontend_kind_of_sound c k h),
    λ h. frontend_kind_of_complete c k h.0 h.1,
  ),
  frontend_kind_of-frontend_code k,
)

pub backend_kind_of-Decides : (c : ℕ) → Decides (backend_kind_of c)
unfolding backend_kind_of
backend_kind_of-Decides c = ground arith

pub authentication_kind_of-Decides : (c : ℤ) → Decides (authentication_kind_of c)
unfolding authentication_kind_of
authentication_kind_of-Decides c = ground arith
