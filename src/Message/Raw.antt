-- ===== src/Message/Raw.antt =====
-- src/message.rs: requests and messages in raw form, as they come from the peer.

use fakepostmaster.Prelude.{ℕ, Option, none, some, List, ◌∷◌}
use fakepostmaster.Int.{ℤ, i32_from_be_bytes}
use fakepostmaster.Outcome.{Outcome, ok, err, panicked, out_of_fuel, ◌>>=◌, slice_out_of_range}
use fakepostmaster.Kind.Request.{RequestMessageKind}
use fakepostmaster.Kind.Backend.{BackendMessageKind, authentication, backend_kind_of}
use fakepostmaster.Kind.Authentication.{AuthenticationMessageKind, authentication_kind_of}
use fakepostmaster.Kind.Frontend.{FrontendMessageKind, frontend_kind_of}
use fakepostmaster.Message.Header.{RequestHeader, MessageHeader}

pub record RawRequest : Type 0 where
  pub header : RequestHeader
  pub request_kind : RequestMessageKind
  pub raw_body : List ℕ

pub record RawBackendMessage : Type 0 where
  pub header : MessageHeader
  pub raw_body : List ℕ

pub record RawFrontendMessage : Type 0 where
  pub header : MessageHeader
  pub raw_body : List ℕ

-- `i32::from_be_bytes` of `raw_body[0..4]`, which panics on a shorter body.
unfoldable pub first_i32 : List ℕ → Outcome ℤ
first_i32 (a ∷ b ∷ c ∷ d ∷ rest) = ok (i32_from_be_bytes a b c d)
first_i32 bs = panicked slice_out_of_range

-- `.ok()`
abbrev pub to_option {ℓ} : {A : Type ℓ} → Outcome A → Outcome (Option A)
to_option (ok a) = ok (some a)
to_option (err e) = ok none
to_option (panicked p) = panicked p
to_option out_of_fuel = out_of_fuel

-- `get_message_kind` of a backend message.
unfoldable pub backend_message_kind : RawBackendMessage → Outcome (Option BackendMessageKind)
backend_message_kind m = to_option (backend_kind_of m.header.message_type)

-- `get_message_kind` of a frontend message.
unfoldable pub frontend_message_kind : RawFrontendMessage → Outcome (Option FrontendMessageKind)
frontend_message_kind m = to_option (frontend_kind_of m.header.message_type)

unfoldable pub auth_kind_of_body :
    List ℕ → Option BackendMessageKind → Outcome (Option AuthenticationMessageKind)
auth_kind_of_body raw_body (some authentication) = do
  code ← first_i32 raw_body
  to_option (authentication_kind_of code)
auth_kind_of_body raw_body other = ok none

-- `get_auth_message_kind`
unfoldable pub auth_message_kind : RawBackendMessage → Outcome (Option AuthenticationMessageKind)
unfolding backend_message_kind auth_kind_of_body first_i32
auth_message_kind m = do kind ← backend_message_kind m; auth_kind_of_body m.raw_body kind
