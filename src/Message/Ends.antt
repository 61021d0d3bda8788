-- ===== src/Message/Ends.antt =====
-- The conversions of raw messages and requests end on any body.
use fakepostmaster.Prelude.{ℕ, Option, none, some, List, [], ◌∷◌, ◌==◌, Bool-cases, inl, inr, arith}
use fakepostmaster.Int.{ℤ}
use fakepostmaster.Outcome.{Outcome, Error, ok, err, panicked, out_of_fuel, ◌>>=◌}
use fakepostmaster.Exec.Ends.{Ends, Returns-Ends}
use fakepostmaster.Buffer.{BytesCrate}
use fakepostmaster.Derive.{try_from_raw_message}
use fakepostmaster.Kind.Request.{RequestMessageKind, startup_message, request_kind_of}
use fakepostmaster.Kind.Backend.{BackendMessageKind, backend_kind_of}
use fakepostmaster.Kind.Authentication.{
  AuthenticationMessageKind, authentication_ok, md5_password, authentication_kind_of,
}
use fakepostmaster.Message.Header.{MessageBody}
use fakepostmaster.Message.Raw.{
  RawRequest, RawBackendMessage, RawFrontendMessage, first_i32, to_option, backend_message_kind,
  auth_kind_of_body, auth_message_kind,
}
use fakepostmaster.Message.Backend.{
  backend_key_data_body, command_complete_body, parameter_status_body, ready_for_query_body,
  try_backend_key_data, try_command_complete, try_parameter_status, try_ready_for_query,
}
use fakepostmaster.Message.Row.{
  row_description_body, data_row_body, try_row_description, try_data_row,
}
use fakepostmaster.Message.Errors.{error_response_body, try_error_response}
use fakepostmaster.Message.Frontend.{password_body, query_body, try_password, try_query}
use fakepostmaster.Message.Reliable.Frontend.{password_body-IsReliable, query_body-IsReliable}
use fakepostmaster.Message.Reliable.Rows.{row_description_body-IsReliable, data_row_body-IsReliable}
use fakepostmaster.Message.Startup.{try_startup, read_startup}
use fakepostmaster.Message.Authentication.{
  when_authentication, read_ok, read_md5, try_authentication_ok, try_md5_password,
}
use fakepostmaster.Message.Reliable.{IsReliable}
use fakepostmaster.Message.Reliable.Backend.{
  authentication_ok_body-IsReliable, md5_password_body-IsReliable, backend_key_data_body-IsReliable,
  command_complete_body-IsReliable, parameter_status_body-IsReliable,
  ready_for_query_body-IsReliable,
}
use fakepostmaster.Message.Reliable.Lists.{startup-IsSized, error_response_body-IsReliable}

pub try_from_raw_message-Ends :
    {A : Type 0} (m : MessageBody A) {kind : ℕ} {IsValid : A → Type 0} {encode : A → List ℕ}
    (R : IsReliable m kind IsValid encode) (impossible : Error) (wanted message_type : ℕ)
    (raw_body : List ℕ)
    → Ends (try_from_raw_message impossible wanted m.wire message_type raw_body)
unfolding try_from_raw_message
try_from_raw_message-Ends m R impossible wanted message_type raw_body =
    elim (Bool-cases (wanted == message_type)) [
      | inl same ↦ rw same (Returns-Ends _ (R.returns raw_body))
      | inr other ↦ rw other tt
    ]

pub first_i32-Ends : (bs : List ℕ) → Ends (first_i32 bs)
unfolding first_i32
first_i32-Ends [] = tt
first_i32-Ends (a ∷ []) = tt
first_i32-Ends (a ∷ b ∷ []) = tt
first_i32-Ends (a ∷ b ∷ c ∷ []) = tt
first_i32-Ends (a ∷ b ∷ c ∷ d ∷ bs) = tt

pub request_kind_of-Ends : (c : ℤ) → Ends (request_kind_of c)
unfolding request_kind_of
request_kind_of-Ends c = ground arith

pub backend_kind_of-Ends : (c : ℕ) → Ends (backend_kind_of c)
unfolding backend_kind_of
backend_kind_of-Ends c = ground arith

authentication_kind_of-Ends : (c : ℤ) → Ends (authentication_kind_of c)
unfolding authentication_kind_of
authentication_kind_of-Ends c = ground arith

to_option-Ends {ℓ} : {A : Type ℓ} (r : Outcome A) → Ends r → Ends (to_option r)
to_option-Ends (ok a) h = tt
to_option-Ends (err e) h = tt
to_option-Ends (panicked p) h = tt
to_option-Ends out_of_fuel h = h

pub bind-Ends {ℓ κ} :
    {A : Type ℓ} {C : Type κ} (r : Outcome A) (f : A → Outcome C)
    → Ends r
    → ((a : A) → Ends (f a))
    → Ends (r >>= f)
bind-Ends (ok a) f h k = k a
bind-Ends (err e) f h k = tt
bind-Ends (panicked p) f h k = tt
bind-Ends out_of_fuel f h k = h

pub backend_message_kind-Ends : (m : RawBackendMessage) → Ends (backend_message_kind m)
unfolding backend_message_kind
backend_message_kind-Ends m = to_option-Ends _ (backend_kind_of-Ends m.header.message_type)

auth_kind_of_body-Ends :
    (raw_body : List ℕ) (k : Option BackendMessageKind) → Ends (auth_kind_of_body raw_body k)
unfolding auth_kind_of_body
auth_kind_of_body-Ends raw_body (some BackendMessageKind.authentication) =
    bind-Ends (first_i32 raw_body) _ (first_i32-Ends raw_body)
      (λ code. to_option-Ends _ (authentication_kind_of-Ends code))
auth_kind_of_body-Ends raw_body k = tt

auth_message_kind-Ends : (m : RawBackendMessage) → Ends (auth_message_kind m)
unfolding auth_message_kind
auth_message_kind-Ends m =
    bind-Ends (backend_message_kind m) _ (backend_message_kind-Ends m)
      (auth_kind_of_body-Ends m.raw_body)

when_authentication-Ends :
    {A : Type 0} (k : Option BackendMessageKind) (auth : Outcome (Option AuthenticationMessageKind))
    (read : AuthenticationMessageKind → Outcome (A × List ℕ))
    → Ends auth
    → ((a : AuthenticationMessageKind) → Ends (read a))
    → Ends (when_authentication k auth read)
unfolding when_authentication
when_authentication-Ends (some BackendMessageKind.authentication) auth read h r =
    bind-Ends auth _ h (elim [ none ↦ tt | some a ↦ r a ])
when_authentication-Ends k auth read h r = tt

module _ (B : BytesCrate) where
  read_ok-Ends : (bs : List ℕ) (k : AuthenticationMessageKind) → Ends (read_ok B bs k)
  unfolding read_ok
  read_ok-Ends bs authentication_ok =
      Returns-Ends _ ((authentication_ok_body-IsReliable B).returns bs)
  read_ok-Ends bs k = tt

  read_md5-Ends : (bs : List ℕ) (k : AuthenticationMessageKind) → Ends (read_md5 B bs k)
  unfolding read_md5
  read_md5-Ends bs md5_password = Returns-Ends _ ((md5_password_body-IsReliable B).returns bs)
  read_md5-Ends bs k = tt

  pub try_authentication_ok-Ends : (m : RawBackendMessage) → Ends (try_authentication_ok B m)
  unfolding try_authentication_ok
  try_authentication_ok-Ends m =
      bind-Ends (backend_message_kind m) _ (backend_message_kind-Ends m)
        (λ k. when_authentication-Ends k _ _ (auth_message_kind-Ends m) (read_ok-Ends m.raw_body))

  pub try_md5_password-Ends : (m : RawBackendMessage) → Ends (try_md5_password B m)
  unfolding try_md5_password
  try_md5_password-Ends m =
      bind-Ends (backend_message_kind m) _ (backend_message_kind-Ends m)
        (λ k. when_authentication-Ends k _ _ (auth_message_kind-Ends m) (read_md5-Ends m.raw_body))

  read_startup-Ends : (bs : List ℕ) (k : RequestMessageKind) → Ends (read_startup B bs k)
  unfolding read_startup
  read_startup-Ends bs startup_message = Returns-Ends _ ((startup-IsSized B).takes bs)
  read_startup-Ends bs k = tt

  pub try_startup-Ends : (r : RawRequest) → Ends (try_startup B r)
  unfolding try_startup
  try_startup-Ends r = read_startup-Ends r.raw_body r.request_kind

  pub try_backend_key_data-Ends : (m : RawBackendMessage) → Ends (try_backend_key_data B m)
  unfolding try_backend_key_data
  try_backend_key_data-Ends m =
      try_from_raw_message-Ends (backend_key_data_body B) (backend_key_data_body-IsReliable B) _ _
        m.header.message_type m.raw_body

  pub try_command_complete-Ends : (m : RawBackendMessage) → Ends (try_command_complete B m)
  unfolding try_command_complete
  try_command_complete-Ends m =
      try_from_raw_message-Ends (command_complete_body B) (command_complete_body-IsReliable B) _ _
        m.header.message_type m.raw_body

  pub try_parameter_status-Ends : (m : RawBackendMessage) → Ends (try_parameter_status B m)
  unfolding try_parameter_status
  try_parameter_status-Ends m =
      try_from_raw_message-Ends (parameter_status_body B) (parameter_status_body-IsReliable B) _ _
        m.header.message_type m.raw_body

  pub try_ready_for_query-Ends : (m : RawBackendMessage) → Ends (try_ready_for_query B m)
  unfolding try_ready_for_query
  try_ready_for_query-Ends m =
      try_from_raw_message-Ends (ready_for_query_body B) (ready_for_query_body-IsReliable B) _ _
        m.header.message_type m.raw_body

  pub try_row_description-Ends : (m : RawBackendMessage) → Ends (try_row_description B m)
  unfolding try_row_description
  try_row_description-Ends m =
      try_from_raw_message-Ends (row_description_body B) (row_description_body-IsReliable B) _ _
        m.header.message_type m.raw_body

  pub try_data_row-Ends : (m : RawBackendMessage) → Ends (try_data_row B m)
  unfolding try_data_row
  try_data_row-Ends m =
      try_from_raw_message-Ends (data_row_body B) (data_row_body-IsReliable B) _ _
        m.header.message_type m.raw_body

  pub try_error_response-Ends : (m : RawBackendMessage) → Ends (try_error_response B m)
  unfolding try_error_response
  try_error_response-Ends m =
      try_from_raw_message-Ends (error_response_body B) (error_response_body-IsReliable B) _ _
        m.header.message_type m.raw_body

  pub try_password-Ends : (m : RawFrontendMessage) → Ends (try_password B m)
  unfolding try_password
  try_password-Ends m =
      try_from_raw_message-Ends (password_body B) (password_body-IsReliable B) _ _
        m.header.message_type m.raw_body

  pub try_query-Ends : (m : RawFrontendMessage) → Ends (try_query B m)
  unfolding try_query
  try_query-Ends m =
      try_from_raw_message-Ends (query_body B) (query_body-IsReliable B) _ _ m.header.message_type
        m.raw_body
