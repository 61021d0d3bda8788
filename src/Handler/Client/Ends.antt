-- ===== src/Handler/Client/Ends.antt =====
-- The client's handlers end, whatever the server sends and the socket answers.
use fakepostmaster.Prelude.{
  ◌≡◌, refl, ℕ, zero, suc, ◌<◌, Bool, List, length, codes, arith, true, false,
}
use fakepostmaster.Outcome.{Outcome, Error, ok, err, panicked, out_of_fuel}
use fakepostmaster.Exec.{Exec, ◌>>=◌, lift, continue, map_err}
use fakepostmaster.Exec.Ends.{Ends, Consumes, value_of-Ends, map_err-Ends, continue-Ends}
use fakepostmaster.Buffer.{BytesCrate}
use fakepostmaster.Md5.{Md5Crate}
use fakepostmaster.Types.Text.{cstring_new}
use fakepostmaster.Message.Raw.{RawBackendMessage, backend_message_kind}
use fakepostmaster.Message.Get.{value_of}
use fakepostmaster.Message.Backend.{
  try_command_complete, try_ready_for_query, try_parameter_status, new_parameter_status,
}
use fakepostmaster.Message.Row.{try_row_description, try_data_row}
use fakepostmaster.Message.Frontend.{query_body, password_body, new_query, new_from_user_password}
use fakepostmaster.Message.Frontend.Laws.{new_from_user_password_lem}
use fakepostmaster.Message.Ends.{
  bind-Ends, backend_message_kind-Ends, try_parameter_status-Ends, try_md5_password-Ends,
  try_authentication_ok-Ends, try_backend_key_data-Ends, try_ready_for_query-Ends,
  try_row_description-Ends, try_data_row-Ends, try_command_complete-Ends,
}
use fakepostmaster.Handler.Connection.{TcpHandler, reading}
use fakepostmaster.Handler.Io.{get_raw_backend_message}
use fakepostmaster.Handler.Io.Ends.{
  get_raw_backend_message-Consumes, put_message_and_flush-Ends, put_request-Ends,
}
use fakepostmaster.Handler.Client.Asking.{client_query}
use fakepostmaster.Handler.Client.Session.{client_startup}
use fakepostmaster.Message.Startup.{startup}
use fakepostmaster.Message.Authentication.{try_md5_password, try_authentication_ok}
use fakepostmaster.Handler.Client.{
  debug_parameter_status, is_parameter_status, skip_parameters, md5_authentication_handler,
  simple_query_handler,
}

reading_cases :
    {C : Type 0} (f : RawBackendMessage → Exec TcpHandler C) (r : Outcome RawBackendMessage)
    (left : List ℕ) (h : TcpHandler)
    → Consumes 5 h.tcp_reader r left
    → ((m : RawBackendMessage) (h' : TcpHandler)
        → length h'.tcp_reader < length h.tcp_reader
        → Ends (f m h').0)
    → Ends (continue r f (record h { tcp_reader = left })).0
reading_cases f (ok m) left h c k = k m (record h { tcp_reader = left }) (omega arith)
reading_cases f (err e) left h c k = tt
reading_cases f (panicked p) left h c k = tt
reading_cases f out_of_fuel left h c k = c

either-Ends :
    {C : Type 0} (b : Bool) (p q : Exec TcpHandler C) (h : TcpHandler)
    → Ends (p h).0
    → Ends (q h).0
    → Ends ((elim b as (λ x. Exec TcpHandler C) [ true ↦ p | false ↦ q ]) h).0
either-Ends true p q h hp hq = hp
either-Ends false p q h hp hq = hq

-- The same of two continuations.
continue_same :
    {A C : Type 0} (r : Outcome A) (f g : A → Exec TcpHandler C) (h : TcpHandler)
    → ((a : A) → f a h ≡ g a h)
    → continue r f h ≡ continue r g h
continue_same (ok a) f g h k = k a
continue_same (err e) f g h k = refl
continue_same (panicked p) f g h k = refl
continue_same out_of_fuel f g h k = refl

either_same :
    {C : Type 0} (b : Bool) (p p' q : Exec TcpHandler C) (h : TcpHandler)
    → p h ≡ p' h
    → (elim b as (λ x. Exec TcpHandler C) [ true ↦ p | false ↦ q ]) h
      ≡ (elim b as (λ x. Exec TcpHandler C) [ true ↦ p' | false ↦ q ]) h
either_same true p p' q h e = e
either_same false p p' q h e = refl

reading_same :
    {C : Type 0} (f g : RawBackendMessage → Exec TcpHandler C) (r : Outcome RawBackendMessage)
    (left : List ℕ) (h : TcpHandler)
    → Consumes 5 h.tcp_reader r left
    → ((m : RawBackendMessage) (h' : TcpHandler)
        → length h'.tcp_reader < length h.tcp_reader
        → f m h' ≡ g m h')
    → continue r f (record h { tcp_reader = left }) ≡ continue r g (record h { tcp_reader = left })
reading_same f g (ok m) left h c k = k m (record h { tcp_reader = left }) (omega arith)
reading_same f g (err e) left h c k = refl
reading_same f g (panicked p) left h c k = refl
reading_same f g out_of_fuel left h c k = refl

module _ (B : BytesCrate) where
  -- Reading a message ends, and the steps behind it have fewer bytes to read.
  reading-Ends :
      {C : Type 0} (f : RawBackendMessage → Exec TcpHandler C) (h : TcpHandler)
      → ((m : RawBackendMessage) (h' : TcpHandler)
          → length h'.tcp_reader < length h.tcp_reader
          → Ends (f m h').0)
      → Ends
          (continue
            (reading (get_raw_backend_message B) h).0
            f
            (reading (get_raw_backend_message B) h).1).0
  reading-Ends f h k = reading_cases f _ _ h (get_raw_backend_message-Consumes B h.tcp_reader) k

  debug_parameter_status-Ends :
      (debug : Bool) (m : RawBackendMessage) → Ends (debug_parameter_status B debug m)
  unfolding debug_parameter_status
  debug_parameter_status-Ends true m =
      bind-Ends (value_of (try_parameter_status B m)) _
        (value_of-Ends _ (try_parameter_status-Ends B m)) (λ status. tt)
  debug_parameter_status-Ends false m = tt

  pub skip_parameters-Ends :
      (debug : Bool) (f : ℕ) (m : RawBackendMessage) (h : TcpHandler)
      → length h.tcp_reader < f
      → Ends (skip_parameters B debug f m h).0
  unfolding skip_parameters
  skip_parameters-Ends debug zero m h l = absurd (omega arith)
  skip_parameters-Ends debug (suc f) m h l =
      continue-Ends (backend_message_kind m) _ h (backend_message_kind-Ends m) (λ k.
        either-Ends (is_parameter_status k) _ _ h
          (continue-Ends (debug_parameter_status B debug m) _ h
            (debug_parameter_status-Ends debug m)
            (λ status.
              reading-Ends _ h (λ m' h' l'. skip_parameters-Ends debug f m' h' (omega arith))))
          tt)

  -- Any two units of fuel that are more than the bytes left do the same.
  pub skip_parameters-fuel :
      (debug : Bool) (f f' : ℕ) (m : RawBackendMessage) (h : TcpHandler)
      → length h.tcp_reader < f
      → length h.tcp_reader < f'
      → skip_parameters B debug f m h ≡ skip_parameters B debug f' m h
  unfolding skip_parameters
  skip_parameters-fuel debug zero f' m h l l' = absurd (omega arith)
  skip_parameters-fuel debug (suc f) zero m h l l' = absurd (omega arith)
  skip_parameters-fuel debug (suc f) (suc f') m h l l' =
      continue_same (backend_message_kind m) _ _ h (λ k.
        either_same (is_parameter_status k) _ _ _ h (
          continue_same (debug_parameter_status B debug m) _ _ h (λ logged.
            reading_same _ _ _ _ h (get_raw_backend_message-Consumes B h.tcp_reader)
              (λ m' h' s. skip_parameters-fuel debug f f' m' h' (omega arith) (omega arith)))))

  -- A message that is read and has to be of one type.
  expect-Ends :
      {A C : Type 0} (e : Error) (try : RawBackendMessage → Outcome (A × List ℕ))
      (f : A → Exec TcpHandler C) (h : TcpHandler)
      → ((m : RawBackendMessage) → Ends (try m))
      → ((a : A) (h' : TcpHandler) → Ends (f a h').0)
      → Ends
          ((reading (get_raw_backend_message B) >>= λ m. lift (map_err e (value_of (try m))) >>= f)
            h).0
  expect-Ends e try f h t k = reading-Ends _ h (λ m h' l.
      continue-Ends (map_err e (value_of (try m))) f h' (map_err-Ends e _ (value_of-Ends _ (t m)))
        (λ a. k a h'))

  -- Whatever the server sends and however the socket takes what is written, the client's query handler
  -- ends: it returns, fails or panics.
  pub simple_query_handler-Ends : (h : TcpHandler) → Ends (simple_query_handler B h).0
  unfolding simple_query_handler new_query cstring_new
  simple_query_handler-Ends h =
      continue-Ends _ _ _ (put_message_and_flush-Ends B (query_body B) client_query h.tcp_writer)
        (λ u. expect-Ends _ (try_row_description B) _ _ (try_row_description-Ends B) (λ d h₁.
          expect-Ends _ (try_data_row B) _ h₁ (try_data_row-Ends B) (λ r h₂.
            expect-Ends _ (try_command_complete B) _ h₂ (try_command_complete-Ends B) (λ c h₃.
              expect-Ends _ (try_ready_for_query B) _ h₃ (try_ready_for_query-Ends B)
                (λ z h₄. tt)))))

  module _ (D : Md5Crate) where
    new_from_user_password-Ends :
        (user password salt : List ℕ) → Ends (new_from_user_password D user password salt)
    new_from_user_password-Ends user password salt =
        rw ((new_from_user_password_lem D user password salt).0) tt

    -- Whatever the server sends and however the socket takes what is written, the client's
    -- authentication ends: it returns, fails or panics. The fuel of the loop over the parameters is
    -- enough, since each message takes bytes off the wire.
    pub client_authentication-Ends :
        (debug : Bool) (h : TcpHandler) → Ends (md5_authentication_handler B D debug h).0
    unfolding md5_authentication_handler new_parameter_status cstring_new
    client_authentication-Ends debug h =
        continue-Ends _ _ _ (put_request-Ends B (startup B) client_startup h.tcp_writer) (λ u.
          expect-Ends _ (try_md5_password B) _ _ (try_md5_password-Ends B) (λ message h₁.
            continue-Ends
              (new_from_user_password D (codes "md5user") (codes "md5pass") message.salt) _ h₁
              (new_from_user_password-Ends (codes "md5user") (codes "md5pass") message.salt)
              (λ password.
                continue-Ends _ _ _
                  (put_message_and_flush-Ends B (password_body B) password h₁.tcp_writer)
                  (λ u'.
                    expect-Ends _ (try_authentication_ok B) _ _ (try_authentication_ok-Ends B)
                      (λ done h₂. reading-Ends _ h₂ (λ first h₃ l.
                        continue-Ends _ _ _
                          (skip_parameters-Ends debug (suc (length h₃.tcp_reader)) first h₃
                            (omega arith))
                          (λ last.
                            continue-Ends _ _ _
                              (map_err-Ends _ _
                                (value_of-Ends _ (try_backend_key_data-Ends B last)))
                              (λ key.
                                expect-Ends _ (try_ready_for_query B) _ _
                                  (try_ready_for_query-Ends B) (λ z h₄. tt)))))))))
