-- ===== src/Handler/Io/Keeps.antt =====
-- What reading and writing a message keeps, however it ends.
use fakepostmaster.Prelude.{
  ℕ, ◌≡◌, refl, sym, ap, ◌∙◌, List, [], ◌++◌, append-nil, append_assoc, length, take, leb,
  Bool-cases, inl, inr, take-append-drop, Option, some,
}
use fakepostmaster.Int.{ℤ}
use fakepostmaster.Exec.Keeps.{IsPreorder, Keeps, keeps_rules}
use fakepostmaster.Buffer.{BytesCrate}
use fakepostmaster.Wire.{Wire}
use fakepostmaster.Stream.Reader.{BufReader, read_exact}
use fakepostmaster.Stream.Writer.Keeps.{Kept, Kept-IsPreorder, write-Keeps, flush-Keeps}
use fakepostmaster.Kind.Backend.{BackendMessageKind}
use fakepostmaster.Message.Header.{MessageBody}
use fakepostmaster.Message.Raw.{RawBackendMessage}
use fakepostmaster.Message.Get.{read_body, get_request, get_backend_message, get_frontend_message}
use fakepostmaster.Handler.Io.{
  unless_error, get_raw_backend_message, get_raw_frontend_message, put_message,
  put_message_and_flush, put_request,
}

-- What is left to read is an end of what was.
pub record Advanced (input left : BufReader) : Type 0 where
  pub taken : List ℕ
  pub in_order : input ≡ taken ++ left

instance abbrev pub Advanced-IsPreorder : IsPreorder Advanced
Advanced-IsPreorder = record {
  unchanged = λ input. record { taken = []; in_order = refl };
  changed_twice = λ i j k h l. record {
    taken = h.taken ++ l.taken;
    in_order =
        h.in_order ∙ ap (λ t. h.taken ++ t) l.in_order ∙ sym (append_assoc h.taken l.taken k);
  };
}

read_exact-Keeps : (n : ℕ) → Keeps Advanced (read_exact n)
unfolding read_exact
read_exact-Keeps n = record {
  at = λ input. elim (Bool-cases (leb n (length input))) [
    | inl l ↦ rw l (record { taken = take n input; in_order = sym (take-append-drop n input) })
    | inr l ↦ rw l (record { taken = input; in_order = sym (append-nil input) })
  ];
}

read_body-Keeps : (z : ℤ) → Keeps Advanced (read_body z)
unfolding read_body
read_body-Keeps z = search (keeps_rules, read_exact-Keeps)

module _ (B : BytesCrate) where
  pub get_request-Keeps : Keeps Advanced (get_request B)
  unfolding get_request
  get_request-Keeps = search (keeps_rules, read_exact-Keeps, read_body-Keeps) depth 12

  get_backend_message-Keeps : Keeps Advanced (get_backend_message B)
  unfolding get_backend_message
  get_backend_message-Keeps = search (keeps_rules, read_exact-Keeps, read_body-Keeps) depth 12

  pub get_raw_frontend_message-Keeps : Keeps Advanced (get_raw_frontend_message B)
  unfolding get_raw_frontend_message get_frontend_message
  get_raw_frontend_message-Keeps = search (keeps_rules, read_exact-Keeps, read_body-Keeps) depth 12

  unless_error-Keeps :
      (m : RawBackendMessage) (k : Option BackendMessageKind) → Keeps Advanced (unless_error B m k)
  unfolding unless_error
  unless_error-Keeps m (some BackendMessageKind.error_response) = search keeps_rules
  unless_error-Keeps m k = search keeps_rules

  pub get_raw_backend_message-Keeps : Keeps Advanced (get_raw_backend_message B)
  unfolding get_raw_backend_message
  get_raw_backend_message-Keeps =
      search (keeps_rules, get_backend_message-Keeps, unless_error-Keeps) depth 12

  module _ {A : Type 0} where
    pub put_message-Keeps : (m : MessageBody A) (a : A) → Keeps Kept (put_message B m a)
    unfolding put_message
    put_message-Keeps m a = search (keeps_rules, write-Keeps) depth 12

    pub put_message_and_flush-Keeps :
        (m : MessageBody A) (a : A) → Keeps Kept (put_message_and_flush B m a)
    unfolding put_message_and_flush
    put_message_and_flush-Keeps m a = search (keeps_rules, put_message-Keeps, flush-Keeps) depth 12

    pub put_request-Keeps : (w : Wire A) (a : A) → Keeps Kept (put_request B w a)
    unfolding put_request
    put_request-Keeps w a = search (keeps_rules, write-Keeps, flush-Keeps) depth 12
