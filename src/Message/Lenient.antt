-- ===== src/Message/Lenient.antt =====
-- Messages that are read although the format does not allow them.
use fakepostmaster.Prelude.{ℕ, ◌≡◌, sym, List, [], ◌∷◌, ◌++◌, append_assoc, append-nil}
use fakepostmaster.Int.{IsByte}
use fakepostmaster.Outcome.{ok, impossible_from_backend}
use fakepostmaster.Buffer.{BytesCrate}
use fakepostmaster.Types.Text.Laws.{IsText}
use fakepostmaster.Message.Frame.{raw_backend}
use fakepostmaster.Message.Backend.{try_ready_for_query}
use fakepostmaster.Message.Errors.{ErrorResponse, new_error_response, try_error_response}
use fakepostmaster.Message.Reliable.{try_from-encode}
use fakepostmaster.Message.Reliable.Backend.{ready_for_query_body-IsReliable}
use fakepostmaster.Message.Reliable.Lists.{error_response_encode, error_response_body-IsReliable}

abbrev pub one_field : ℕ → List ℕ → ErrorResponse
one_field code message = new_error_response (record { code = code; message = message } ∷ [])

module _ (B : BytesCrate) where
  field_bytes :
      (code : ℕ) (message : List ℕ)
      → error_response_encode B (one_field code message) ≡ code ∷ message ++ 0 ∷ 0 ∷ []
  field_bytes code message = simp (append-nil, append_assoc)

  -- Whatever the byte is, a `ReadyForQuery` is read with it as its indicator, of which the format has
  -- three; and an `ErrorResponse` that has the byte, a text, the zero byte that ends the text and the
  -- one that ends the fields is read as one field with the byte as its code, also where the byte is
  -- zero, which is the end of the fields in the format.
  pub try_lenient :
      (byte : ℕ) (message : List ℕ)
      → IsByte byte
      → IsText message
      → (try_ready_for_query B (raw_backend b'Z' (byte ∷ []))
          ≡ ok (record { transaction_indicator = byte }, []))
        × (try_error_response B (raw_backend b'E' (byte ∷ message ++ 0 ∷ 0 ∷ []))
            ≡ ok (one_field byte message, []))
  unfolding try_ready_for_query try_error_response
  try_lenient byte message b t = (
    try_from-encode B _ (ready_for_query_body-IsReliable B) impossible_from_backend
        (record { transaction_indicator = byte }) (b, tt),
    rw (sym (field_bytes byte message)) (
        try_from-encode B _ (error_response_body-IsReliable B) impossible_from_backend
          (one_field byte message) (((b, (t, tt)), tt), tt)),
  )
