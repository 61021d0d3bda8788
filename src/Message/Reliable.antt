-- ===== src/Message/Reliable.antt =====
-- What a message promises to its sender and its receiver.
pub mod Backend
pub mod Frontend
pub mod Rows
pub mod Lists
use fakepostmaster.Prelude.{
  ℕ, ◌+◌, ◌<◌, ◌≤◌, ◌≡◌, refl, ap, ◌∙◌, sym, List, [], ◌∷◌, ◌++◌, append_assoc, append-nil, length,
  arith,
}
use fakepostmaster.Int.{pos, IsByte, i32_to_be_bytes, add_i32}
use fakepostmaster.Int.Laws.{add_i32_small}
use fakepostmaster.Outcome.{Outcome, Error, ok}
use fakepostmaster.Outcome.Laws.{Returns, Returns-weaken}
use fakepostmaster.Buffer.{BytesCrate}
use fakepostmaster.Wire.{Wire}
use fakepostmaster.Wire.Lawful.{IsSized, ReadsBackWhole}
use fakepostmaster.Derive.{Fields, Values, serde_libpq_data, try_from_raw_message}
use fakepostmaster.Derive.Laws.{
  Formats, ReadFieldsWhole, IsValidStruct, encode_struct, serde_libpq_data-IsSized,
  serde_libpq_data-ReadsBackWhole,
}
use fakepostmaster.Message.Header.{MessageBody, message_body, new_raw_header_from_body}
use fakepostmaster.Message.Frame.{frame, frame_length, FitsFrame}
use fakepostmaster.Prelude.{test_true}

-- The messages of one type have one type byte, and their bodies follow a format that is read back
-- from the body of a message, where nothing follows it; the reading returns on any body.
pub record IsReliable {A : Type 0} (m : MessageBody A) (kind : ℕ) (IsValid : A → Type 0)
    (encode : A → List ℕ) : Type 0 where
  pub kind_IsByte : IsByte kind
  pub has_kind : (a : A) → m.message_type a ≡ kind
  pub serialize_appends : (a : A) (buf : List ℕ) → m.wire.serialize a buf ≡ buf ++ encode a
  pub size_exact :
      (a : A)
      → IsValid a
      → length (encode a) < 2147483648
      → m.wire.byte_size a ≡ pos (length (encode a))
  pub reads_whole : ReadsBackWhole m.wire IsValid encode
  pub returns : (bs : List ℕ) → Returns (λ r. length r.1 ≤ length bs) (m.wire.deserialize bs)

-- A derived message is reliable if its fields are read back.
pub derived-IsReliable :
    {S : Type 0} (kind : ℕ) (fs : Fields) (F : Formats fs) (to : S → Values fs)
    (from : Values fs → S)
    → IsByte kind
    → ((s : S) → from (to s) ≡ s)
    → ReadFieldsWhole fs F
    → IsReliable
        (message_body kind (serde_libpq_data fs to from))
        kind
        (IsValidStruct fs F to)
        (encode_struct fs F to)
unfolding message_body
derived-IsReliable kind fs F to from k same reads =
    let sized = serde_libpq_data-IsSized fs F to from in
    record {
      kind_IsByte = k;
      has_kind = λ a. refl;
      serialize_appends = sized.serialize_appends;
      size_exact = sized.size_exact;
      reads_whole = serde_libpq_data-ReadsBackWhole fs F to from same reads;
      returns = λ bs. Returns-weaken (λ r h. omega arith) (sized.takes bs);
    }

module _ (B : BytesCrate) {A : Type 0} (m : MessageBody A) {kind : ℕ} {IsValid : A → Type 0}
    {encode : A → List ℕ} (R : IsReliable m kind IsValid encode) where
  open B use {put_u8_appends, put_i32_appends}

  -- The buffer that `put_message` fills is the frame of the message's body.
  pub message_bytes :
      (a : A)
      → IsValid a
      → FitsFrame (encode a)
      → m.wire.serialize a (new_raw_header_from_body B m [] a) ≡ frame kind (encode a)
  unfolding new_raw_header_from_body
  message_bytes a v h =
      R.serialize_appends a _
      ∙ rw (
        put_i32_appends,
        put_u8_appends,
        R.has_kind a,
        R.size_exact a v (omega arith),
        add_i32_small (length (encode a)) 4 h,
      )

  -- A raw message of the kind is turned back into the message.
  pub try_from-encode :
      (impossible : Error) (a : A)
      → IsValid a
      → try_from_raw_message impossible kind m.wire kind (encode a) ≡ ok (a, [])
  unfolding try_from_raw_message
  try_from-encode impossible a v = rw (test_true kind) (R.reads_whole a v)
