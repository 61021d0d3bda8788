-- ===== src/Derive/RoundTrip.antt =====
-- What a struct with `#[derive(SerdeLibpqData)]` writes, it reads back, and it says its size.
use fakepostmaster.Prelude.{ℕ, ◌<◌, ◌≡◌, ap, sym, ◌∙◌, List, [], ◌++◌, length, arith}
use fakepostmaster.Int.{pos}
use fakepostmaster.Outcome.{ok}
use fakepostmaster.Derive.{Fields, Values, serde_libpq_data}
use fakepostmaster.Derive.Laws.{
  Formats, IsValidStruct, ReadFields, ReadFieldsWhole, serde_libpq_data-IsSized,
  serde_libpq_data-ReadsBack, serde_libpq_data-ReadsBackWhole,
}

module _ {S : Type 0} (fs : Fields) (F : Formats fs) (to : S → Values fs)
    (from : Values fs → S) where
  -- If each field's type reads back the values of its format, a struct of valid fields is read back
  -- from its own bytes, and what follows it stays in the buffer.
  pub serde_libpq_data_round_trip :
      (same : (s : S) → from (to s) ≡ s) (reads : ReadFields fs F) (s : S) (rest : List ℕ)
      → IsValidStruct fs F to s
      → (serde_libpq_data fs to from).deserialize
          ((serde_libpq_data fs to from).serialize s [] ++ rest)
        ≡ ok (s, rest)
  serde_libpq_data_round_trip same reads s rest v =
      ap (λ t. (serde_libpq_data fs to from).deserialize (t ++ rest))
        ((serde_libpq_data-IsSized fs F to from).serialize_appends s [])
      ∙ serde_libpq_data-ReadsBack fs F to from same reads s rest v

  -- If each field's type but the last reads back the values of its format, and the last does from a
  -- buffer that holds nothing else, a struct of valid fields is read back from a buffer that holds its
  -- own bytes and nothing else.
  pub serde_libpq_data_round_trip_whole :
      (same : (s : S) → from (to s) ≡ s) (reads : ReadFieldsWhole fs F) (s : S)
      → IsValidStruct fs F to s
      → (serde_libpq_data fs to from).deserialize ((serde_libpq_data fs to from).serialize s [])
        ≡ ok (s, [])
  serde_libpq_data_round_trip_whole same reads s v =
      ap (serde_libpq_data fs to from).deserialize
        ((serde_libpq_data-IsSized fs F to from).serialize_appends s [])
      ∙ serde_libpq_data-ReadsBackWhole fs F to from same reads s v

  -- `byte_size` of a struct whose fields are valid is the number of bytes that it writes, where an
  -- `i32` holds it.
  pub serde_libpq_data_size :
      (s : S)
      → IsValidStruct fs F to s
      → length ((serde_libpq_data fs to from).serialize s []) < 2147483648
      → (serde_libpq_data fs to from).byte_size s
        ≡ pos (length ((serde_libpq_data fs to from).serialize s []))
  serde_libpq_data_size s v h =
      let sized = serde_libpq_data-IsSized fs F to from in
      let e = sized.serialize_appends s [] in
      sized.size_exact s v (omega (arith, ap length e)) ∙ ap (λ t. pos (length t)) (sym e)
