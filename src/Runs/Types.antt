-- ===== src/Runs/Types.antt =====
-- Values of the types of libpq-serde-types, and kinds.
use fakepostmaster.Prelude.{
  zero, suc, All, take, drop, concat_map, ℕ, ◌≡◌, refl, List, [], ◌∷◌, ◌++◌, length, codes, arith,
}
use fakepostmaster.Int.{IsByte, pos}
use fakepostmaster.Outcome.{ok}
use fakepostmaster.Derive.{Fields, no_fields, field, serde_libpq_data}
use fakepostmaster.Derive.RoundTrip.{serde_libpq_data_round_trip, serde_libpq_data_size}
use fakepostmaster.Types.Scalar.{byte}
use fakepostmaster.Types.Scalar.Laws.{byte_encode, byte-IsSized, byte-ReadsBack}
use fakepostmaster.Types.Text.{cstring}
use fakepostmaster.Types.Text.Reading.{UpToNul, cstring-UpToNul}
use fakepostmaster.Types.Text.Laws.{cstring-ReadsBack}
use fakepostmaster.Types.Counted.{vec16}
use fakepostmaster.Types.Formats.{byte_format, cstring_format}
use fakepostmaster.Types.Counted.Wrapping.{counted, vec16_wraps}
use fakepostmaster.Runs.Crates.{bytes}

abbrev two_texts : List (List ℕ)
two_texts = codes "user" ∷ codes "me" ∷ []

cstring-UpToNul_example :
    UpToNul [] (codes "abc" ++ 0 ∷ 7 ∷ []) ((cstring bytes).deserialize (codes "abc" ++ 0 ∷ 7 ∷ []))
cstring-UpToNul_example = cstring-UpToNul bytes (codes "abc" ++ 0 ∷ 7 ∷ [])

-- A struct with a byte and a text, and one that ends in a list of texts.
record Tagged : Type 0 where
  tag : ℕ
  text : List ℕ

abbrev tagged_fields : Fields
tagged_fields = field ℕ (byte bytes) (field (List ℕ) (cstring bytes) no_fields)

abbrev a_tagged : Tagged
a_tagged = record { tag = 5; text = codes "x" }

serde_libpq_data_round_trip_example :
    (serde_libpq_data {S = Tagged} tagged_fields
        (λ t. (t.tag, (t.text, tt)))
        (λ v. record { tag = v.0; text = v.1.0 })).deserialize
      ((serde_libpq_data {S = Tagged} tagged_fields
            (λ t. (t.tag, (t.text, tt)))
            (λ v. record { tag = v.0; text = v.1.0 })).serialize
          a_tagged []
        ++ 7 ∷ [])
    ≡ ok (a_tagged, 7 ∷ [])
serde_libpq_data_round_trip_example =
    serde_libpq_data_round_trip tagged_fields (byte_format bytes, (cstring_format bytes, tt))
      (λ t. (t.tag, (t.text, tt))) (λ v. record { tag = v.0; text = v.1.0 }) (λ s. refl)
      (byte-ReadsBack bytes, (cstring-ReadsBack bytes, tt)) a_tagged (7 ∷ []) (omega arith)

serde_libpq_data_size_example :
    (serde_libpq_data {S = Tagged} tagged_fields
        (λ t. (t.tag, (t.text, tt)))
        (λ v. record { tag = v.0; text = v.1.0 })).byte_size
      a_tagged
    ≡ pos 3
unfolding serde_libpq_data byte cstring
serde_libpq_data_size_example =
    serde_libpq_data_size tagged_fields (byte_format bytes, (cstring_format bytes, tt))
      (λ t. (t.tag, (t.text, tt))) (λ v. record { tag = v.0; text = v.1.0 }) a_tagged (omega arith)
      (omega arith)

-- More elements than the count can say.
unfoldable sevens : ℕ → List ℕ
sevens zero = []
sevens (suc n) = 7 ∷ sevens n

sevens-IsByte : (n : ℕ) → All IsByte (sevens n)
unfolding sevens
sevens-IsByte zero = tt
sevens-IsByte (suc n) = (omega arith, sevens-IsByte n)

vec16_wraps_example :
    (vec16 bytes (byte bytes)).deserialize
      ((vec16 bytes (byte bytes)).serialize (sevens 32768) [] ++ 9 ∷ [])
    ≡ ok (
      take (counted (length (sevens 32768))) (sevens 32768),
      concat_map byte_encode (drop (counted (length (sevens 32768))) (sevens 32768)) ++ 9 ∷ [],
    )
vec16_wraps_example =
    vec16_wraps bytes (byte bytes) (byte-IsSized bytes) (byte-ReadsBack bytes) (sevens 32768)
      (9 ∷ []) (sevens-IsByte 32768)
