-- ===== src/Derive/Laws.antt =====
-- A derived implementation keeps the promise of the traits if those of the fields do.
use fakepostmaster.Prelude.{
  ℕ, ◌+◌, ◌≤◌, ◌<◌, ◌≡◌, refl, ap, sym, ◌∙◌, List, [], ◌++◌, append_assoc, append-nil, length,
  length-append, arith,
}
use fakepostmaster.Int.{pos}
use fakepostmaster.Int.Laws.{add_i32_small}
use fakepostmaster.Outcome.{ok}
use fakepostmaster.Outcome.Laws.{Returns, holds, Returns-bind}
use fakepostmaster.Wire.{Wire}
use fakepostmaster.Wire.Lawful.{IsSized, ReadsBack, ReadsBackWhole, ReadsBack-ReadsBackWhole}
use fakepostmaster.Derive.{
  Fields, no_fields, field, Values, serialize_fields, byte_size_fields, deserialize_fields,
  serde_libpq_data,
}

-- The format of a type, beside the implementation that follows it.
pub record Format {A : Type 0} (w : Wire A) : Type 1 where
  pub IsValid : A → Type 0
  pub encode : A → List ℕ
  pub least : ℕ
  pub sized : IsSized w IsValid encode least

abbrev pub Formats : Fields → Type 1
Formats no_fields = Unit
Formats (field A w fs) = Format w × Formats fs

abbrev pub IsValidFields : (fs : Fields) → Formats fs → Values fs → Type 0
IsValidFields no_fields F v = Unit
IsValidFields (field A w fs) F v = F.0.IsValid v.0 × IsValidFields fs F.1 v.1

-- The fields in the order of their declaration, with nothing between them.
abbrev pub encode_fields : (fs : Fields) → Formats fs → Values fs → List ℕ
encode_fields no_fields F v = []
encode_fields (field A w fs) F v = F.0.encode v.0 ++ encode_fields fs F.1 v.1

abbrev pub least_fields : (fs : Fields) → Formats fs → ℕ
least_fields no_fields F = 0
least_fields (field A w fs) F = F.0.least + least_fields fs F.1

-- Each field is read back from the front of any buffer.
abbrev pub ReadFields : (fs : Fields) → Formats fs → Type 0
ReadFields no_fields F = Unit
ReadFields (field A w fs) F = ReadsBack w F.0.IsValid F.0.encode × ReadFields fs F.1

-- Each field but the last is; the last is read back from a buffer that it fills.
abbrev pub ReadFieldsWhole : (fs : Fields) → Formats fs → Type 0
ReadFieldsWhole no_fields F = Unit
ReadFieldsWhole (field A w no_fields) F = ReadsBackWhole w F.0.IsValid F.0.encode
ReadFieldsWhole (field A w fs) F = ReadsBack w F.0.IsValid F.0.encode × ReadFieldsWhole fs F.1

serialize_fields_appends :
    (fs : Fields) (F : Formats fs) (v : Values fs) (buf : List ℕ)
    → serialize_fields fs v buf ≡ buf ++ encode_fields fs F v
unfolding serialize_fields
serialize_fields_appends no_fields F v buf = sym (append-nil buf)
serialize_fields_appends (field A w fs) F v buf =
    serialize_fields_appends fs F.1 v.1 (w.serialize v.0 buf)
    ∙ rw (F.0.sized.serialize_appends v.0 buf)
        (append_assoc buf (F.0.encode v.0) (encode_fields fs F.1 v.1))

byte_size_fields_exact :
    (fs : Fields) (F : Formats fs) (v : Values fs) (n : ℕ)
    → IsValidFields fs F v
    → n + length (encode_fields fs F v) < 2147483648
    → byte_size_fields fs (pos n) v ≡ pos (n + length (encode_fields fs F v))
unfolding byte_size_fields
byte_size_fields_exact no_fields F v n valid h = ap pos (omega arith)
byte_size_fields_exact (field A w fs) F v n valid h =
    let e = length-append (F.0.encode v.0) (encode_fields fs F.1 v.1) in
    rw
      (
        F.0.sized.size_exact v.0 valid.0 (omega arith),
        add_i32_small n (length (F.0.encode v.0)) (omega arith),
      )
      (byte_size_fields_exact fs F.1 v.1 (n + length (F.0.encode v.0)) valid.1 (omega arith)
        ∙ ap pos (omega arith))

deserialize_fields_takes :
    (fs : Fields) (F : Formats fs) (bs : List ℕ)
    → Returns (λ r. length r.1 + least_fields fs F ≤ length bs) (deserialize_fields fs bs)
unfolding deserialize_fields
deserialize_fields_takes no_fields F bs = holds (omega arith)
deserialize_fields_takes (field A w fs) F bs = Returns-bind (F.0.sized.takes bs) λ (a, rest) h.
    Returns-bind (deserialize_fields_takes fs F.1 rest) λ (v, rest') l. holds (omega arith)

encode_fields_least :
    (fs : Fields) (F : Formats fs) (v : Values fs)
    → IsValidFields fs F v
    → least_fields fs F ≤ length (encode_fields fs F v)
encode_fields_least no_fields F v valid = omega arith
encode_fields_least (field A w fs) F v valid = omega (
  arith,
  F.0.sized.encode_least v.0 valid.0,
  encode_fields_least fs F.1 v.1 valid.1,
  length-append (F.0.encode v.0) (encode_fields fs F.1 v.1),
)

deserialize_fields-encode :
    (fs : Fields) (F : Formats fs) (reads : ReadFields fs F) (v : Values fs) (rest : List ℕ)
    → IsValidFields fs F v
    → deserialize_fields fs (encode_fields fs F v ++ rest) ≡ ok (v, rest)
unfolding deserialize_fields
deserialize_fields-encode no_fields F reads v rest valid = refl
deserialize_fields-encode (field A w fs) F reads v rest valid = rw (
  append_assoc (F.0.encode v.0) (encode_fields fs F.1 v.1) rest,
  reads.0 v.0 (encode_fields fs F.1 v.1 ++ rest) valid.0,
  deserialize_fields-encode fs F.1 reads.1 v.1 rest valid.1,
)

deserialize_fields-encode_whole :
    (fs : Fields) (F : Formats fs) (reads : ReadFieldsWhole fs F) (v : Values fs)
    → IsValidFields fs F v
    → deserialize_fields fs (encode_fields fs F v) ≡ ok (v, [])
unfolding deserialize_fields
deserialize_fields-encode_whole no_fields F reads v valid = refl
deserialize_fields-encode_whole (field A w no_fields) F reads v valid =
    rw (append-nil (F.0.encode v.0), reads v.0 valid.0)
deserialize_fields-encode_whole (field A w (field C u fs)) F reads v valid = rw (
  reads.0 v.0 (encode_fields (field C u fs) F.1 v.1) valid.0,
  deserialize_fields-encode_whole (field C u fs) F.1 reads.1 v.1 valid.1,
)

module _ {S : Type 0} (fs : Fields) (F : Formats fs) (to : S → Values fs) where
  abbrev pub IsValidStruct : S → Type 0
  IsValidStruct s = IsValidFields fs F (to s)

  abbrev pub encode_struct : S → List ℕ
  encode_struct s = encode_fields fs F (to s)

module _ {S : Type 0} (fs : Fields) (F : Formats fs) (to : S → Values fs)
    (from : Values fs → S) where
  -- A derived implementation appends the fields in order, and knows how long they are.
  pub serde_libpq_data-IsSized :
      IsSized
        (serde_libpq_data fs to from)
        (IsValidStruct fs F to)
        (encode_struct fs F to)
        (least_fields fs F)
  unfolding serde_libpq_data
  serde_libpq_data-IsSized = record {
    serialize_appends = λ s buf. serialize_fields_appends fs F (to s) buf;
    size_exact =
        λ s v h. byte_size_fields_exact fs F (to s) 0 v (omega arith) ∙ ap pos (omega arith);
    takes = λ bs. Returns-bind (deserialize_fields_takes fs F bs) λ (v, rest) h. holds h;
    encode_least = λ s v. encode_fields_least fs F (to s) v;
  }

  module _ (same : (s : S) → from (to s) ≡ s) where
    pub serde_libpq_data-ReadsBack :
        ReadFields fs F
        → ReadsBack (serde_libpq_data fs to from) (IsValidStruct fs F to) (encode_struct fs F to)
    unfolding serde_libpq_data
    serde_libpq_data-ReadsBack reads s rest v =
        rw (deserialize_fields-encode fs F reads (to s) rest v) (ap (λ t. ok (t, rest)) (same s))

    pub serde_libpq_data-ReadsBackWhole :
        ReadFieldsWhole fs F
        → ReadsBackWhole
            (serde_libpq_data fs to from)
            (IsValidStruct fs F to)
            (encode_struct fs F to)
    unfolding serde_libpq_data
    serde_libpq_data-ReadsBackWhole reads s v =
        rw (deserialize_fields-encode_whole fs F reads (to s) v) (ap (λ t. ok (t, [])) (same s))

pub ReadFields-ReadFieldsWhole :
    (fs : Fields) (F : Formats fs) → ReadFields fs F → ReadFieldsWhole fs F
ReadFields-ReadFieldsWhole no_fields F reads = tt
ReadFields-ReadFieldsWhole (field A w no_fields) F reads =
    ReadsBack-ReadsBackWhole w F.0.IsValid F.0.encode reads.0
ReadFields-ReadFieldsWhole (field A w (field C u fs)) F reads =
    (reads.0, ReadFields-ReadFieldsWhole (field C u fs) F.1 reads.1)
