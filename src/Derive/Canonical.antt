-- ===== src/Derive/Canonical.antt =====
-- A derived implementation reads valid values only, and takes their encoding, if the fields' do.
use fakepostmaster.Prelude.{ℕ, ◌≡◌, refl, ap, sym, ◌∙◌, List, ◌++◌, append_assoc, All}
use mathlib.Core.Path.{subst}
use fakepostmaster.Int.{IsByte}
use fakepostmaster.Outcome.Laws.{Returns, holds, Returns-bind}
use fakepostmaster.Wire.Lawful.{IsCanonical, All-back}
use fakepostmaster.Derive.{Fields, no_fields, field, Values, deserialize_fields, serde_libpq_data}
use fakepostmaster.Derive.Laws.{Formats, IsValidFields, encode_fields, IsValidStruct, encode_struct}

-- Each field is.
abbrev pub CanonicalFields : (fs : Fields) → Formats fs → Type 0
CanonicalFields no_fields F = Unit
CanonicalFields (field A w fs) F = IsCanonical w F.0.IsValid F.0.encode × CanonicalFields fs F.1

deserialize_fields-IsCanonical :
    (fs : Fields) (F : Formats fs) (c : CanonicalFields fs F) (bs : List ℕ)
    → All IsByte bs
    → Returns
        (λ r. IsValidFields fs F r.0 × (bs ≡ encode_fields fs F r.0 ++ r.1))
        (deserialize_fields fs bs)
unfolding deserialize_fields
deserialize_fields-IsCanonical no_fields F c bs b = holds (tt, refl)
deserialize_fields-IsCanonical (field A w fs) F c bs b =
    Returns-bind (c.0 bs b) λ (a, rest) (va, e).
      Returns-bind
        (deserialize_fields-IsCanonical fs F.1 c.1 rest
          (All-back IsByte (F.0.encode a) rest (subst (All IsByte) e b)))
        λ (v, rest') (vv, e'). holds (
          (va, vv),
          e
              ∙ ap (λ t. F.0.encode a ++ t) e'
              ∙ sym (append_assoc (F.0.encode a) (encode_fields fs F.1 v) rest'),
        )

module _ {S : Type 0} (fs : Fields) (F : Formats fs) (to : S → Values fs)
    (from : Values fs → S) where
  -- If each field's type reads valid values only and takes their encoding, so does a derived
  -- implementation: on every buffer of bytes it is an error, or it returns a struct of valid fields,
  -- and what it has taken is the encoding of the fields in their order.
  pub serde_libpq_data-IsCanonical :
      ((v : Values fs) → to (from v) ≡ v)
      → CanonicalFields fs F
      → IsCanonical (serde_libpq_data fs to from) (IsValidStruct fs F to) (encode_struct fs F to)
  unfolding serde_libpq_data
  serde_libpq_data-IsCanonical same c bs b =
      Returns-bind (deserialize_fields-IsCanonical fs F c bs b) λ (v, rest) (vv, e). holds (
        subst (IsValidFields fs F) (sym (same v)) vv,
        e ∙ ap (λ t. encode_fields fs F t ++ rest) (sym (same v)),
      )
