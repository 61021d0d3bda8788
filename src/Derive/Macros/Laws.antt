-- ===== src/Derive/Macros/Laws.antt =====
-- What the derive macros accept.
use fakepostmaster.Prelude.{ℕ, ◌≡◌, refl, ap, Option, none, some, List, [], ◌∷◌, ◌++◌, All}
use fakepostmaster.Outcome.{
  Outcome, ok, panicked, expect, expectation_failed, explicit_panic, ◌>>=◌,
}
use fakepostmaster.Derive.{Fields, no_fields, field}
use fakepostmaster.Derive.Macros.{
  Field, struct_data, enum_data, union_data, name_of, expand_fields, serde_libpq_data_derive_macro,
  serde_libpq_data_derive_macro2,
}

abbrev IsNamed : Field → Type 0
IsNamed f = (name : List ℕ) × (f.ident ≡ some name)

-- The fields of a struct, in their order.
abbrev pub fields_of : List Field → Fields
fields_of [] = no_fields
fields_of (f ∷ fs) = field f.ty f.implementation (fields_of fs)

-- What comes of a struct: its fields, if each of them has a name; a panic, if one has none.
pub data Expanded (fields : List Field) : Outcome Fields → Type 1 where
  expanded : All IsNamed fields → Expanded fields (ok (fields_of fields))
  not_expanded :
      (before : List Field) (f : Field) (after : List Field)
      → fields ≡ before ++ f ∷ after
      → f.ident ≡ none
      → Expanded fields (panicked expectation_failed)

-- A field in front of others, by its name.
in_front :
    (f : Field) (fs : List Field) (ident : Option (List ℕ)) {r : Outcome Fields}
    → f.ident ≡ ident
    → Expanded fs r
    → Expanded
        (f ∷ fs)
        (name_of ident >>= λ field_name. r >>= λ rest. ok (field f.ty f.implementation rest))
in_front f fs none e h = not_expanded [] f fs refl e
in_front f fs (some name) e (expanded all) = expanded ((name, e), all)
in_front f fs (some name) e (not_expanded before g after e' none') =
    not_expanded (f ∷ before) g after (ap (λ t. f ∷ t) e') none'

expand_fields-Expanded : (fields : List Field) → Expanded fields (expand_fields fields)
unfolding expand_fields
expand_fields-Expanded [] = expanded tt
expand_fields-Expanded (f ∷ fs) = in_front f fs f.ident refl (expand_fields-Expanded fs)

expect-Expanded :
    {fields : List Field} {r : Outcome Fields} → Expanded fields r → Expanded fields (expect r)
expect-Expanded (expanded all) = expanded all
expect-Expanded (not_expanded before f after e n) = not_expanded before f after e n

-- The macro takes a struct with named fields, or none, and gives its fields in their order; it panics
-- on a struct with a field that has no name, on every enum and on every union.
pub serde_libpq_data_derive_macro-Expanded :
    (fields : List Field)
    → Expanded fields (serde_libpq_data_derive_macro (ok (struct_data fields)))
      × (serde_libpq_data_derive_macro (ok enum_data) ≡ panicked explicit_panic)
      × (serde_libpq_data_derive_macro (ok union_data) ≡ panicked explicit_panic)
unfolding serde_libpq_data_derive_macro serde_libpq_data_derive_macro2
serde_libpq_data_derive_macro-Expanded fields =
    (expect-Expanded (expand_fields-Expanded fields), refl, refl)
