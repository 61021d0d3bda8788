-- ===== src/Derive/Macros.antt =====
-- libpq-serde-macros/src/lib.rs: the macros as functions of what `syn` and `deluxe` have parsed. What a
-- macro returns stands for the code that it writes. A macro that panics stops the compiler.
pub mod Laws
use fakepostmaster.Prelude.{ℕ, Option, none, some, List, [], ◌∷◌}
use fakepostmaster.Outcome.{
  Outcome, ok, panicked, expect, expectation_failed, explicit_panic, ◌>>=◌,
}
use fakepostmaster.Outcome.{impossible_from_backend, impossible_from_frontend}
use fakepostmaster.Wire.{Wire}
use fakepostmaster.Message.Header.{MessageBody, message_body}
use fakepostmaster.Derive.{Fields, no_fields, field, try_from_raw_message}

-- `syn::Field`: the name, which a field of a tuple struct has not, and the type with its implementation.
pub record Field : Type 1 where
  pub ident : Option (List ℕ)
  pub ty : Type 0
  pub implementation : Wire ty

-- `syn::Data`
pub data Data : Type 1 where
  struct_data : List Field → Data
  enum_data union_data : Data

-- `field.ident.as_ref().expect(…)`
abbrev pub name_of : Option (List ℕ) → Outcome (List ℕ)
name_of none = panicked expectation_failed
name_of (some name) = ok name

-- `for field in s.fields.iter_mut()`
unfoldable pub expand_fields : List Field → Outcome Fields
expand_fields [] = ok no_fields
expand_fields (f ∷ fs) = do
  field_name ← name_of f.ident
  rest ← expand_fields fs
  ok (field f.ty f.implementation rest)

-- `if let syn::Data::Struct(_) = &mut ast.data { … } else { panic!(…) }`
unfoldable pub if_struct {ℓ} : {A : Type ℓ} → Data → (List Field → Outcome A) → Outcome A
if_struct (struct_data fields) expand = expand fields
if_struct enum_data expand = panicked explicit_panic
if_struct union_data expand = panicked explicit_panic

unfoldable pub serde_libpq_data_derive_macro2 : Outcome Data → Outcome Fields
unfolding if_struct expand_fields
serde_libpq_data_derive_macro2 input = do data' ← input; if_struct data' expand_fields

unfoldable pub serde_libpq_data_derive_macro : Outcome Data → Outcome Fields
serde_libpq_data_derive_macro input = expect (serde_libpq_data_derive_macro2 input)

-- `kind` is what `deluxe::extract_attributes` returns.
module _ {S : Type 0} (input : Outcome Data) (attributes : Outcome ℕ) (w : Wire S) where
  unfoldable pub message_body_derive_macro2 : Outcome (MessageBody S)
  unfolding if_struct
  message_body_derive_macro2 = do
    data' ← input
    kind ← attributes
    if_struct data' (λ fields. ok (message_body kind w))

  unfoldable pub message_body_derive_macro : Outcome (MessageBody S)
  unfolding message_body_derive_macro2
  message_body_derive_macro = expect message_body_derive_macro2

  -- The code is a function of the message's type and its body.
  unfoldable pub try_from_raw_backend_message_derive_macro2 :
      Outcome (ℕ → List ℕ → Outcome (S × List ℕ))
  unfolding if_struct
  try_from_raw_backend_message_derive_macro2 = do
    data' ← input
    kind ← attributes
    if_struct data' (λ fields. ok (try_from_raw_message impossible_from_backend kind w))

  unfoldable pub try_from_raw_backend_message_derive_macro :
      Outcome (ℕ → List ℕ → Outcome (S × List ℕ))
  unfolding try_from_raw_backend_message_derive_macro2
  try_from_raw_backend_message_derive_macro = expect try_from_raw_backend_message_derive_macro2

  unfoldable pub try_from_raw_frontend_message_derive_macro2 :
      Outcome (ℕ → List ℕ → Outcome (S × List ℕ))
  unfolding if_struct
  try_from_raw_frontend_message_derive_macro2 = do
    data' ← input
    kind ← attributes
    if_struct data' (λ fields. ok (try_from_raw_message impossible_from_frontend kind w))

  unfoldable pub try_from_raw_frontend_message_derive_macro :
      Outcome (ℕ → List ℕ → Outcome (S × List ℕ))
  unfolding try_from_raw_frontend_message_derive_macro2
  try_from_raw_frontend_message_derive_macro = expect try_from_raw_frontend_message_derive_macro2
