-- ===== src/Derive.antt =====
-- libpq-serde-macros/src/lib.rs: what the derive macros expand to. The macros go through the fields
-- of a struct; here `Fields` is that list, each field with the implementation that its type has.
pub mod Laws
pub mod RoundTrip
pub mod Canonical
pub mod Macros
use fakepostmaster.Prelude.{ℕ, List, ◌==◌, if◌then◌else◌}
use fakepostmaster.Int.{ℤ, pos, add_i32}
use fakepostmaster.Outcome.{Outcome, ok, err, ◌>>=◌, Error}
use fakepostmaster.Wire.{Wire}

pub data Fields : Type 1 where
  no_fields : Fields
  field : (A : Type 0) → Wire A → Fields → Fields

-- The values of the fields, as a nest of pairs.
abbrev pub Values : Fields → Type 0
Values no_fields = Unit
Values (field A w fs) = A × Values fs

-- `#(self.#field_name.serialize(buffer);)*`
unfoldable pub serialize_fields : (fs : Fields) → Values fs → List ℕ → List ℕ
serialize_fields no_fields v buffer = buffer
serialize_fields (field A w fs) v buffer = serialize_fields fs v.1 (w.serialize v.0 buffer)

-- `0 #(+ self.#field_name.byte_size())*`, from the sum so far.
unfoldable pub byte_size_fields : (fs : Fields) → ℤ → Values fs → ℤ
byte_size_fields no_fields size v = size
byte_size_fields (field A w fs) size v = byte_size_fields fs (add_i32 size (w.byte_size v.0)) v.1

-- `#(#field_name: <#field_type>::deserialize(buffer)?,)*`
unfoldable pub deserialize_fields : (fs : Fields) → List ℕ → Outcome (Values fs × List ℕ)
deserialize_fields no_fields buffer = ok (tt, buffer)
deserialize_fields (field A w fs) buffer = do
  (a, rest) ← w.deserialize buffer
  (v, rest') ← deserialize_fields fs rest
  ok ((a, v), rest')

-- `#[derive(SerdeLibpqData)]` on a struct `S`, which `to` takes apart and `from` puts together.
unfoldable pub serde_libpq_data :
    {S : Type 0} (fs : Fields) → (S → Values fs) → (Values fs → S) → Wire S
unfolding serialize_fields byte_size_fields deserialize_fields
serde_libpq_data fs to from = record {
  serialize = λ s buffer. serialize_fields fs (to s) buffer;
  deserialize = λ buffer. do
    (v, rest) ← deserialize_fields fs buffer
    ok (from v, rest);
  byte_size = λ s. byte_size_fields fs (pos 0) (to s);
}

-- `#[derive(TryFromRawBackendMessage)]` and `#[derive(TryFromRawFrontendMessage)]`: the macros differ
-- in the struct that holds the message's type and body, and in the error.
unfoldable pub try_from_raw_message :
    {S : Type 0} → Error → ℕ → Wire S → ℕ → List ℕ → Outcome (S × List ℕ)
try_from_raw_message impossible kind w message_type raw_body =
    if kind == message_type then w.deserialize raw_body else err impossible
