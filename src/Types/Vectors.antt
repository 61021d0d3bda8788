-- ===== src/Types/Vectors.antt =====
-- libpq-serde-types/src/libpq_types.rs: the vectors around a `Vec<T>`. `self.0` is the list of the
-- elements, and so is the vector; how it is written, read and measured depends on which one it is.
use fakepostmaster.Prelude.{List, []}

module _ {ℓ} (A : Type ℓ) where
  abbrev pub Vec16 : Type ℓ
  Vec16 = List A

  abbrev pub Vec32 : Type ℓ
  Vec32 = List A

  abbrev pub VecNull : Type ℓ
  VecNull = List A

module _ {ℓ} {A : Type ℓ} where
  abbrev pub new_vec16 : Vec16 A
  new_vec16 = []

  abbrev pub new_vec32 : Vec32 A
  new_vec32 = []

  abbrev pub new_vec_null : VecNull A
  new_vec_null = []

  -- `impl From<Vec<T>> for …`
  abbrev pub into_vec16 : List A → Vec16 A
  into_vec16 item = item

  abbrev pub into_vec32 : List A → Vec32 A
  into_vec32 item = item

  abbrev pub into_vec_null : List A → VecNull A
  into_vec_null item = item

  -- `impl<T> From<VecNull<T>> for Vec<T>`
  abbrev pub into_vec : VecNull A → List A
  into_vec item = item
