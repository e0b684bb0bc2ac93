-- ===== src/Examples/Keys.antt =====
-- Native file keys.
use eliot_search.Prelude.{◌≡◌, refl, some, [], ◌∷◌, arith}
use eliot_search.Prelude.Words.{to_le_bytes, from_le_bytes}
use eliot_search.Registry.FileKey.{
  NativeFileKey, windows, to_bytes, from_bytes, from_bytes-to_bytes, to_bytes-from_bytes,
}

abbrev key : NativeFileKey
key = windows 258 7

windows_bytes :
    to_bytes key ≡ 2 ∷ 2 ∷ 1 ∷ 0 ∷ 0 ∷ 0 ∷ 0 ∷ 0 ∷ 0 ∷ 7 ∷ 0 ∷ 0 ∷ 0 ∷ 0 ∷ 0 ∷ 0 ∷ 0 ∷ []
unfolding to_bytes to_le_bytes
windows_bytes = refl

from_bytes-to_bytes_example : from_bytes (to_bytes key) ≡ some key
from_bytes-to_bytes_example = from_bytes-to_bytes key (omega arith)

to_bytes-from_bytes_example :
    to_bytes key ≡ 2 ∷ 2 ∷ 1 ∷ 0 ∷ 0 ∷ 0 ∷ 0 ∷ 0 ∷ 0 ∷ 7 ∷ 0 ∷ 0 ∷ 0 ∷ 0 ∷ 0 ∷ 0 ∷ 0 ∷ []
unfolding from_bytes from_le_bytes
to_bytes-from_bytes_example =
    to_bytes-from_bytes (2 ∷ 2 ∷ 1 ∷ 0 ∷ 0 ∷ 0 ∷ 0 ∷ 0 ∷ 0 ∷ 7 ∷ 0 ∷ 0 ∷ 0 ∷ 0 ∷ 0 ∷ 0 ∷ 0 ∷ []) key
      (omega arith) refl refl
