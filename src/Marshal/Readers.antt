-- ===== src/Marshal/Readers.antt =====
-- How R reads the values of the lists that src/client.cpp and src/server.cpp build.
use Prim.Native.String.{String}
use text.Mathlib.Text.{◌==◌ as str_eq}
use rgrpc.Convert.{Bytes, MdPairs}
use rgrpc.Prelude.{
  ℕ, ℤ, pos, negsuc, Bool, true, false, List, [], ◌∷◌, Option, none, some, if◌then◌else◌,
}
use rgrpc.Marshal.Values.{RValue, RList}

-- `l[[name]]`
unfoldable pub field : String → RList → RValue
field name [] = RValue.r_null
field name ((n, v) ∷ l) = if str_eq n name then v else field name l

abbrev pub read_integer : RValue → ℕ
read_integer (RValue.integer (pos n)) = n
read_integer _ = 0

-- The only string of a character vector.
abbrev pub read_string : RValue → Bytes
read_string (RValue.character (m ∷ [])) = m
read_string _ = []

abbrev pub read_strings : RValue → List Bytes
read_strings (RValue.character l) = l
read_strings _ = []

abbrev pub read_pairs : RValue → MdPairs
read_pairs (RValue.named_character md) = md
read_pairs _ = []

-- Whether there is a raw vector, and its bytes.
abbrev pub read_raw : RValue → Bool × Bytes
read_raw (RValue.raw bytes) = (true, bytes)
read_raw _ = (false, [])

abbrev pub read_real : RValue → Option ℕ
read_real (RValue.real n) = some n
read_real _ = none

-- A number of milliseconds, or none.
abbrev pub read_deadline : RValue → ℤ
read_deadline (RValue.real n) = pos n
read_deadline _ = negsuc 0

abbrev pub read_word : RValue → String
read_word (RValue.word k) = k
read_word _ = ""
