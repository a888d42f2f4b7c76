-- ===== src/Prelude/Hex.antt =====
-- `hex.DecodeString` and `hex.EncodeToString` of Go's standard library, on code points.
use Prim.Native.Nat.{ℕ, ◌+◌, ◌-◌, ◌*◌}
use Prim.Native.Char.{code}
use Prim.Native.String.{String}
use mathlib.Core.Bool.{◌&&◌}
use mathlib.Core.Option.{Option, none, some}
use mathlib.Core.List.{List, [], ◌∷◌}
use hxstakepool.Prelude.Tests.{leb, if◌then◌else◌}

-- The code points of a text: its bytes, if it is ASCII.
abbrev pub codes : String → List ℕ
codes String.[] = []
codes (String.◌∷◌ c s) = code c ∷ codes s

-- The value of a hexadecimal digit, in either case.
unfoldable pub from_hex_char : ℕ → Option ℕ
from_hex_char c =
    if leb b'0' c && leb c b'9'
    then some (c - b'0')
    else if leb b'a' c && leb c b'f'
    then some (c - b'a' + 10)
    else if leb b'A' c && leb c b'F'
    then some (c - b'A' + 10)
    else none

abbrev pub byte_of : Option ℕ → Option ℕ → Option (List ℕ) → Option (List ℕ)
byte_of (some hi) (some lo) (some rest) = some ((hi * 16 + lo) ∷ rest)
byte_of _ _ _ = none

-- An odd length is an error, and so is a character that is no digit.
unfoldable pub decode_codes : List ℕ → Option (List ℕ)
unfolding from_hex_char
decode_codes [] = some []
decode_codes (c ∷ []) = none
decode_codes (c ∷ d ∷ rest) = byte_of (from_hex_char c) (from_hex_char d) (decode_codes rest)

unfoldable pub decode_string : String → Option (List ℕ)
unfolding decode_codes
decode_string s = decode_codes (codes s)
