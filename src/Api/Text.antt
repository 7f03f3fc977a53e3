-- ===== src/Api/Text.antt =====
-- Python's texts, as lists of code points, as far as the calls use them: `decode('utf-8')`,
-- `replace`, `strip`, and the conversions of a number in an f-string.
pub mod Ascii
use geberit_aquaclean.Prelude.{
  ℕ, zero, suc, ◌+◌, ◌-◌, ◌*◌, ◌/◌, ◌%◌, Bool, ◌&&◌, ◌||◌, Option, none, some, List, [], ◌∷◌, ◌++◌,
  ◌==◌, ltb, leb, if◌then◌else◌, Result, ok, err, value_error,
}
use geberit_aquaclean.Prelude.Bytes.{Bytes}
use Prim.Native.Char.{code}
use Prim.Native.String.{String}

abbrev pub Text : Type 0
Text = List ℕ

abbrev pub in_range : ℕ → ℕ → ℕ → Bool
in_range low high n = leb low n && leb n high

-- A character of which `need` bytes are still to come, the next between `low` and `high`.
pub record Partial : Type 0 where
  pub need : ℕ
  pub low : ℕ
  pub high : ℕ
  pub code : ℕ

abbrev pub no_char : Partial
no_char = record { need = 0; low = 0; high = 0; code = 0 }

-- The first byte of a character.
unfoldable pub first_byte : ℕ → Option Partial
first_byte b =
    if ltb b 0x80
    then some (record { need = 0; low = 0; high = 0; code = b })
    else if in_range 0xc2 0xdf b
    then some (record { need = 1; low = 0x80; high = 0xbf; code = b - 0xc0 })
    else if in_range 0xe0 0xef b
    then some (record {
      need = 2;
      low = if b == 0xe0 then 0xa0 else 0x80;
      high = if b == 0xed then 0x9f else 0xbf;
      code = b - 0xe0;
    })
    else if in_range 0xf0 0xf4 b
    then some (record {
      need = 3;
      low = if b == 0xf0 then 0x90 else 0x80;
      high = if b == 0xf4 then 0x8f else 0xbf;
      code = b - 0xf0;
    })
    else none

unfoldable pub next_byte : Partial → ℕ → Option Partial
unfolding first_byte
next_byte p b =
    if p.need == 0
    then first_byte b
    else if in_range p.low p.high b
    then some
        (record { need = p.need - 1; low = 0x80; high = 0xbf; code = p.code * 64 + (b - 0x80) })
    else none

unfoldable pub then_char : Partial → Result Text → Result Text
then_char p (err e) = err e
then_char p (ok text) = ok (if p.need == 0 then p.code ∷ text else text)

-- `bytes.decode('utf-8')`: what is not UTF-8 raises UnicodeDecodeError, a ValueError.
unfoldable pub decode_from : Partial → Bytes → Result Text
unfolding next_byte then_char
decode_from p [] = if p.need == 0 then ok [] else err value_error
decode_from p (b ∷ bytes) = elim (next_byte p b) [
  | none ↦ err value_error
  | some q ↦ then_char q (decode_from q bytes)
]

abbrev pub decode_utf8 : Bytes → Result Text
decode_utf8 = decode_from no_char

-- `text.replace('\0', '')`
unfoldable pub without_nul : Text → Text
without_nul [] = []
without_nul (c ∷ text) = if c == 0 then without_nul text else c ∷ without_nul text

-- What `strip` takes off: the characters for which `str.isspace` holds.
unfoldable pub is_space : ℕ → Bool
is_space c =
    in_range 9 13 c
    || in_range 28 32 c
    || c == 0x85
    || c == 0xa0
    || c == 0x1680
    || in_range 0x2000 0x200a c
    || in_range 0x2028 0x2029 c
    || c == 0x202f
    || c == 0x205f
    || c == 0x3000

unfoldable pub lstrip : Text → Text
unfolding is_space
lstrip [] = []
lstrip (c ∷ text) = let shorter = lstrip text in if is_space c then shorter else c ∷ text

-- A character stays if one behind it stays, or if it is no space.
abbrev pub strip_keep : ℕ → Text → Text
strip_keep c [] = if is_space c then [] else c ∷ []
strip_keep c (d ∷ text) = c ∷ d ∷ text

unfoldable pub rstrip : Text → Text
unfolding is_space
rstrip [] = []
rstrip (c ∷ text) = strip_keep c (rstrip text)

unfoldable pub strip : Text → Text
unfolding lstrip rstrip
strip text = rstrip (lstrip text)

abbrev pub stripped : Result Text → Result Text
stripped (err e) = err e
stripped (ok text) = ok (strip (without_nul text))

-- `data.decode('utf-8').replace('\0', '').strip()`
unfoldable pub clean_text : Bytes → Result Text
unfolding decode_from without_nul strip
clean_text data' = stripped (decode_utf8 data')

-- `str(n)`, on fuel: a number has no more decimal digits than it counts, and one.
unfoldable pub digits : ℕ → ℕ → Text → Text
digits zero n text = text
digits (suc fuel) n text =
    let more = digits fuel (n / 10) ((n % 10 + 48) ∷ text) in
    if ltb n 10 then (n + 48) ∷ text else more

unfoldable pub str : ℕ → Text
unfolding digits
str n = digits (suc n) n []

-- `f"{b:02X}"`
abbrev pub hex_digit : ℕ → ℕ
hex_digit n = if ltb n 10 then n + 48 else n + 55

unfoldable pub hex2 : ℕ → Text
hex2 b = hex_digit (b / 16) ∷ hex_digit (b % 16) ∷ []

-- The code points of a literal.
abbrev pub text_of : String → Text
text_of String.[] = []
text_of (String.◌∷◌ c s) = code c ∷ text_of s
