-- ===== src/Api/Text/Ascii.antt =====
-- Texts of printable characters, as the devices hold them: padded with zeros to the width of a field.
use geberit_aquaclean.Prelude.{
  ℕ, ◌≤◌, ◌<◌, ◌≡◌, refl, false, [], ◌∷◌, ◌++◌, ◌==◌, All, arith, ok, err, Result, value_error,
  Option, none, some, ap, ◌∙◌, replicate, zero, suc,
}
use geberit_aquaclean.Api.Text.{
  Text, Partial, next_byte, first_byte, then_char, decode_from, without_nul, is_space, lstrip,
  rstrip, strip, clean_text,
}

-- Printable characters of ASCII, with no space among them.
abbrev pub IsGraphic : ℕ → Type 0
IsGraphic c = (33 ≤ c) × (c < 127)

abbrev ended : ℕ → Partial
ended c = record { need = 0; low = 0; high = 0; code = c }

decode-zeros : (c n : ℕ) → decode_from (ended c) (replicate n 0) ≡ ok (replicate n 0)
unfolding decode_from next_byte first_byte then_char
decode-zeros c zero = refl
decode-zeros c (suc n) = rw (decode-zeros 0 n) refl

next_byte-graphic : (c b : ℕ) → b < 127 → next_byte (ended c) b ≡ some (ended b)
unfolding next_byte first_byte
next_byte-graphic c b h = ground arith

decode-padded :
    (c : ℕ) (text : Text) (n : ℕ)
    → All IsGraphic text
    → decode_from (ended c) (text ++ replicate n 0) ≡ ok (text ++ replicate n 0)
unfolding decode_from then_char
decode-padded c [] n h = decode-zeros c n
decode-padded c (b ∷ text) n (p, h) =
    let bytes = text ++ replicate n 0 in
    ap
      (λ (o : Option Partial). elim o as (λ _. Result Text) [
        | none ↦ err value_error
        | some q ↦ then_char q (decode_from q bytes)
      ])
      (next_byte-graphic c b p.1)
    ∙ ap (then_char (ended b)) (decode-padded b text n h)

without_nul-zeros : (n : ℕ) → without_nul (replicate n 0) ≡ []
unfolding without_nul
without_nul-zeros zero = refl
without_nul-zeros (suc n) = without_nul-zeros n

without_nul-padded :
    (text : Text) (n : ℕ) → All IsGraphic text → without_nul (text ++ replicate n 0) ≡ text
unfolding without_nul
without_nul-padded [] n h = without_nul-zeros n
without_nul-padded (c ∷ text) n (p, h) =
    let no : (c == 0) ≡ false = ground arith in rw (no, without_nul-padded text n h) refl

is_space-graphic : (c : ℕ) → IsGraphic c → is_space c ≡ false
unfolding is_space
is_space-graphic c h = ground arith

rstrip-graphic : (text : Text) → All IsGraphic text → rstrip text ≡ text
unfolding rstrip
rstrip-graphic [] h = refl
rstrip-graphic (c ∷ []) (p, h) = rw (is_space-graphic c p) refl
rstrip-graphic (c ∷ d ∷ text) (p, h) = rw (rstrip-graphic (d ∷ text) h) refl

lstrip-graphic : (text : Text) → All IsGraphic text → lstrip text ≡ text
unfolding lstrip
lstrip-graphic [] h = refl
lstrip-graphic (c ∷ text) (p, h) = rw (is_space-graphic c p) refl

-- A padded text is read back without its padding.
pub clean_text-padded :
    (text : Text) (n : ℕ) → All IsGraphic text → clean_text (text ++ replicate n 0) ≡ ok text
unfolding clean_text strip
clean_text-padded text n h =
    rw
      (
        decode-padded 0 text n h,
        without_nul-padded text n h,
        lstrip-graphic text h,
        rstrip-graphic text h,
      )
      refl
