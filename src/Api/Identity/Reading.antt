-- ===== src/Api/Identity/Reading.antt =====
-- What is read from a response whose texts are padded with zeros to the width of their fields.
use geberit_aquaclean.Prelude.{
  ℕ, zero, suc, ◌+◌, ◌-◌, ◌≤◌, ◌≡◌, refl, ap, sym, ◌∙◌, [], ◌∷◌, ◌++◌, length, length-append,
  length-replicate, replicate, drop, take-append_of_length, drop-append_of_length, drop_all, All,
  arith, ok,
}
use geberit_aquaclean.Prelude.Bytes.{Bytes, slice}
use geberit_aquaclean.Api.Text.{Text, clean_text}
use geberit_aquaclean.Api.Text.Ascii.{IsGraphic, clean_text-padded}
use geberit_aquaclean.Api.Deserializer.{deserialize, deserialize_from}
use geberit_aquaclean.Api.Identity.{identification_result, device_identification_of}

-- A text with zeros behind it, up to `width` bytes.
abbrev pub padded : ℕ → Text → Bytes
padded width text = text ++ replicate (width - length text) 0

abbrev pub FitsField : ℕ → Text → Type 0
FitsField width text = All IsGraphic text × (length text ≤ width)

length-padded : (width : ℕ) (text : Text) → length text ≤ width → length (padded width text) ≡ width
length-padded width text h =
    let zeros : Bytes = replicate (width - length text) 0 in
    omega (arith, length-append text zeros, length-replicate {A = ℕ} (width - length text) 0)

drop-drop : (xs : Bytes) (i w : ℕ) → drop (i + w) xs ≡ drop w (drop i xs)
drop-drop xs zero w = let e : 0 + w ≡ w = omega arith in ap (λ n. drop n xs) e
drop-drop [] (suc i) w = drop_all (suc i + w) [] (omega arith) ∙ sym (drop_all w [] (omega arith))
drop-drop (x ∷ xs) (suc i) w =
    let e : suc i + w ≡ suc (i + w) = omega arith in ap (λ n. drop n (x ∷ xs)) e ∙ drop-drop xs i w

module _ (data' : Bytes) where
  -- At `i` stands a field that holds `text`, and behind it `rest`.
  abbrev HasField : ℕ → ℕ → Text → Bytes → Type 0
  HasField i width text rest = drop i data' ≡ padded width text ++ rest

  clean_text-field :
      (i width j : ℕ) (text : Text) (rest : Bytes)
      → j ≡ i + width
      → HasField i width text rest
      → FitsField width text
      → clean_text (slice i j data') ≡ ok text
  clean_text-field i width j text rest k h (graphic, short) =
      let size : j - i ≡ width = omega arith in
      rw (size, h, take-append_of_length (padded width text) rest (length-padded width text short))
        (clean_text-padded text (width - length text) graphic)

  behind-field :
      (i width j : ℕ) (text : Text) (rest : Bytes)
      → j ≡ i + width
      → HasField i width text rest
      → FitsField width text
      → drop j data' ≡ rest
  behind-field i width j text rest k h (graphic, short) =
      ap (λ n. drop n data') k
      ∙ drop-drop data' i width
      ∙ ap (drop width) h
      ∙ drop-append_of_length (padded width text) rest (length-padded width text short)

-- The four texts are read from the fields of 12, 20, 10 and 40 bytes, whatever follows them.
pub identification_result-padded :
    (a b c d : Text) (rest : Bytes)
    → FitsField 12 a
    → FitsField 20 b
    → FitsField 10 c
    → FitsField 40 d
    → (identification_result
        (padded 12 a ++ (padded 20 b ++ (padded 10 c ++ (padded 40 d ++ rest))))).0
      ≡ ok (record { sap_number = a; serial_number = b; production_date = c; description = d })
unfolding identification_result device_identification_of deserialize deserialize_from
identification_result-padded a b c d rest ha hb hc hd =
    let all : Bytes = padded 12 a ++ (padded 20 b ++ (padded 10 c ++ (padded 40 d ++ rest))) in
    let at_b = behind-field all 0 12 12 a _ refl refl ha in
    let at_c = behind-field all 12 20 32 b _ refl at_b hb in
    let at_d = behind-field all 32 10 42 c _ refl at_c hc in
    rw
      (
        clean_text-field all 0 12 12 a _ refl refl ha,
        clean_text-field all 12 20 32 b _ refl at_b hb,
        clean_text-field all 32 10 42 c _ refl at_c hc,
        clean_text-field all 42 40 82 d _ refl at_d hd,
      )
      refl
