-- ===== src/Security/Session/Inner.antt =====
-- The inner stream: `_feed_inner_cobs` and how the plaintext is cut.
use geberit_aquaclean.Prelude.{
  ℕ, zero, suc, ◌+◌, ◌<◌, ◌≡◌, refl, sym, ap, ◌∙◌, true, false, none, some, List, [], ◌∷◌, ◌++◌,
  append_assoc, append-nil, arith, ◌==◌, ==_refl, ltb, if◌then◌else◌, length, drop, Bool-cases, inl,
  inr, ◌⊎◌, All, All-append, ok,
}
use geberit_aquaclean.Prelude.Bytes.{Bytes, IsBytes}
use geberit_aquaclean.Security.Kermit.{
  crc16_kermit, sealed, sealed-IsBytes, length-sealed, body_of-sealed, crc_received-sealed,
}
use geberit_aquaclean.Security.Cobs.{cobs_encode, cobs_decode}
use geberit_aquaclean.Security.Cobs.RoundTrip.{cobs_decode-cobs_encode}
use geberit_aquaclean.Security.Cobs.Shape.{cobs_encode_without_zero, length-cobs_encode}
use geberit_aquaclean.Security.Link.{Security, frame_of, split_zero}
use geberit_aquaclean.Security.Session.{accept_decoded, inner_results, inner_loop, feed_inner_cobs}

-- The stream read byte by byte: the messages found, and the bytes behind the last delimiter.
unfoldable pub inner_scan : Bytes → Bytes → List Bytes × Bytes
inner_scan content [] = ([], content)
inner_scan content (b ∷ bs) =
    let rest = inner_scan [] bs in
    let on = inner_scan (content ++ (b ∷ [])) bs in
    if b == 0 then (inner_results content ++ rest.0, rest.1) else on

inner_close :
    (content bs : Bytes) (b : ℕ)
    → (b == 0) ≡ true
    → inner_scan content (b ∷ bs)
      ≡ (inner_results content ++ (inner_scan [] bs).0, (inner_scan [] bs).1)
unfolding inner_scan
inner_close content bs b z = rw z refl

inner_on :
    (content bs : Bytes) (b : ℕ)
    → (b == 0) ≡ false
    → inner_scan content (b ∷ bs) ≡ inner_scan (content ++ (b ∷ [])) bs
unfolding inner_scan
inner_on content bs b nz = rw nz refl

inner_scan-append :
    (content xs ys : Bytes)
    → inner_scan content (xs ++ ys) ≡ (
      (inner_scan content xs).0 ++ (inner_scan (inner_scan content xs).1 ys).0,
      (inner_scan (inner_scan content xs).1 ys).1,
    )
inner_scan-append content [] ys = unfold inner_scan in refl
inner_scan-append content (b ∷ xs) ys = elim (Bool-cases (b == 0)) [
  | inl z ↦
      rw
        (inner_close content xs b z, inner_close content (xs ++ ys) b z, inner_scan-append [] xs ys)
        (ap (λ r. (r, (inner_scan (inner_scan [] xs).1 ys).1))
          (sym (
            append_assoc (inner_results content) (inner_scan [] xs).0
              (inner_scan (inner_scan [] xs).1 ys).0)))
  | inr nz ↦
      rw (inner_on content xs b nz, inner_on content (xs ++ ys) b nz)
        (inner_scan-append (content ++ (b ∷ [])) xs ys)
]

inner_scan-inside :
    (front content bs : Bytes)
    → All (λ b. (b == 0) ≡ false) front
    → inner_scan content (front ++ bs) ≡ inner_scan (content ++ front) bs
inner_scan-inside [] content bs h = ap (λ c. inner_scan c bs) (sym (append-nil content))
inner_scan-inside (b ∷ front) content bs (hb, h) =
    inner_on content (front ++ bs) b hb
    ∙ inner_scan-inside front (content ++ (b ∷ [])) bs h
    ∙ ap (λ c. inner_scan c bs) (append_assoc content (b ∷ []) front)

-- What the next delimiter splits off is what the scan reads up to it.
abbrev Split : Bytes → Bytes → Type 0
Split content tail =
    ((split_zero tail ≡ none) × (inner_scan content tail ≡ ([], content ++ tail)))
    ⊎ ((p : Bytes × Bytes) × (split_zero tail ≡ some p)
        × (inner_scan content tail ≡ (
          inner_results (content ++ p.0) ++ (inner_scan [] (drop 1 p.1)).0,
          (inner_scan [] (drop 1 p.1)).1,
        ))
        × (length (drop 1 p.1) < length tail))

split_zero_lem : (content tail : Bytes) → Split content tail
unfolding split_zero
split_zero_lem content [] =
    inl (refl, unfold inner_scan in ap (λ c. ([], c)) (sym (append-nil content)))
split_zero_lem content (b ∷ bs) = elim (Bool-cases (b == 0)) [
  | inl z ↦
      rw z (
        inr (([], b ∷ bs), refl, rw (append-nil content) (inner_close content bs b z), omega arith))
  | inr nz ↦ rw nz (elim (split_zero_lem (content ++ (b ∷ [])) bs) [
    | inl (e, h) ↦ inl (
      rw e refl,
      inner_on content bs b nz ∙ h ∙ ap (λ c. ([], c)) (append_assoc content (b ∷ []) bs),
    )
    | inr (p, e, h, l) ↦ inr (
      (b ∷ p.0, p.1),
      rw e refl,
      inner_on content bs b nz
          ∙ h
          ∙ ap
              (λ c.
                (inner_results c ++ (inner_scan [] (drop 1 p.1)).0, (inner_scan [] (drop 1 p.1)).1))
              (append_assoc content (b ∷ []) p.0),
      omega arith,
    )
  ])
]

inner_loop-inner_scan :
    (fuel : ℕ) (buf : Bytes) (results : List Bytes)
    → length buf < fuel
    → inner_loop fuel buf results ≡ (results ++ (inner_scan [] buf).0, (inner_scan [] buf).1)
unfolding inner_loop
inner_loop-inner_scan zero buf results h = absurd (omega arith)
inner_loop-inner_scan (suc fuel) buf results h = elim (split_zero_lem [] buf) [
  | inl (e, k) ↦ rw (e, k, inner_loop) (ap (λ r. (r, buf)) (sym (append-nil results)))
  | inr (p, e, k, l) ↦
      let rest : Bytes = drop 1 p.1 in
      rw (e, k, inner_loop)
        (inner_loop-inner_scan fuel rest (results ++ inner_results p.0) (omega arith)
          ∙ ap (λ r. (r, (inner_scan [] rest).1))
              (append_assoc results (inner_results p.0) (inner_scan [] rest).0))
]

-- The loop's fuel is enough, and the loop is the scan.
pub feed_inner_cobs-inner_scan :
    (s : Security) (bs : Bytes)
    → feed_inner_cobs s bs ≡ (
      (inner_scan [] (s.inner_cobs_buf ++ bs)).0,
      record s { inner_cobs_buf = (inner_scan [] (s.inner_cobs_buf ++ bs)).1 },
    )
unfolding feed_inner_cobs
feed_inner_cobs-inner_scan s bs =
    let buf : Bytes = s.inner_cobs_buf ++ bs in
    rw (inner_loop-inner_scan (length buf + 1) buf [] (omega arith)) refl

abbrev IsContent : Bytes → Type 0
IsContent = All (λ b. (b == 0) ≡ false)

left-IsContent : (content bs : Bytes) → IsContent content → IsContent (inner_scan content bs).1
left-IsContent content [] h = unfold inner_scan in h
left-IsContent content (b ∷ bs) h = elim (Bool-cases (b == 0)) [
  | inl z ↦ rw (inner_close content bs b z) (left-IsContent [] bs tt)
  | inr nz ↦ rw (inner_on content bs b nz) (
      left-IsContent (content ++ (b ∷ [])) bs
        (All-append (λ c. (c == 0) ≡ false) content (b ∷ []) h (nz, tt)))
]

-- Plaintext that comes in two parts gives the messages of both in order, as if it came in one.
pub feed_inner_cobs-append :
    (s : Security) (xs ys : Bytes)
    → feed_inner_cobs s (xs ++ ys) ≡ (
      (feed_inner_cobs s xs).0 ++ (feed_inner_cobs (feed_inner_cobs s xs).1 ys).0,
      (feed_inner_cobs (feed_inner_cobs s xs).1 ys).1,
    )
feed_inner_cobs-append s xs ys =
    let buf : Bytes = s.inner_cobs_buf in
    let first : List Bytes × Bytes = inner_scan [] (buf ++ xs) in
    let go_on : inner_scan [] (first.1 ++ ys) ≡ inner_scan first.1 ys =
      inner_scan-inside first.1 [] ys (left-IsContent [] (buf ++ xs) tt) in
    let whole : inner_scan [] (buf ++ (xs ++ ys))
        ≡ (first.0 ++ (inner_scan first.1 ys).0, (inner_scan first.1 ys).1) =
      ap (inner_scan []) (sym (append_assoc buf xs ys)) ∙ inner_scan-append [] (buf ++ xs) ys in
    rw
      (
        feed_inner_cobs-inner_scan s xs,
        feed_inner_cobs-inner_scan s (xs ++ ys),
        feed_inner_cobs-inner_scan (record s { inner_cobs_buf = first.1 }) ys,
        whole,
        go_on,
      )
      refl

inner_results-accept :
    (content : Bytes)
    → 0 < length content
    → inner_results content ≡ accept_decoded (cobs_decode content)
unfolding inner_results
inner_results-accept [] h = absurd (omega arith)
inner_results-accept (b ∷ bs) h = refl

accept-sealed : (body : Bytes) → IsBytes body → accept_decoded (ok (sealed body)) ≡ body ∷ []
unfolding accept_decoded
accept-sealed body h =
    let long : ltb (length (sealed body)) 2 ≡ false = ground (arith, length-sealed body) in
    rw (long, body_of-sealed body, crc_received-sealed body h, ==_refl (crc16_kermit body)) refl

inner_results-sealed :
    (body : Bytes) → IsBytes body → inner_results (cobs_encode (sealed body)) ≡ body ∷ []
inner_results-sealed body h =
    inner_results-accept (cobs_encode (sealed body))
      (omega (arith, length-cobs_encode (sealed body)))
    ∙ ap accept_decoded (cobs_decode-cobs_encode (sealed body))
    ∙ accept-sealed body h

inner_scan-frame_of :
    (body : Bytes) → IsBytes body → inner_scan [] (frame_of body) ≡ (body ∷ [], [])
unfolding frame_of
inner_scan-frame_of body h =
    let content : Bytes = cobs_encode (sealed body) in
    let bytes : IsBytes (sealed body) = sealed-IsBytes body h in
    inner_close [] (content ++ (0 ∷ [])) 0 refl
    ∙ unfold inner_results in
      inner_scan-inside content [] (0 ∷ []) (cobs_encode_without_zero (sealed body) bytes)
      ∙ inner_close content [] 0 refl
      ∙ unfold inner_scan in ap (λ r. (r ++ [], [])) (inner_results-sealed body h)

-- A framed message at the start of the stream is found whole, and nothing is left.
pub feed_inner_cobs-frame_of :
    (s : Security) (body : Bytes)
    → IsBytes body
    → s.inner_cobs_buf ≡ []
    → feed_inner_cobs s (frame_of body) ≡ (body ∷ [], record s { inner_cobs_buf = [] })
feed_inner_cobs-frame_of s body h e =
    let found : inner_scan [] (s.inner_cobs_buf ++ frame_of body) ≡ (body ∷ [], []) =
      ap (λ r. inner_scan [] (r ++ frame_of body)) e ∙ inner_scan-frame_of body h in
    feed_inner_cobs-inner_scan s (frame_of body)
    ∙ ap (λ (r : List Bytes × Bytes). (r.0, record s { inner_cobs_buf = r.1 })) found
