-- ===== src/Security/Link/Buffer.antt =====
-- `_process_rx_buf` and how the bytes are cut into notifications.
use geberit_aquaclean.Prelude.{
  ℕ, zero, suc, ◌+◌, ◌≤◌, ◌<◌, ◌≡◌, refl, sym, ap, ◌∙◌, true, false, none, some, [], ◌∷◌, ◌++◌,
  append_assoc, append-nil, arith, ◌==◌, ==_iff, if◌then◌else◌, length, Bool-cases, inl, inr, All,
  All-append, ◌⊎◌, Result, ok, err,
}
use geberit_aquaclean.Prelude.Bytes.{Bytes}
use geberit_aquaclean.Security.Link.{
  Security, handle_content, after_decode, handle_decoded, dispatch, queue_i_frame, queue_u_frame,
  att_s_rr, s_ctrl_rr, skip, split_zero, process_rx_loop, process_rx_buf, receive,
}
use geberit_aquaclean.Security.Cobs.{cobs_decode}

-- The receiver as an automaton that reads byte by byte: before the first delimiter, or after a
-- delimiter and the bytes in hand.
pub data Mode : Type 0 where
  hunting : Mode
  inside : Bytes → Mode

unfoldable pub scan : Mode → Bytes → Security → Security
scan hunting [] s = record s { rx_buf = [] }
scan (inside content) [] s = record s { rx_buf = 0 ∷ content }
scan hunting (b ∷ bs) s =
    let start = scan (inside []) bs s in let on = scan hunting bs s in if b == 0 then start else on
scan (inside content) (b ∷ bs) s =
    let frame = scan (inside []) bs (handle_content s content) in
    let on = scan (inside (content ++ (b ∷ []))) bs s in if b == 0 then frame else on

-- No handler reads or writes the buffer.
handle_decoded-rx_buf :
    (s : Security) (buf decoded : Bytes)
    → handle_decoded (record s { rx_buf = buf }) decoded
      ≡ record (handle_decoded s decoded) { rx_buf = buf }
unfolding handle_decoded dispatch queue_i_frame queue_u_frame att_s_rr s_ctrl_rr
handle_decoded-rx_buf s buf decoded = ground arith

after_decode-rx_buf :
    (s : Security) (buf : Bytes) (r : Result Bytes)
    → after_decode (record s { rx_buf = buf }) r ≡ record (after_decode s r) { rx_buf = buf }
unfolding after_decode
after_decode-rx_buf s buf (ok decoded) = handle_decoded-rx_buf s buf decoded
after_decode-rx_buf s buf (err e) = refl

handle_content-rx_buf :
    (s : Security) (buf content : Bytes)
    → handle_content (record s { rx_buf = buf }) content
      ≡ record (handle_content s content) { rx_buf = buf }
unfolding handle_content
handle_content-rx_buf s buf [] = refl
handle_content-rx_buf s buf (b ∷ bs) = after_decode-rx_buf s buf (cobs_decode (b ∷ bs))

scan-rx_buf :
    (m : Mode) (bs buf : Bytes) (s : Security) → scan m bs (record s { rx_buf = buf }) ≡ scan m bs s
unfolding scan
scan-rx_buf hunting [] buf s = refl
scan-rx_buf (inside content) [] buf s = refl
scan-rx_buf hunting (b ∷ bs) buf s =
    rw (scan-rx_buf (inside []) bs buf s, scan-rx_buf hunting bs buf s) refl
scan-rx_buf (inside content) (b ∷ bs) buf s =
    rw
      (
        handle_content-rx_buf s buf content,
        scan-rx_buf (inside []) bs buf (handle_content s content),
        scan-rx_buf (inside (content ++ (b ∷ []))) bs buf s,
      )
      refl

skip-cases :
    (bs : Bytes)
    → (skip bs ≡ []) ⊎ ((tail : Bytes) × (skip bs ≡ 0 ∷ tail) × (length tail < length bs))
unfolding skip
skip-cases [] = inl refl
skip-cases (b ∷ bs) = elim (Bool-cases (b == 0)) [
  | inl z ↦ inr (bs, rw (z, (==_iff b 0).0 z) refl, omega arith)
  | inr nz ↦
      rw nz (elim (skip-cases bs) [ inl e ↦ inl e | inr (tail, e, h) ↦ inr (tail, e, omega arith) ])
]

scan-skip : (bs : Bytes) (s : Security) → scan hunting bs s ≡ scan hunting (skip bs) s
unfolding skip scan
scan-skip [] s = refl
scan-skip (b ∷ bs) s = elim (Bool-cases (b == 0)) [
  | inl z ↦ rw z (rw z refl)
  | inr nz ↦ rw nz (scan-skip bs s)
]

scan_close :
    (content bs : Bytes) (b : ℕ) (s : Security)
    → (b == 0) ≡ true
    → scan (inside content) (b ∷ bs) s ≡ scan (inside []) bs (handle_content s content)
unfolding scan
scan_close content bs b s z = rw z refl

scan_on :
    (content bs : Bytes) (b : ℕ) (s : Security)
    → (b == 0) ≡ false
    → scan (inside content) (b ∷ bs) s ≡ scan (inside (content ++ (b ∷ []))) bs s
unfolding scan
scan_on content bs b s nz = rw nz refl

scan_open :
    (bs : Bytes) (b : ℕ) (s : Security)
    → (b == 0) ≡ true
    → scan hunting (b ∷ bs) s ≡ scan (inside []) bs s
unfolding scan
scan_open bs b s z = rw z refl

scan_hunt :
    (bs : Bytes) (b : ℕ) (s : Security)
    → (b == 0) ≡ false
    → scan hunting (b ∷ bs) s ≡ scan hunting bs s
unfolding scan
scan_hunt bs b s nz = rw nz refl

abbrev Split : Bytes → Bytes → Security → Type 0
Split content tail s =
    ((split_zero tail ≡ none)
      × (scan (inside content) tail s ≡ record s { rx_buf = 0 ∷ (content ++ tail) }))
    ⊎ ((p : Bytes × Bytes) × (split_zero tail ≡ some p)
        × (scan (inside content) tail s ≡ scan hunting p.1 (handle_content s (content ++ p.0)))
        × (length p.1 ≤ length tail))

split_zero_lem : (content tail : Bytes) (s : Security) → Split content tail s
unfolding split_zero
split_zero_lem content [] s =
    inl (refl, unfold scan in ap (λ c. record s { rx_buf = 0 ∷ c }) (sym (append-nil content)))
split_zero_lem content (b ∷ bs) s = elim (Bool-cases (b == 0)) [
  | inl z ↦ rw z (
      inr (
        ([], b ∷ bs),
        refl,
        scan_close content bs b s z
            ∙ sym (scan_open bs b (handle_content s content) z)
            ∙ ap (λ c. scan hunting (b ∷ bs) (handle_content s c)) (sym (append-nil content)),
        omega arith,
      ))
  | inr nz ↦ rw nz (elim (split_zero_lem (content ++ (b ∷ [])) bs s) [
    | inl (e, h) ↦ inl (
      rw e refl,
      scan_on content bs b s nz
          ∙ h
          ∙ ap (λ c. record s { rx_buf = 0 ∷ c }) (append_assoc content (b ∷ []) bs),
    )
    | inr (p, e, h, l) ↦ inr (
      (b ∷ p.0, p.1),
      rw e refl,
      scan_on content bs b s nz
          ∙ h
          ∙ ap (λ c. scan hunting p.1 (handle_content s c)) (append_assoc content (b ∷ []) p.0),
      omega arith,
    )
  ])
]

from_start :
    (s : Security) (tail : Bytes)
    → skip s.rx_buf ≡ 0 ∷ tail
    → scan hunting s.rx_buf s ≡ scan (inside []) tail s
from_start s tail e = scan-skip s.rx_buf s ∙ ap (λ r. scan hunting r s) e ∙ scan_open tail 0 s refl

process_rx_loop-scan :
    (fuel : ℕ) (s : Security)
    → length s.rx_buf < fuel
    → process_rx_loop fuel s ≡ scan hunting s.rx_buf s
unfolding process_rx_loop
process_rx_loop-scan zero s h = absurd (omega arith)
process_rx_loop-scan (suc fuel) s h = elim (skip-cases s.rx_buf) [
  | inl e ↦
      let whole : scan hunting s.rx_buf s ≡ record s { rx_buf = [] } =
        scan-skip s.rx_buf s ∙ ap (λ r. scan hunting r s) e ∙ unfold scan in refl in
      rw (e, process_rx_loop) (sym whole)
  | inr (tail, e, l) ↦ elim (split_zero_lem [] tail s) [
    | inl (n, k) ↦ rw (e, n, process_rx_loop) (sym (from_start s tail e ∙ k))
    | inr (p, n, k, m) ↦
        let next : Security = record (handle_content s p.0) { rx_buf = p.1 } in
        let run : process_rx_loop fuel next ≡ scan hunting p.1 next =
          process_rx_loop-scan fuel next (omega arith) in
        rw (e, n, process_rx_loop)
          (ap (process_rx_loop fuel) (handle_content-rx_buf s p.1 p.0)
            ∙ run
            ∙ scan-rx_buf hunting p.1 p.1 (handle_content s p.0)
            ∙ sym (from_start s tail e ∙ k))
  ]
]

-- The loop's fuel is enough, and the loop is the automaton on the buffer.
pub process_rx_buf-scan : (s : Security) → process_rx_buf s ≡ scan hunting s.rx_buf s
unfolding process_rx_buf
process_rx_buf-scan s = process_rx_loop-scan (length s.rx_buf + 1) s (omega arith)

pub receive-scan : (s : Security) (bs : Bytes) → receive s bs ≡ scan hunting (s.rx_buf ++ bs) s
unfolding receive
receive-scan s bs =
    process_rx_buf-scan (record s { rx_buf = s.rx_buf ++ bs })
    ∙ scan-rx_buf hunting (s.rx_buf ++ bs) (s.rx_buf ++ bs) s

abbrev IsContent : Bytes → Type 0
IsContent = All (λ b. (b == 0) ≡ false)

abbrev ModeIsContent : Mode → Type 0
ModeIsContent hunting = Unit {0}
ModeIsContent (inside content) = IsContent content

scan-inside :
    (front content bs : Bytes) (s : Security)
    → IsContent front
    → scan (inside content) (front ++ bs) s ≡ scan (inside (content ++ front)) bs s
scan-inside [] content bs s h = ap (λ c. scan (inside c) bs s) (sym (append-nil content))
scan-inside (b ∷ front) content bs s (hb, h) =
    scan_on content (front ++ bs) b s hb
    ∙ scan-inside front (content ++ (b ∷ [])) bs s h
    ∙ ap (λ c. scan (inside c) bs s) (append_assoc content (b ∷ []) front)

abbrev resume : Bytes → Security → Security
resume bs s = scan hunting (s.rx_buf ++ bs) s

resume-inside :
    (content ys : Bytes) (s : Security)
    → IsContent content
    → resume ys (record s { rx_buf = 0 ∷ content }) ≡ scan (inside content) ys s
resume-inside content ys s h =
    let t : Security = record s { rx_buf = 0 ∷ content } in
    scan_open (content ++ ys) 0 t refl
    ∙ scan-inside content [] ys t h
    ∙ scan-rx_buf (inside content) ys (0 ∷ content) s

-- What is in the buffer after a scan is what the scan would go on from.
scan-append :
    (m : Mode) (xs ys : Bytes) (s : Security)
    → ModeIsContent m
    → resume ys (scan m xs s) ≡ scan m (xs ++ ys) s
scan-append hunting [] ys s h = unfold scan in scan-rx_buf hunting ys [] s
scan-append (inside content) [] ys s h = unfold scan in resume-inside content ys s h
scan-append hunting (b ∷ xs) ys s h = elim (Bool-cases (b == 0)) [
  | inl z ↦
      ap (resume ys) (scan_open xs b s z)
      ∙ scan-append (inside []) xs ys s tt
      ∙ sym (scan_open (xs ++ ys) b s z)
  | inr nz ↦
      ap (resume ys) (scan_hunt xs b s nz)
      ∙ scan-append hunting xs ys s tt
      ∙ sym (scan_hunt (xs ++ ys) b s nz)
]
scan-append (inside content) (b ∷ xs) ys s h = elim (Bool-cases (b == 0)) [
  | inl z ↦
      ap (resume ys) (scan_close content xs b s z)
      ∙ scan-append (inside []) xs ys (handle_content s content) tt
      ∙ sym (scan_close content (xs ++ ys) b s z)
  | inr nz ↦
      ap (resume ys) (scan_on content xs b s nz)
      ∙ scan-append (inside (content ++ (b ∷ []))) xs ys s
          (All-append (λ c. (c == 0) ≡ false) content (b ∷ []) h (nz, tt))
      ∙ sym (scan_on content (xs ++ ys) b s nz)
]

-- Two notifications are received as one that holds the bytes of both.
pub receive-append :
    (s : Security) (xs ys : Bytes) → receive (receive s xs) ys ≡ receive s (xs ++ ys)
receive-append s xs ys =
    receive-scan (receive s xs) ys
    ∙ ap (resume ys) (receive-scan s xs)
    ∙ scan-append hunting (s.rx_buf ++ xs) ys s tt
    ∙ ap (λ r. scan hunting r s) (append_assoc s.rx_buf xs ys)
    ∙ sym (receive-scan s (xs ++ ys))

-- Between two frames the buffer is empty, or holds the closing delimiter of the last one.
abbrev pub IsIdle : Security → Type 0
IsIdle s = (s.rx_buf ≡ []) ⊎ (s.rx_buf ≡ 0 ∷ [])

scan_frame :
    (content : Bytes) (s : Security)
    → IsContent content
    → scan (inside []) (content ++ (0 ∷ [])) s
      ≡ record (handle_content s content) { rx_buf = 0 ∷ [] }
scan_frame content s h =
    scan-inside content [] (0 ∷ []) s h ∙ scan_close content [] 0 s refl ∙ unfold scan in refl

-- A frame between delimiters, received while the link is idle, is handled, and leaves it idle.
pub receive_frame :
    (content : Bytes) (s : Security)
    → All (λ b. (b == 0) ≡ false) content
    → IsIdle s
    → receive s (0 ∷ (content ++ (0 ∷ []))) ≡ record (handle_content s content) { rx_buf = 0 ∷ [] }
receive_frame content s h idle =
    let frame : Bytes = content ++ (0 ∷ []) in
    receive-scan s (0 ∷ frame) ∙ (elim idle [
      | inl e ↦
          ap (λ r. scan hunting (r ++ (0 ∷ frame)) s) e
          ∙ scan_open frame 0 s refl
          ∙ scan_frame content s h
      | inr e ↦
          ap (λ r. scan hunting (r ++ (0 ∷ frame)) s) e
          ∙ scan_open (0 ∷ frame) 0 s refl
          ∙ scan_close [] frame 0 s refl
          ∙ unfold handle_content in scan_frame content s h
    ])
