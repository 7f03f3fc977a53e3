-- ===== src/Frames/Collector/Arrival.antt =====
-- When a transaction ends, in whatever order its frames arrive.
use geberit_aquaclean.Prelude.{
  ℕ, zero, suc, ◌+◌, ◌≤◌, ◌<◌, ◌≡◌, ◌≢◌, refl, sym, ap, subst, ◌∙◌, true, false, Bool-cases, inl,
  inr, none, some, List, [], ◌∷◌, ◌++◌, append_assoc, All, arith, ◌==◌, ==_iff, length, get_elem?,
  replicate, ok,
}
use geberit_aquaclean.Prelude.Bytes.{Bytes}
use geberit_aquaclean.Frames.Collector.{
  FrameData, find, put, FrameCollector, Event, transaction_complete, Outcome, set_bitmap, join,
  control_events, complete_with, complete, after_bitmap, add_with_bitmap, add_to_transaction,
  add_frame, and_then, add_frames, start_transaction,
}
use geberit_aquaclean.Frames.Collector.Assembly.{
  find_same, find_other, concat, IsFrameOf, IsReport, IsSound, IsSoundOutcome, add_frames-IsSound,
}
use geberit_aquaclean.Frames.Collector.Stored.{
  then_branch, else_branch, differ, true≢false, none≢some, length-put, find-put_self,
  find-put_other, set_bitmap_ok, join_ok,
}

-- A transaction that waits for frames `rest` and for no others.
record Waiting (s : FrameCollector) (rest : FrameData) : Type 0 where
  runs : s.transaction_in_progress ≡ true
  bits : length s.bitmap ≡ 8
  counts : length s.frame_data + length rest ≡ s.expected_frames
  covers : (j : ℕ) → j < s.expected_frames → find j rest ≡ none → find j s.frame_data ≢ none

-- No two frames have the same number.
unfoldable pub IsDistinct : FrameData → Type 0
IsDistinct [] = Unit
IsDistinct ((i, p) ∷ rest) = (find i rest ≡ none) × IsDistinct rest

-- None of the frames is stored.
unfoldable IsNew : FrameData → ℕ × Bytes → Type 0
IsNew fd (i, p) = (i < 64) × (find i fd ≡ none)

IsNew-put :
    (fd rest : FrameData) (i : ℕ) (p : Bytes)
    → find i rest ≡ none
    → All (IsNew fd) rest
    → All (IsNew (put i p fd)) rest
unfolding IsNew
IsNew-put fd [] i p e h = tt
IsNew-put fd ((j, q) ∷ rest) i p e ((small, new), h) = elim (Bool-cases (i == j)) [
  | inl z ↦ absurd (none≢some q (sym e ∙ find_same i j q rest z))
  | inr z ↦
      let apart : j ≢ i = λ k. true≢false (sym ((==_iff i j).1 (sym k)) ∙ z) in
      (
        (small, find-put_other i j p fd apart ∙ new),
        IsNew-put fd rest i p (sym (find_other i j q rest z) ∙ e) h,
      )
]

-- The state once frame `i` is stored.
abbrev stored : FrameCollector → ℕ → Bytes → Bytes → FrameCollector
stored s i p bitmap = record s { frame_data = put i p s.frame_data; bitmap = bitmap }

add_frame-stored :
    (s : FrameCollector) (i : ℕ) (p bitmap : Bytes)
    → s.transaction_in_progress ≡ true
    → set_bitmap s.bitmap i ≡ ok bitmap
    → add_frame s i p ≡ after_bitmap (stored s i p bitmap)
unfolding add_frame add_to_transaction add_with_bitmap
add_frame-stored s i p bitmap r e =
    then_branch s.transaction_in_progress (add_to_transaction s i p) _ r
    ∙ ap (λ b. add_with_bitmap (record s { frame_data = put i p s.frame_data }) b) e

after_bitmap-more :
    (s : FrameCollector)
    → length s.frame_data ≢ s.expected_frames
    → after_bitmap s ≡ record { collector = s; events = control_events s; raised = none }
unfolding after_bitmap
after_bitmap-more s h =
    else_branch (length s.frame_data == s.expected_frames) (complete s) _
      (differ (length s.frame_data) s.expected_frames h)

after_bitmap-last :
    (s : FrameCollector) (data' : Bytes)
    → length s.frame_data ≡ s.expected_frames
    → join s.frame_data 0 s.expected_frames ≡ ok data'
    → after_bitmap s ≡ complete_with s (ok data')
unfolding after_bitmap complete
after_bitmap-last s data' h e =
    then_branch (length s.frame_data == s.expected_frames) (complete s) _
      ((==_iff (length s.frame_data) s.expected_frames).1 h)
    ∙ ap (complete_with s) e

-- The last event reports the transaction, nothing is raised and nothing is left over.
unfoldable pub IsCompletion : Outcome → Bytes → Type 0
IsCompletion o data' =
    ((before : List Event) × (o.events ≡ before ++ transaction_complete data' ∷ []))
    × (o.raised ≡ none)
    × (o.collector.transaction_in_progress ≡ false)

Waiting-stored :
    (s : FrameCollector) (i : ℕ) (p bitmap : Bytes) (rest : FrameData)
    → Waiting s ((i, p) ∷ rest)
    → find i s.frame_data ≡ none
    → length bitmap ≡ 8
    → Waiting (stored s i p bitmap) rest
Waiting-stored s i p bitmap rest w new e = record {
  runs = w.runs;
  bits = e;
  counts = omega (arith, w.counts, length-put i p s.frame_data new);
  covers = λ j h k. elim (Bool-cases (j == i)) [
    | inl z ↦ λ m. none≢some p (
        sym m
        ∙ ap (λ n. find n (put i p s.frame_data)) ((==_iff j i).0 z)
        ∙ find-put_self i p s.frame_data)
    | inr z ↦ λ m.
        let apart : j ≢ i = λ e. true≢false (sym ((==_iff j i).1 e) ∙ z) in
        w.covers j h (find_other j i p rest z ∙ k)
          (sym (find-put_other i j p s.frame_data apart) ∙ m)
  ];
}

-- What a call leaves, carried along the equation of the call.
after_call :
    (s : FrameCollector) (i : ℕ) (p : Bytes) (rest : FrameData) (this : Outcome) (data' : Bytes)
    → add_frame s i p ≡ this
    → IsCompletion (and_then this.raised this (add_frames this.collector rest)) data'
    → IsCompletion (add_frames s ((i, p) ∷ rest)) data'
unfolding add_frames
after_call s i p rest this data' e h =
    subst (λ o. IsCompletion (and_then o.raised o (add_frames o.collector rest)) data') (sym e) h

add_frames-last :
    (s : FrameCollector) (i : ℕ) (p bitmap : Bytes)
    → s.transaction_in_progress ≡ true
    → set_bitmap s.bitmap i ≡ ok bitmap
    → Waiting (stored s i p bitmap) []
    → (data' : Bytes) × IsCompletion (add_frames s ((i, p) ∷ [])) data'
unfolding IsCompletion complete_with add_frames and_then find
add_frames-last s i p bitmap r e w =
    let st = stored s i p bitmap in
    let (data', joined) =
      join_ok st.frame_data 0 st.expected_frames (λ j h. w.covers j (omega arith) refl) in
    let call =
      add_frame-stored s i p bitmap r e
      ∙ after_bitmap-last st data' (omega (arith, w.counts)) joined in
    (
      data',
      after_call s i p [] (complete_with st (ok data')) data' call (
        (control_events st, append_assoc (control_events st) (transaction_complete data' ∷ []) []),
        refl,
        refl,
      ),
    )

add_frames-more :
    (s : FrameCollector) (i : ℕ) (p bitmap : Bytes) (rest : FrameData) (data' : Bytes)
    → s.transaction_in_progress ≡ true
    → set_bitmap s.bitmap i ≡ ok bitmap
    → length (put i p s.frame_data) ≢ s.expected_frames
    → IsCompletion (add_frames (stored s i p bitmap) rest) data'
    → IsCompletion (add_frames s ((i, p) ∷ rest)) data'
unfolding IsCompletion and_then
add_frames-more s i p bitmap rest data' r e unfinished ((before, h), none_raised, ended) =
    let st = stored s i p bitmap in
    after_call s i p rest (record { collector = st; events = control_events st; raised = none })
      data' (add_frame-stored s i p bitmap r e ∙ after_bitmap-more st unfinished)
      (
        (
          control_events st ++ before,
          ap (λ es. control_events st ++ es) h
              ∙ sym (append_assoc (control_events st) before (transaction_complete data' ∷ [])),
        ),
        none_raised,
        ended,
      )

add_frames-Waiting :
    (s : FrameCollector) (i : ℕ) (p : Bytes) (rest : FrameData)
    → Waiting s ((i, p) ∷ rest)
    → IsDistinct ((i, p) ∷ rest)
    → All (IsNew s.frame_data) ((i, p) ∷ rest)
    → (data' : Bytes) × IsCompletion (add_frames s ((i, p) ∷ rest)) data'
unfolding IsDistinct IsNew
add_frames-Waiting s i p [] w d ((small, new), h) =
    let (bitmap, e, l) = set_bitmap_ok s.bitmap i (omega (arith, w.bits)) in
    add_frames-last s i p bitmap w.runs e (Waiting-stored s i p bitmap [] w new (l ∙ w.bits))
add_frames-Waiting s i p ((j, q) ∷ rest) w (fresh, d) ((small, new), h) =
    let (bitmap, e, l) = set_bitmap_ok s.bitmap i (omega (arith, w.bits)) in
    let later = Waiting-stored s i p bitmap ((j, q) ∷ rest) w new (l ∙ w.bits) in
    let (data', done) =
      add_frames-Waiting (stored s i p bitmap) j q rest later d
        (IsNew-put s.frame_data ((j, q) ∷ rest) i p fresh h) in
    (
      data',
      add_frames-more s i p bitmap ((j, q) ∷ rest) data' w.runs e
          (λ k. absurd (omega (arith, k, later.counts))) done,
    )

get_elem?-lt :
    (frames : List Bytes) (i : ℕ) (p : Bytes) → get_elem? frames i ≡ some p → i < length frames
get_elem?-lt [] i p e = absurd (none≢some p e)
get_elem?-lt (f ∷ frames) zero p e = omega arith
get_elem?-lt (f ∷ frames) (suc i) p e = omega (arith, get_elem?-lt frames i p e)

frames-IsNew :
    (frames : List Bytes) (arrivals : FrameData)
    → length frames ≤ 64
    → All (IsFrameOf frames) arrivals
    → All (IsNew []) arrivals
unfolding IsFrameOf IsNew find
frames-IsNew frames [] l h = tt
frames-IsNew frames ((i, p) ∷ rest) l (e, h) =
    ((omega (arith, get_elem?-lt frames i p e), refl), frames-IsNew frames rest l h)

All-last {ℓ κ} : {A : Type ℓ} (P : A → Type κ) (xs : List A) (x : A) → All P (xs ++ x ∷ []) → P x
All-last P [] x (h, _) = h
All-last P (y ∷ xs) x (_, h) = All-last P xs x h

completed-whole :
    (frames : List Bytes) (o : Outcome) (data' : Bytes)
    → IsSoundOutcome frames o
    → IsCompletion o data'
    → IsCompletion o (concat frames)
unfolding IsSoundOutcome IsCompletion IsReport
completed-whole frames o data' (_, reports) ((before, e), r, t) =
    let whole =
      All-last (IsReport frames) before (transaction_complete data')
        (subst (All (IsReport frames)) e reports) in
    ((before, e ∙ ap (λ d. before ++ transaction_complete d ∷ []) whole), r, t)

abbrev begin : ℕ → FrameCollector
begin n = record {
  frame_data = [];
  bitmap = replicate 8 0;
  expected_frames = n;
  transaction_in_progress = true;
  temp_frame_data = [];
}

begin-IsCompletion :
    (frames : List Bytes) (arrivals : FrameData)
    → 0 < length frames
    → length frames ≤ 64
    → length arrivals ≡ length frames
    → All (IsFrameOf frames) arrivals
    → IsDistinct arrivals
    → ((j : ℕ) → j < length frames → find j arrivals ≢ none)
    → IsCompletion (add_frames (begin (length frames)) arrivals) (concat frames)
unfolding IsSound
begin-IsCompletion frames [] h few same a d all_there = absurd (omega arith)
begin-IsCompletion frames ((i, p) ∷ rest) h few same a d all_there =
    let waits : Waiting (begin (length frames)) ((i, p) ∷ rest) = record {
      runs = refl;
      bits = refl;
      counts = omega (arith, same);
      covers = λ j k m. absurd (all_there j k m);
    } in
    let (data', done) =
      add_frames-Waiting (begin (length frames)) i p rest waits d
        (frames-IsNew frames ((i, p) ∷ rest) few a) in
    completed-whole frames (add_frames (begin (length frames)) ((i, p) ∷ rest)) data'
      (add_frames-IsSound frames ((i, p) ∷ rest) (begin (length frames)) a (tt, tt, refl)) done

start_transaction-begin :
    (s : FrameCollector) (n : ℕ)
    → s.temp_frame_data ≡ []
    → (start_transaction s n).collector ≡ begin n
unfolding start_transaction add_frames
start_transaction-begin s n t = ap (λ pending. (add_frames (begin n) pending).collector) t

-- If each of the 1 to 64 frames of a message arrives exactly once, in any order, after a transaction
-- of so many frames has started with no frame buffered, then nothing is raised, the transaction
-- ends, and the last event reports the whole message.
pub start_transaction-IsCompletion :
    (frames : List Bytes) (s : FrameCollector) (arrivals : FrameData)
    → s.temp_frame_data ≡ []
    → 0 < length frames
    → length frames ≤ 64
    → length arrivals ≡ length frames
    → All (IsFrameOf frames) arrivals
    → IsDistinct arrivals
    → ((j : ℕ) → j < length frames → find j arrivals ≢ none)
    → IsCompletion
        (add_frames (start_transaction s (length frames)).collector arrivals)
        (concat frames)
start_transaction-IsCompletion frames s arrivals t some_frame few same are_frames distinct
      all_there =
    subst (λ c. IsCompletion (add_frames c arrivals) (concat frames))
      (sym (start_transaction-begin s (length frames) t))
      (begin-IsCompletion frames arrivals some_frame few same are_frames distinct all_there)
