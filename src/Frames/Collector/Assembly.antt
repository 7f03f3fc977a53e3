-- ===== src/Frames/Collector/Assembly.antt =====
-- Messages put together again from frames that come in any order and more than once.
use geberit_aquaclean.Prelude.{
  ℕ, zero, suc, ◌+◌, ◌≡◌, refl, sym, ap, ◌∙◌, Bool, true, false, Bool-cases, Option-cases, inl, inr,
  Option, none, some, List, [], ◌∷◌, ◌++◌, All, All-append, arith, ◌==◌, ◌||◌, ◌%◌, ◌≢◌, Error,
  replicate, ==_iff, if◌then◌else◌, length, get_elem?, drop, drop_all, Result, ok, err, ◌>>=◌,
  key_error,
}
use geberit_aquaclean.Prelude.Bytes.{Bytes}
use geberit_aquaclean.Frames.Collector.{
  FrameData, find, put, FrameCollector, Event, send_control_frame, transaction_complete, Outcome,
  set_bitmap, join, control_events, complete_with, complete, add_with_bitmap, and_then,
  after_bitmap, add_to_transaction, add_frame, add_frames, start_transaction,
}

unfoldable pub concat : List Bytes → Bytes
concat [] = []
concat (p ∷ rest) = p ++ concat rest

-- A numbered payload is the message's frame of that number.
unfoldable pub IsFrameOf : List Bytes → ℕ × Bytes → Type 0
IsFrameOf frames (i, p) = get_elem? frames i ≡ some p

-- A completed transaction carries the whole message.
unfoldable pub IsReport : List Bytes → Event → Type 0
IsReport frames (send_control_frame bitmap) = Unit
IsReport frames (transaction_complete data') = data' ≡ concat frames

drop-get_elem? :
    (frames : List Bytes) (i : ℕ) (p : Bytes)
    → get_elem? frames i ≡ some p
    → drop i frames ≡ p ∷ drop (suc i) frames
drop-get_elem? [] i p e = absurd (cc)
drop-get_elem? (f ∷ frames) zero p e = cc
drop-get_elem? (f ∷ frames) (suc i) p e = drop-get_elem? frames i p e

put-IsFrameOf :
    (frames : List Bytes) (i : ℕ) (p : Bytes) (fd : FrameData)
    → get_elem? frames i ≡ some p
    → All (IsFrameOf frames) fd
    → All (IsFrameOf frames) (put i p fd)
unfolding put IsFrameOf
put-IsFrameOf frames i p [] e h = (e, tt)
put-IsFrameOf frames i p ((j, q) ∷ rest) e (k, h) =
    let later = put-IsFrameOf frames i p rest e h in
    elim (Bool-cases (i == j)) [ inl z ↦ rw (z) (e, h) | inr z ↦ rw (z) (k, later) ]

pub find_same :
    (i j : ℕ) (q : Bytes) (rest : FrameData) → (i == j) ≡ true → find i ((j, q) ∷ rest) ≡ some q
unfolding find
find_same i j q rest z = rw z refl

pub find_other :
    (i j : ℕ) (q : Bytes) (rest : FrameData)
    → (i == j) ≡ false
    → find i ((j, q) ∷ rest) ≡ find i rest
unfolding find
find_other i j q rest z = rw z refl

find-IsFrameOf :
    (frames : List Bytes) (i : ℕ) (p : Bytes) (fd : FrameData)
    → All (IsFrameOf frames) fd
    → find i fd ≡ some p
    → get_elem? frames i ≡ some p
unfolding find IsFrameOf
find-IsFrameOf frames i p [] h e = absurd cc
find-IsFrameOf frames i p ((j, q) ∷ rest) (k, h) e = elim (Bool-cases (i == j)) [
  | inl z ↦ ap (get_elem? frames) ((==_iff i j).0 z) ∙ k ∙ (sym (find_same i j q rest z) ∙ e)
  | inr z ↦ find-IsFrameOf frames i p rest h (sym (find_other i j q rest z) ∙ e)
]

join_found :
    (fd : FrameData) (i n : ℕ) (p : Bytes)
    → find i fd ≡ some p
    → join fd i (suc n) ≡ (join fd (suc i) n >>= λ rest. ok (p ++ rest))
unfolding join
join_found fd i n p e = rw (e) refl

join_missing : (fd : FrameData) (i n : ℕ) → find i fd ≡ none → join fd i (suc n) ≡ err key_error
unfolding join
join_missing fd i n e = rw (e) refl

ok_injective : (a b : Bytes) → ok a ≡ ok b → a ≡ b
ok_injective a b e = cc

err≢ok : (x : Error) (b : Bytes) → err x ≢ ok b
err≢ok x b e = absurd cc

extended :
    (p : Bytes) (r : Result Bytes) (data' : Bytes)
    → (r >>= λ rest. ok (p ++ rest)) ≡ ok data'
    → (rest : Bytes) × (r ≡ ok rest) × (p ++ rest ≡ data')
extended p (ok rest) data' e = (rest, refl, cc)
extended p (err x) data' e = absurd cc

-- What is joined from the right frames is the rest of the message.
join-concat :
    (frames : List Bytes) (fd : FrameData) (n i : ℕ) (data' : Bytes)
    → All (IsFrameOf frames) fd
    → n + i ≡ length frames
    → join fd i n ≡ ok data'
    → data' ≡ concat (drop i frames)
unfolding join concat
join-concat frames fd zero i data' h l e =
    sym (ok_injective [] data' e) ∙ sym (ap concat (drop_all i frames (omega arith)))
join-concat frames fd (suc n) i data' h l e = elim (Option-cases (find i fd)) [
  | inl z ↦ absurd (err≢ok key_error data' (sym (join_missing fd i n z) ∙ e))
  | inr (p, z) ↦
      let (rest, found, whole) =
        extended p (join fd (suc i) n) data' (sym (join_found fd i n p z) ∙ e) in
      let later = join-concat frames fd n (suc i) rest h (omega arith) found in
      sym whole
      ∙ ap (λ r. p ++ r) later
      ∙ sym (ap concat (drop-get_elem? frames i p (find-IsFrameOf frames i p fd h z)))
]

-- The collector holds nothing but frames of one message, of which it expects all.
unfoldable pub IsSound : List Bytes → FrameCollector → Type 0
IsSound frames s =
    All (IsFrameOf frames) s.frame_data
    × All (IsFrameOf frames) s.temp_frame_data
    × (s.expected_frames ≡ length frames)

unfoldable pub IsSoundOutcome : List Bytes → Outcome → Type 0
IsSoundOutcome frames o = IsSound frames o.collector × All (IsReport frames) o.events

-- A property of both branches is one of the conditional.
either_branch {ℓ κ} :
    {A : Type ℓ} (P : A → Type κ) (b : Bool) (x y : A) → P x → P y → P (if b then x else y)
either_branch P true x y px py = px
either_branch P false x y px py = py

control_events-IsReport :
    (frames : List Bytes) (s : FrameCollector) → All (IsReport frames) (control_events s)
unfolding control_events IsReport
control_events-IsReport frames s =
    either_branch (All (IsReport frames))
      (length s.frame_data % 4 == 0 || length s.frame_data == s.expected_frames)
      (send_control_frame s.bitmap ∷ []) [] (tt, tt) tt

complete_with-IsSound :
    (frames : List Bytes) (s : FrameCollector) (r : Result Bytes)
    → IsSound frames s
    → ((data' : Bytes) → r ≡ ok data' → data' ≡ concat frames)
    → IsSoundOutcome frames (complete_with s r)
unfolding complete_with IsSound IsSoundOutcome IsReport
complete_with-IsSound frames s (err e) h whole = (h, tt)
complete_with-IsSound frames s (ok data') (h, _, l) whole = (
  (h, tt, l),
  All-append (IsReport frames) (control_events s) (transaction_complete data' ∷ [])
      (control_events-IsReport frames s) (whole data' refl, tt),
)

complete-IsSound :
    (frames : List Bytes) (s : FrameCollector)
    → IsSound frames s
    → IsSoundOutcome frames (complete s)
unfolding complete IsSound
complete-IsSound frames s (h, t, l) =
    complete_with-IsSound frames s (join s.frame_data 0 s.expected_frames) (h, t, l)
      (λ data' e. join-concat frames s.frame_data s.expected_frames 0 data' h (omega arith) e)

after_bitmap-IsSound :
    (frames : List Bytes) (s : FrameCollector)
    → IsSound frames s
    → IsSoundOutcome frames (after_bitmap s)
unfolding after_bitmap IsSoundOutcome
after_bitmap-IsSound frames s h =
    either_branch (IsSoundOutcome frames) (length s.frame_data == s.expected_frames) (complete s)
      (record { collector = s; events = control_events s; raised = none })
      (complete-IsSound frames s h) (h, control_events-IsReport frames s)

add_with_bitmap-IsSound :
    (frames : List Bytes) (s : FrameCollector) (r : Result Bytes)
    → IsSound frames s
    → IsSoundOutcome frames (add_with_bitmap s r)
unfolding add_with_bitmap IsSound IsSoundOutcome
add_with_bitmap-IsSound frames s (err e) h = (h, tt)
add_with_bitmap-IsSound frames s (ok bitmap) h =
    after_bitmap-IsSound frames (record s { bitmap = bitmap }) h

add_frame-IsSound :
    (frames : List Bytes) (s : FrameCollector) (i : ℕ) (p : Bytes)
    → get_elem? frames i ≡ some p
    → IsSound frames s
    → IsSoundOutcome frames (add_frame s i p)
unfolding add_frame add_to_transaction IsSound IsSoundOutcome
add_frame-IsSound frames s i p e (h, t, l) =
    either_branch (IsSoundOutcome frames) s.transaction_in_progress (add_to_transaction s i p)
      (record {
        collector = record s { temp_frame_data = put i p s.temp_frame_data };
        events = [];
        raised = none;
      })
      (add_with_bitmap-IsSound frames (record s { frame_data = put i p s.frame_data })
        (set_bitmap s.bitmap i) (put-IsFrameOf frames i p s.frame_data e h, t, l))
      ((h, put-IsFrameOf frames i p s.temp_frame_data e t, l), tt)

and_then-IsSound :
    (frames : List Bytes) (raised : Option Error) (this later : Outcome)
    → IsSoundOutcome frames this
    → IsSoundOutcome frames later
    → IsSoundOutcome frames (and_then raised this later)
unfolding and_then IsSoundOutcome
and_then-IsSound frames (some x) this later h k = h
and_then-IsSound frames none this later (h, e) (k, f) =
    (k, All-append (IsReport frames) this.events later.events e f)

pub add_frames-IsSound :
    (frames : List Bytes) (arrivals : FrameData) (s : FrameCollector)
    → All (IsFrameOf frames) arrivals
    → IsSound frames s
    → IsSoundOutcome frames (add_frames s arrivals)
unfolding add_frames IsSoundOutcome IsFrameOf
add_frames-IsSound frames [] s a h = (h, tt)
add_frames-IsSound frames ((i, p) ∷ rest) s (e, a) h =
    let this = add_frame s i p in
    let first = add_frame-IsSound frames s i p e h in
    and_then-IsSound frames this.raised this (add_frames this.collector rest) first
      (add_frames-IsSound frames rest this.collector a first.0)

-- Whatever frames of a message arrive, before the transaction starts and after it, in any order and
-- more than once, a transaction is reported complete with that whole message and with nothing else.
pub start_transaction-IsReport :
    (frames : List Bytes) (s : FrameCollector) (arrivals : FrameData)
    → All (IsFrameOf frames) s.temp_frame_data
    → All (IsFrameOf frames) arrivals
    → All (IsReport frames) (start_transaction s (length frames)).events
      × All
          (IsReport frames)
          (add_frames (start_transaction s (length frames)).collector arrivals).events
unfolding start_transaction IsSound IsSoundOutcome
start_transaction-IsReport frames s arrivals t a =
    let started =
      add_frames-IsSound frames s.temp_frame_data
        (record {
          frame_data = [];
          bitmap = replicate 8 0;
          expected_frames = length frames;
          transaction_in_progress = true;
          temp_frame_data = [];
        })
        t (tt, tt, refl) in
    (
      started.1,
      (add_frames-IsSound frames arrivals (start_transaction s (length frames)).collector a
          started.0).1,
    )
