-- ===== src/Frames/Collector.antt =====
-- FrameCollector.py. What the lock protects runs as one step. The events it fires afterwards are
-- returned in the order in which they fire, with what was raised, if anything was.
pub mod Assembly
pub mod Stored
pub mod Arrival
use geberit_aquaclean.Prelude.{
  ℕ, zero, suc, ◌+◌, ◌/◌, ◌%◌, bit_or, Bool, true, false, ◌||◌, Option, none, some, List, [], ◌∷◌,
  ◌++◌, ◌==◌, if◌then◌else◌, length, replicate, set, Error, Result, ok, err, ◌>>=◌, key_error,
  require,
}
use geberit_aquaclean.Prelude.Bits.{◌<<<◌}
use geberit_aquaclean.Prelude.Bytes.{Bytes, at}

-- A dict from frame numbers to payloads, in the order of the first insertions.
abbrev pub FrameData : Type 0
FrameData = List (ℕ × Bytes)

-- frame_data[i]
unfoldable pub find : ℕ → FrameData → Option Bytes
find i [] = none
find i ((j, p) ∷ rest) = if i == j then some p else find i rest

-- frame_data[i] = p
unfoldable pub put : ℕ → Bytes → FrameData → FrameData
put i p [] = (i, p) ∷ []
put i p ((j, q) ∷ rest) =
    let later = put i p rest in if i == j then (i, p) ∷ rest else (j, q) ∷ later

pub record FrameCollector : Type 0 where
  pub frame_data : FrameData
  pub bitmap : Bytes
  pub expected_frames : ℕ
  pub transaction_in_progress : Bool
  pub temp_frame_data : FrameData

abbrev pub empty_collector : FrameCollector
empty_collector = record {
  frame_data = [];
  bitmap = [];
  expected_frames = 0;
  transaction_in_progress = false;
  temp_frame_data = [];
}

pub data Event : Type 0 where
  send_control_frame : Bytes → Event
  transaction_complete : Bytes → Event

-- The state after a call, the events fired, and the exception that ended it.
pub record Outcome : Type 0 where
  pub collector : FrameCollector
  pub events : List Event
  pub raised : Option Error

unfoldable pub set_bitmap : Bytes → ℕ → Result Bytes
set_bitmap bitmap frame_number = do
  let var3 = frame_number / 8
  let mask = 1 <<< (frame_number % 8)
  b ← at bitmap var3
  ok (set bitmap var3 (bit_or b mask))

-- `for i in range(n): data.extend(frame_data[i])`, from `i` on.
unfoldable pub join : FrameData → ℕ → ℕ → Result Bytes
join frame_data i zero = ok []
join frame_data i (suc n) = do
  p ← require (find i frame_data) key_error
  rest ← join frame_data (suc i) n
  ok (p ++ rest)

unfoldable pub control_events : FrameCollector → List Event
control_events s =
    let count = length s.frame_data in
    if count % 4 == 0 || count == s.expected_frames then send_control_frame s.bitmap ∷ [] else []

-- With `data` joined, or with the KeyError of a frame that is missing.
unfoldable pub complete_with : FrameCollector → Result Bytes → Outcome
unfolding control_events
complete_with s (err e) = record { collector = s; events = []; raised = some e }
complete_with s (ok data') = record {
  collector = record s { transaction_in_progress = false; temp_frame_data = [] };
  events = control_events s ++ transaction_complete data' ∷ [];
  raised = none;
}

unfoldable pub complete : FrameCollector → Outcome
unfolding complete_with join
complete s = complete_with s (join s.frame_data 0 s.expected_frames)

unfoldable pub after_bitmap : FrameCollector → Outcome
unfolding complete control_events
after_bitmap s =
    if length s.frame_data == s.expected_frames
    then complete s
    else record { collector = s; events = control_events s; raised = none }

unfoldable pub add_with_bitmap : FrameCollector → Result Bytes → Outcome
unfolding after_bitmap
add_with_bitmap s (err e) = record { collector = s; events = []; raised = some e }
add_with_bitmap s (ok bitmap) = after_bitmap (record s { bitmap = bitmap })

unfoldable pub add_to_transaction : FrameCollector → ℕ → Bytes → Outcome
unfolding add_with_bitmap set_bitmap put
add_to_transaction s frame_index payload =
    add_with_bitmap (record s { frame_data = put frame_index payload s.frame_data })
      (set_bitmap s.bitmap frame_index)

unfoldable pub add_frame : FrameCollector → ℕ → Bytes → Outcome
unfolding add_to_transaction put
add_frame s frame_index payload =
    if s.transaction_in_progress then add_to_transaction s frame_index payload else record {
      collector = record s { temp_frame_data = put frame_index payload s.temp_frame_data };
      events = [];
      raised = none;
    }

-- What follows a call happens unless the call raised.
unfoldable pub and_then : Option Error → Outcome → Outcome → Outcome
and_then (some e) this later = this
and_then none this later = record later { events = this.events ++ later.events }

-- Frames added one after the other.
unfoldable pub add_frames : FrameCollector → FrameData → Outcome
unfolding and_then
add_frames s [] = record { collector = s; events = []; raised = none }
add_frames s ((i, p) ∷ rest) =
    let this = add_frame s i p in and_then this.raised this (add_frames this.collector rest)

-- `start_transaction`, which adds the frames that came before it.
unfoldable pub start_transaction : FrameCollector → ℕ → Outcome
unfolding add_frames
start_transaction s expected_frames =
    add_frames
      (record {
        frame_data = [];
        bitmap = replicate 8 0;
        expected_frames = expected_frames;
        transaction_in_progress = true;
        temp_frame_data = [];
      })
      s.temp_frame_data
