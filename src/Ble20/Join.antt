-- ===== src/Ble20/Join.antt =====
-- Ble20Client.py, `join`: registration of the bridge at the device, with a PIN where it asks for one.
--
-- How long the wait for the progress lasts is not modelled: `patience` is the number of
-- notifications that come before the deadline. The texts of the exceptions are left out. A timeout of
-- `write` is an OSError since Python 3.11, and is caught as one.
pub mod Payload
use geberit_aquaclean.Prelude.{
  ℕ, zero, suc, ◌+◌, ◌-◌, ◌/◌, ◌%◌, bit_and, Bool, false, ◌&&◌, ◌||◌, Option, none, some, [], ◌∷◌,
  ◌++◌, ◌==◌, ltb, leb, if◌then◌else◌, length, take, drop, replicate, get_or, Result, ok, err,
  timeout_error, io_error,
}
use geberit_aquaclean.Prelude.Bytes.{Bytes, at, slice, from_le, to_le4}
use geberit_aquaclean.Prelude.Dict.{lookup}
use geberit_aquaclean.Ble20.Client.{Ble20, Io, and_run, ◌>>=◌, ◌>>◌, ret, raise, pure}
use geberit_aquaclean.Ble20.Inventory.{Inventory}
use geberit_aquaclean.Ble20.Requests.{
  read, write, enable_notification, get_notification, optional, caught, or_timeout, timed_out,
}

abbrev pub dp_join_device : ℕ
dp_join_device = 543

abbrev pub dp_join_device_progress : ℕ
dp_join_device_progress = 545

abbrev pub dp_join_device_error : ℕ
dp_join_device_error = 546

abbrev pub dp_device_series : ℕ
dp_device_series = 0

abbrev pub dp_device_variant : ℕ
dp_device_variant = 1

abbrev pub dp_unique_device_number : ℕ
dp_unique_device_number = 236

pub record Identifiers : Type 0 where
  pub series : ℕ
  pub variant : ℕ
  pub unique_id : ℕ

-- The three reads before the request.
unfoldable pub read_identifiers : Io Identifiers
read_identifiers = do
  series_raw ← read dp_device_series none
  series ← pure (at series_raw 0)
  variant_raw ← read dp_device_variant none
  variant ← pure (at variant_raw 0)
  unique_raw ← read dp_unique_device_number none
  let unique_id = if leb 4 (length unique_raw) then from_le (slice 0 4 unique_raw) else 0
  ret (record { series = series; variant = variant; unique_id = unique_id })

-- The four or five bytes behind the identifiers: the start of the PIN, in UTF-8, and zeros.
unfoldable pub secret_field : ℕ → Option Bytes → Bytes
secret_field size none = replicate size 0
secret_field size (some encoded) =
    take 4 encoded ++ drop (length (take 4 encoded)) (replicate size 0)

-- `_build`.
unfoldable pub build : ℕ → Identifiers → Option Bytes → Bytes
unfolding secret_field to_le4
build join_version d pairing_secret =
    d.series
    ∷ d.variant
    ∷ (to_le4 d.unique_id
        ++ (if join_version == 0
            then []
            else secret_field (if leb 2 join_version then 5 else 4) pairing_secret))

-- The wait for a progress of 3 or 4, and the last progress that came.
unfoldable pub progress_loop : ℕ → ℕ → Io ℕ
progress_loop zero progress c = ret progress c
progress_loop (suc patience) progress c =
    let rest = progress_loop patience in
    and_run (get_notification dp_join_device_progress c) (λ raw.
      let progress' = get_or raw 0 0xff in
      if progress' == 3 || progress' == 4 then ret progress' else rest progress')

-- `except asyncio.TimeoutError: raise IOError(...)`
unfoldable pub timeout_is_io_error : {A : Type 0} → Result A × Ble20 → Result A × Ble20
timeout_is_io_error (err timeout_error, c) = (err io_error, c)
timeout_is_io_error (err e, c) = (err e, c)
timeout_is_io_error (ok a, c) = (ok a, c)

-- `except IOError as e`, which goes on.
unfoldable pub ignore_io_error : Result (Unit {0}) × Ble20 → Result (Unit {0}) × Ble20
ignore_io_error (err io_error, c) = (ok tt, c)
ignore_io_error (err timeout_error, c) = (ok tt, c)
ignore_io_error (err e, c) = (err e, c)
ignore_io_error (ok a, c) = (ok a, c)

-- One attempt: the progress that ended it, and the error bits where it failed.
unfoldable pub attempt : ℕ → ℕ → Identifiers → Option Bytes → Io (ℕ × ℕ)
unfolding build progress_loop timeout_is_io_error ignore_io_error timed_out
attempt patience join_version d secret = do
  (λ c. ignore_io_error (write dp_join_device (build join_version d secret) none c))
  progress ← (λ c. timeout_is_io_error (progress_loop patience 0 c))
  if progress == 3 then ret (progress, 0) else (do
    err_raw ← or_timeout [] (get_notification dp_join_device_error)
    ret (progress, get_or err_raw 0 0))

pub data Joined : Type 0 where
  done : Joined
  skipped : Joined

-- Whether the device is Protected and there is a PIN to try.
unfoldable pub asks_for_pin : ℕ → Option Bytes → Bool
asks_for_pin error_bits none = false
asks_for_pin error_bits (some pin) = ltb 0 (bit_and error_bits 0x02)

-- `for attempt in range(2)`. The second attempt never goes on to a third.
unfoldable pub attempts : ℕ → ℕ → Identifiers → Option Bytes → Io Joined
unfolding attempt asks_for_pin
attempts patience join_version d pin = do
  (progress, error_bits) ← attempt patience join_version d none
  if progress == 3
      then ret done
      else if asks_for_pin error_bits pin
      then (do
        (progress', _) ← attempt patience join_version d pin
        if progress' == 3 then ret done else raise io_error)
      else raise io_error

-- What follows the reads, if they succeeded.
unfoldable pub join_with : ℕ → ℕ → Option Bytes → Option Identifiers → Io Joined
unfolding attempts
join_with patience join_version pin none = ret skipped
join_with patience join_version pin (some d) = do
  enable_notification (dp_join_device_progress ∷ dp_join_device_error ∷ [])
  attempts patience join_version d pin

-- The version of the request, and none where the device's inventory lacks it.
unfoldable pub join_version_of : Option Inventory → Option ℕ
join_version_of none = some 1
join_version_of (some inv) = elim (lookup dp_join_device inv) [
  | none ↦ none
  | some entry ↦ some entry.version
]

unfoldable pub join_by : ℕ → Option Bytes → Option ℕ → Io Joined
unfolding read_identifiers caught join_with
join_by patience pin none = ret skipped
join_by patience pin (some join_version) = do
  found ← optional read_identifiers
  join_with patience join_version pin found

unfoldable pub join : ℕ → Option Bytes → Option Inventory → Io Joined
unfolding join_version_of join_by
join patience pin inv = join_by patience pin (join_version_of inv)
