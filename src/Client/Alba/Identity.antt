-- ===== src/Client/Alba/Identity.antt =====
-- AlbaBaseClient.py, the identification. The library's `strftime` on a number of seconds is the parameter
-- `utc_date`, which may raise.
use geberit_aquaclean.Prelude.{
  ℕ, zero, suc, ◌≡◌, refl, ap, ◌∙◌, Option, none, some, List, [], ◌∷◌, map, Result, ok,
}
use geberit_aquaclean.Prelude.Bytes.{Bytes}
use geberit_aquaclean.Prelude.Int.{ℤ, pos, negsuc}
use geberit_aquaclean.Api.Text.{Text, text_of}
use geberit_aquaclean.Api.Identity.{DeviceIdentification}
use geberit_aquaclean.Ble20.Client.{Ble20, Io, and_run, ◌>>=◌, ret, pure}
use geberit_aquaclean.Ble20.Inventory.{Inventory}
use geberit_aquaclean.Ble20.Requests.Asked.{Sends, Answers, and_run-sent}
use geberit_aquaclean.Ble20.Identification.{Ble20DeviceIdentification, get_device_identification}
use geberit_aquaclean.Ble20.Identification.Whole.{request, get_device_identification-Answers}
use geberit_aquaclean.Client.Names.{get_full_name}

abbrev pub or_empty : Option Text → Text
or_empty none = []
or_empty (some text) = text

-- `di.name or "Geberit AquaClean Alba"`
abbrev pub name_or_model : Option Text → Text
name_or_model none = text_of "Geberit AquaClean Alba"
name_or_model (some []) = text_of "Geberit AquaClean Alba"
name_or_model (some (c ∷ name)) = c ∷ name

unfoldable pub described : Option ℕ → Option ℕ → Option Text → Text
unfolding get_full_name
described (some series) (some variant) name = get_full_name series variant
described none variant name = name_or_model name
described (some series) none name = name_or_model name

-- `strftime(...) if ts else ""`
unfoldable pub production_date_of : (ℤ → Result Text) → Option ℤ → Result Text
production_date_of utc_date none = ok []
production_date_of utc_date (some (pos zero)) = ok []
production_date_of utc_date (some (pos (suc n))) = utc_date (pos (suc n))
production_date_of utc_date (some (negsuc n)) = utc_date (negsuc n)

unfoldable pub shown_identification :
    (ℤ → Result Text) → Ble20DeviceIdentification → Io DeviceIdentification
unfolding described production_date_of
shown_identification utc_date di = do
  prod_date ← pure (production_date_of utc_date di.device_production_date)
  ret (record {
    sap_number = or_empty di.sales_product_sap_number;
    serial_number = or_empty di.sales_product_serial_number;
    production_date = prod_date;
    description = described di.device_series di.device_variant di.name;
  })

unfoldable pub get_device_identification_async :
    (ℤ → Result Text) → Inventory → Io DeviceIdentification
unfolding shown_identification
get_device_identification_async utc_date inv = do
  di ← get_device_identification (some inv)
  shown_identification utc_date di

-- What shows the answers sends nothing.
then-Sends :
    {A B : Type 0} (m : Io A) (f : A → Io B) (requests : List Bytes)
    → Answers m requests
    → ((a : A) (c : Ble20) → (f a c).1.sent ≡ c.sent)
    → Sends (m >>= f) requests
then-Sends m f requests h silent c =
    let (a, c', e, s) = h c in ap (λ r. (and_run r f).1.sent) e ∙ silent a c' ∙ s

shown_identification-sent :
    (utc_date : ℤ → Result Text) (di : Ble20DeviceIdentification) (c : Ble20)
    → (shown_identification utc_date di c).1.sent ≡ c.sent
unfolding shown_identification
shown_identification-sent utc_date di c =
    and_run-sent (production_date_of utc_date di.device_production_date, c) _ c refl
      (λ _. λ c'. refl)

-- Whatever the device answers, and whether or not the date can be shown, the identification of an Alba
-- sends the thirteen requests, in this order and no others.
pub get_device_identification_async-Sends :
    (utc_date : ℤ → Result Text) (inv : Inventory)
    → Sends
        (get_device_identification_async utc_date inv)
        (map request (16 ∷ 0 ∷ 1 ∷ 3 ∷ 2 ∷ 4 ∷ 8 ∷ 9 ∷ 304 ∷ 236 ∷ 337 ∷ 371 ∷ 369 ∷ []))
unfolding get_device_identification_async
get_device_identification_async-Sends utc_date inv =
    then-Sends (get_device_identification (some inv)) (shown_identification utc_date) _
      (get_device_identification-Answers (some inv)) (shown_identification-sent utc_date)
