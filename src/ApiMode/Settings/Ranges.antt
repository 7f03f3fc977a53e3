-- ===== src/ApiMode/Settings/Ranges.antt =====
-- The ranges of the settings, and what is written to the device.
use geberit_aquaclean.Prelude.{
  ℕ, ◌≤◌, ◌≡◌, refl, Bool, true, false, Option, none, some, List, [], ◌∷◌, ◌++◌, ◌⊎◌, All,
  All-append, ltb, ◌==◌, ◌||◌, if◌then◌else◌, ap, sym, subst, not, Result, ok, err, arith,
}
use geberit_aquaclean.Prelude.Int.{ℤ, pos, negsuc}
use geberit_aquaclean.Prelude.Dict.{lookup}
use geberit_aquaclean.Client.Device.{is_profile_setting}
use geberit_aquaclean.ApiMode.Settings.{
  Range, Response, as_nat, in_range, lacks_client, common_setting_ranges, Write, profile_write,
  common_write, ApiState, Request, profile_request, common_request, profile_range, keep_profile,
  keep_common, http_error, common_tested, set_profile_setting, set_common_setting, serve, serve_all,
}

-- The greatest value of a profile setting.
abbrev pub profile_most : ℕ → ℕ
profile_most sid =
    if ltb sid 2 || sid == 9 then 1 else if ltb sid 6 then 4 else if ltb sid 9 then 5 else 65535

abbrev pub common_most : ℕ → ℕ
common_most sid = if sid == 0 then 1 else if sid == 1 then 4 else if sid == 2 then 2 else 6

unfoldable pub IsAllowed : Write → Type 0
IsAllowed (profile_write sid value) = ((sid ≤ 10) ⊎ (sid ≡ 13)) × (value ≤ profile_most sid)
IsAllowed (common_write sid value) = (sid ≤ 3) × (value ≤ common_most sid)

profile_range_lem : (sid : ℕ) → (profile_range sid).high ≡ profile_most sid
unfolding profile_range lookup
profile_range_lem sid = ground arith

keep_profile-written :
    (sid value : ℕ) (answer : Result (Unit {0})) (s : ApiState)
    → (keep_profile sid value answer s).1.written ≡ s.written
unfolding keep_profile
keep_profile-written sid value (err e) s = refl
keep_profile-written sid value (ok u) s = refl

keep_common-written :
    (sid value : ℕ) (answer : Result (Unit {0})) (s : ApiState)
    → (keep_common sid value answer s).1.written ≡ s.written
unfolding keep_common
keep_common-written sid value (err e) s = refl
keep_common-written sid value (ok u) s = refl

-- Three tests in a row, of which the first two allow what is written behind them.
guarded :
    (valid fits lacks : Bool) (invalid unfit lacking : Response) (s : ApiState)
    (kept : Response × ApiState)
    → All IsAllowed s.written
    → (valid ≡ true → fits ≡ true → All IsAllowed kept.1.written)
    → All IsAllowed
        (if not valid
          then (invalid, s)
          else if not fits
          then (unfit, s)
          else if lacks
          then (lacking, s)
          else kept).1.written
guarded false fits lacks a b c s kept h k = h
guarded true false lacks a b c s kept h k = h
guarded true true true a b c s kept h k = h
guarded true true false a b c s kept h k = k refl refl

profile-IsAllowed :
    (sid : ℕ) (value : ℤ)
    → is_profile_setting sid ≡ true
    → in_range (profile_range sid) value ≡ true
    → IsAllowed (profile_write sid (as_nat value))
unfolding IsAllowed
profile-IsAllowed sid (pos n) valid fits = let e = profile_range_lem sid in ground arith
profile-IsAllowed sid (negsuc n) valid fits = cc

common-IsAllowed :
    (sid : ℕ) (rng : Range) (value : ℤ)
    → lookup sid common_setting_ranges ≡ some rng
    → in_range rng value ≡ true
    → IsAllowed (common_write sid (as_nat value))
unfolding IsAllowed lookup
common-IsAllowed sid rng (pos n) found fits = ground arith
common-IsAllowed sid rng (negsuc n) found fits = cc

set_profile_setting-IsAllowed :
    (sid : ℕ) (value : ℤ) (answer : Result (Unit {0})) (s : ApiState)
    → All IsAllowed s.written
    → All IsAllowed (set_profile_setting (pos sid) value answer s).1.written
unfolding set_profile_setting
set_profile_setting-IsAllowed sid value answer s h =
    let write = profile_write sid (as_nat value) in
    let asked : ApiState = record s { written = s.written ++ write ∷ [] } in
    guarded (is_profile_setting sid) (in_range (profile_range sid) value)
      (lacks_client s.ble_connection s.has_client) _ _ _ s
      (keep_profile sid (as_nat value) answer asked) h
      (λ valid fits.
        subst (All IsAllowed) (sym (keep_profile-written sid (as_nat value) answer asked)) (
          All-append IsAllowed s.written (write ∷ []) h
            (profile-IsAllowed sid value valid fits, tt)))

set_common_setting-IsAllowed :
    (sid : ℕ) (value : ℤ) (answer : Result (Unit {0})) (s : ApiState)
    → All IsAllowed s.written
    → (found : Option Range) → lookup sid common_setting_ranges ≡ found
    → All IsAllowed (set_common_setting (pos sid) value answer s).1.written
unfolding set_common_setting
set_common_setting-IsAllowed sid value answer s h none e =
    subst (All IsAllowed)
      (sym (ap (λ (o : Option Range). (common_tested o sid value answer s).1.written) e)) h
set_common_setting-IsAllowed sid value answer s h (some rng) e =
    let write = common_write sid (as_nat value) in
    let asked : ApiState = record s { written = s.written ++ write ∷ [] } in
    subst (All IsAllowed)
      (sym (ap (λ (o : Option Range). (common_tested o sid value answer s).1.written) e))
      (guarded true (in_range rng value) (lacks_client s.ble_connection s.has_client)
        (http_error 400 4001) _ _ s (keep_common sid (as_nat value) answer asked) h
        (λ valid fits.
          subst (All IsAllowed) (sym (keep_common-written sid (as_nat value) answer asked)) (
            All-append IsAllowed s.written (write ∷ []) h
              (common-IsAllowed sid rng value e fits, tt))))

serve-IsAllowed :
    (r : Request) (s : ApiState) → All IsAllowed s.written → All IsAllowed (serve r s).written
unfolding serve
serve-IsAllowed (profile_request (negsuc n) value answer) s h = unfold set_profile_setting in h
serve-IsAllowed (profile_request (pos sid) value answer) s h =
    set_profile_setting-IsAllowed sid value answer s h
serve-IsAllowed (common_request (negsuc n) value answer) s h = unfold set_common_setting in h
serve-IsAllowed (common_request (pos sid) value answer) s h =
    set_common_setting-IsAllowed sid value answer s h _ refl

-- Whatever requests are served, in whatever order and whatever comes of them, what was asked of the
-- device is allowed.
pub serve_all-IsAllowed :
    (requests : List Request) (s : ApiState)
    → All IsAllowed s.written
    → All IsAllowed (serve_all requests s).written
unfolding serve_all
serve_all-IsAllowed [] s h = h
serve_all-IsAllowed (r ∷ requests) s h =
    serve_all-IsAllowed requests (serve r s) (serve-IsAllowed r s h)
