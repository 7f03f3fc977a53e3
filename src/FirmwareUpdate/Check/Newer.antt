-- ===== src/FirmwareUpdate/Check/Newer.antt =====
-- When an update is announced.
use geberit_aquaclean.Prelude.{
  ℕ, Bool, true, false, ◌||◌, Option, none, some, List, [], ◌∷◌, ◌++◌, ◌≡◌, ◌≢◌, inl, inr, refl, ap,
  sym, ◌∙◌, All, Error, Result, ok, err, type_error, not, ◌&&◌, Bool-cases, subst, if◌then◌else◌,
}
use geberit_aquaclean.Prelude.First.{IsFirst}
use geberit_aquaclean.Api.Text.{Text}
use geberit_aquaclean.FirmwareUpdate.{Package, Latest, same_series, above}
use geberit_aquaclean.FirmwareUpdate.Newest.{
  candidates, above-IsOrdered, get_latest_for_series_and_variant-IsFirst,
}
use geberit_aquaclean.FirmwareUpdate.Check.{
  Match, matching, first_where, or_first, choose, find_series_and_variant, CheckError, cannot_parse,
  not_found, CheckResult, failure, all_of, one_series, lowest, compared, version_key, parse_rs_ts,
  with_match, with_device, check_firmware_update,
}

-- Whether one of the versions is newer than the device's.
abbrev pub some_above : Latest → List Latest → Bool
some_above device [] = false
some_above device (v ∷ versions) = above v device || some_above device versions

or_true : (a : Bool) → (a || true) ≡ true
or_true true = refl
or_true false = refl

some_above-there :
    (device m : Latest) (earlier later : List Latest)
    → above m device ≡ true
    → some_above device (earlier ++ m ∷ later) ≡ true
some_above-there device m [] later h = ap (λ b. b || some_above device later) h
some_above-there device m (v ∷ earlier) later h =
    ap (λ b. above v device || b) (some_above-there device m earlier later h)
    ∙ or_true (above v device)

some_above-none :
    (device m : Latest) (versions : List Latest)
    → above m device ≡ false
    → All (λ v. above v m ≡ false) versions
    → some_above device versions ≡ false
some_above-none device m [] h k = refl
some_above-none device m (v ∷ versions) h (k, ks) =
    ap (λ b. b || some_above device versions) (above-IsOrdered.chained v m device k h)
    ∙ some_above-none device m versions h ks

-- The newest is newer than the device exactly where some version is.
newest-some_above :
    (device : Latest) (versions : List Latest) (newest : Latest)
    → IsFirst above versions (some newest)
    → above newest device ≡ some_above device versions
unfolding IsFirst
newest-some_above device versions newest (earlier, later, e, h) =
    elim (Bool-cases (above newest device)) [
      | inl b ↦
          b ∙ sym (some_above-there device newest earlier later b) ∙ ap (some_above device) (sym e)
      | inr b ↦ b ∙ sym (some_above-none device newest versions b h)
    ]

-- The match is one of the list.
abbrev pub Listed : List Match → Match → Type 0
Listed ms m = (before : List Match) × (after : List Match) × (ms ≡ before ++ m ∷ after)

Listed-later : (n : Match) (ms : List Match) (m : Match) → Listed ms m → Listed (n ∷ ms) m
Listed-later n ms m (before, after, e) = (n ∷ before, after, ap (λ l. n ∷ l) e)

first_where-Listed :
    (test : Match → Bool) (ms : List Match) (m : Match) → first_where test ms ≡ some m → Listed ms m
unfolding first_where
first_where-Listed test [] m h = cc
first_where-Listed test (n ∷ ms) m h =
    let tested = λ (b : Bool). if b then some n else first_where test ms in
    elim (Bool-cases (test n)) [
      | inl e ↦
          (let found : some n ≡ some m = sym (ap tested e) ∙ h in
            let same : n ≡ m = cc in ([], ms, ap (λ x. x ∷ ms) same))
      | inr e ↦ Listed-later n ms m (first_where-Listed test ms m (sym (ap tested e) ∙ h))
    ]

or_first-Listed :
    (found : Option Match) (ms : List Match) (m : Match)
    → ((n : Match) → found ≡ some n → Listed ms n)
    → or_first found ms ≡ some m
    → Listed ms m
or_first-Listed none ms m f h = first_where-Listed (λ n. true) ms m h
or_first-Listed (some n) ms m f h = f m h

all_of-false :
    (test : Match → Bool) (ms : List Match)
    → all_of test ms ≡ false
    → (m : Match) × Listed ms m × (test m ≡ false)
all_of-false test [] h = cc
all_of-false test (n ∷ ms) h = elim (Bool-cases (test n)) [
  | inr e ↦ (n, ([], ms, refl), e)
  | inl e ↦
      let (m, l, t) = all_of-false test ms (sym (ap (λ b. b && all_of test ms) e) ∙ h) in
      (m, Listed-later n ms m l, t)
]

-- What the choice comes to.
data Choice (ms : List Match) : Result (Option Match) → Type 0 where
  nothing : Choice ms (ok none)
  one : (m : Match) → Listed ms m → Choice ms (ok (some m))
  without_series :
      (e : Error) → e ≡ type_error → (m : Match) → Listed ms m → m.series ≡ none → Choice ms (err e)

found-Choice :
    (ms : List Match) (found : Option Match)
    → ((m : Match) → found ≡ some m → Listed ms m)
    → Choice ms (ok found)
found-Choice ms none h = nothing
found-Choice ms (some m) h = one m (h m refl)

no_series : (s : Option ℕ) → not (same_series s none) ≡ false → s ≡ none
no_series none h = refl
no_series (some n) h = cc

branches-Choice :
    (ms : List Match) (same inactive_same : Bool) (a b c : Option Match) (complete : Bool)
    → Choice ms (ok a)
    → Choice ms (ok b)
    → Choice ms (ok c)
    → (complete ≡ false → Choice ms (err type_error))
    → Choice ms (
        if same
        then ok a
        else if inactive_same
        then ok b
        else if complete
        then ok c
        else err type_error)
branches-Choice ms true i a b c complete ha hb hc he = ha
branches-Choice ms false true a b c complete ha hb hc he = hb
branches-Choice ms false false a b c true ha hb hc he = hc
branches-Choice ms false false a b c false ha hb hc he = he refl

choose-Choice : (ms : List Match) → Choice ms (choose ms)
unfolding choose
choose-Choice ms =
    let active = first_where (λ m. m.is_active) ms in
    branches-Choice ms (one_series (λ m. true) ms) (one_series (λ m. not m.is_active) ms)
      (or_first active ms) (first_where (λ m. not m.is_active) ms)
      (first_where (λ m. same_series m.series (lowest ms)) ms)
      (all_of (λ m. not (same_series m.series none)) ms)
      (found-Choice ms (or_first active ms)
        (λ m e. or_first-Listed active ms m (λ n h. first_where-Listed _ ms n h) e))
      (found-Choice ms _ (λ m e. first_where-Listed (λ n. not n.is_active) ms m e))
      (found-Choice ms _ (λ m e. first_where-Listed (λ n. same_series n.series (lowest ms)) ms m e))
      (λ e.
        let (m, l, t) = all_of-false (λ n. not (same_series n.series none)) ms e in
        without_series type_error refl m l (no_series m.series t))

-- The result of a check of a device, on packages that were fetched.
pub data Checked (int_of : Text → Option ℕ) (text : Text) (packages : List Package)
    : Result CheckResult → Type 0 where
  -- Nothing is announced, and the error says why.
  failing :
      (r : CheckResult)
      → r.update_available ≡ false
      → r.error ≢ none
      → Checked int_of text packages (ok r)
  -- An update is announced where a candidate is newer.
  compared_with :
      (r : CheckResult) (device : Latest) (m : Match)
      → parse_rs_ts int_of text ≡ some device
      → Listed (matching (version_key device) packages) m
      → r.series ≡ m.series
      → r.update_available ≡ some_above device (candidates int_of m.series m.variants packages)
      → Checked int_of text packages (ok r)
  -- A package with the version of the device has no series.
  incomparable :
      (device : Latest) (m : Match)
      → parse_rs_ts int_of text ≡ some device
      → Listed (matching (version_key device) packages) m
      → m.series ≡ none
      → Checked int_of text packages (err type_error)

module _ (int_of : Text → Option ℕ) (text : Text) (packages : List Package) where
  failure-Checked : (e : CheckError) → Checked int_of text packages (ok (failure e))
  failure-Checked e = failing (failure e) refl (λ h. cc)

  compared-Checked :
      (device : Latest) (m : Match) (latest : Option Latest)
      → parse_rs_ts int_of text ≡ some device
      → Listed (matching (version_key device) packages) m
      → IsFirst above (candidates int_of m.series m.variants packages) latest
      → Checked int_of text packages (ok (compared device m latest))
  unfolding compared
  compared-Checked device m none p l f = failing _ refl (λ h. cc)
  compared-Checked device m (some latest) p l f =
      compared_with _ device m p l refl
        (newest-some_above device (candidates int_of m.series m.variants packages) latest f)

  with_match-Checked :
      (device : Latest) (found : Result (Option Match))
      → parse_rs_ts int_of text ≡ some device
      → Choice (matching (version_key device) packages) found
      → Checked int_of text packages (with_match int_of device packages found)
  with_match-Checked device (ok none) p nothing = failure-Checked not_found
  with_match-Checked device (ok (some _)) p (one m l) =
      compared-Checked device m _ p l
        (get_latest_for_series_and_variant-IsFirst int_of m.series m.variants packages)
  with_match-Checked device (err e) p (without_series _ q m l n) =
      subst (λ x. Checked int_of text packages (err x)) (sym q) (incomparable device m p l n)

  with_device-Checked :
      (device : Option Latest)
      → parse_rs_ts int_of text ≡ device
      → Checked int_of text packages (with_device int_of device (ok packages))
  with_device-Checked none p = failure-Checked cannot_parse
  with_device-Checked (some device) p =
      with_match-Checked device (find_series_and_variant (version_key device) packages) p
        (unfold find_series_and_variant in choose-Choice (matching (version_key device) packages))

  -- Whatever the packages are, a check announces an update exactly where a candidate for a package with
  -- the device's version is newer, or says why it cannot, or raises where that package has no series.
  pub check_firmware_update-Checked :
      Checked int_of text packages (check_firmware_update int_of text (ok packages))
  unfolding check_firmware_update
  check_firmware_update-Checked = with_device-Checked (parse_rs_ts int_of text) refl
