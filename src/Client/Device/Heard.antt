-- ===== src/Client/Device/Heard.antt =====
-- What a listener knows that applies every event to what it knew.
use geberit_aquaclean.Prelude.{
  ℕ, ◌≡◌, refl, ap, ◌∙◌, Bool, true, false, ◌&&◌, Option, none, some, List, [], ◌∷◌, ◌++◌,
  Bool-cases, inl, inr, if◌then◌else◌,
}
use geberit_aquaclean.Client.Device.{
  DeviceStateChangedEventArgs, ClientEvent, device_state_changed, AquaCleanClient, same_flag,
  same_args, changed, partial_update, announced, fire_each, note_state,
}

-- The state that a poll has read.
pub record DeviceState : Type 0 where
  pub sitting : Bool
  pub anal : Bool
  pub lady : Bool
  pub dryer : Bool
  pub lid : ℕ
  pub arm : ℕ

-- The arguments that `state_args` makes: every field is known.
abbrev pub known : DeviceState → DeviceStateChangedEventArgs
known s = record {
  is_user_sitting = some s.sitting;
  is_anal_shower_running = some s.anal;
  is_lady_shower_running = some s.lady;
  is_dryer_running = some s.dryer;
  lid_offset_position = some s.lid;
  shower_arm_offset_position = some s.arm;
}

abbrev pub blank : DeviceStateChangedEventArgs
blank = record {
  is_user_sitting = none;
  is_anal_shower_running = none;
  is_lady_shower_running = none;
  is_dryer_running = none;
  lid_offset_position = none;
  shower_arm_offset_position = none;
}

abbrev pub newer {ℓ} : {A : Type ℓ} → Option A → Option A → Option A
newer old none = old
newer old (some a) = some a

-- A field that the event leaves open keeps its value.
unfoldable pub hear :
    DeviceStateChangedEventArgs → DeviceStateChangedEventArgs → DeviceStateChangedEventArgs
hear old args = record {
  is_user_sitting = newer old.is_user_sitting args.is_user_sitting;
  is_anal_shower_running = newer old.is_anal_shower_running args.is_anal_shower_running;
  is_lady_shower_running = newer old.is_lady_shower_running args.is_lady_shower_running;
  is_dryer_running = newer old.is_dryer_running args.is_dryer_running;
  lid_offset_position = newer old.lid_offset_position args.lid_offset_position;
  shower_arm_offset_position = newer old.shower_arm_offset_position args.shower_arm_offset_position;
}

unfoldable pub hear_event : DeviceStateChangedEventArgs → ClientEvent → DeviceStateChangedEventArgs
unfolding hear
hear_event view (device_state_changed args) = hear view args
hear_event view _ = view

unfoldable pub hear_all :
    DeviceStateChangedEventArgs → List ClientEvent → DeviceStateChangedEventArgs
unfolding hear_event
hear_all view [] = view
hear_all view (event ∷ events) = hear_all (hear_event view event) events

-- The flags of `s` with the positions of `first`.
abbrev pub seen : DeviceState → DeviceState → DeviceStateChangedEventArgs
seen first s = known (record s { lid = first.lid; arm = first.arm })

newer-changed : (t s : Bool) → newer (some s) (changed (some t) (some s)) ≡ some t
newer-changed true true = refl
newer-changed true false = refl
newer-changed false true = refl
newer-changed false false = refl

hear-partial :
    (first s t : DeviceState)
    → hear (seen first s) (partial_update (known t) (known s)) ≡ seen first t
unfolding hear partial_update
hear-partial first s t i = record {
  is_user_sitting = newer-changed t.sitting s.sitting i;
  is_anal_shower_running = newer-changed t.anal s.anal i;
  is_lady_shower_running = newer-changed t.lady s.lady i;
  is_dryer_running = newer-changed t.dryer s.dryer i;
  lid_offset_position = some first.lid;
  shower_arm_offset_position = some first.arm;
}

same_flag_eq : (t s : Bool) → same_flag (some t) (some s) ≡ true → s ≡ t
same_flag_eq true true h = refl
same_flag_eq true false h = cc
same_flag_eq false true h = cc
same_flag_eq false false h = refl

and_both : (a b : Bool) → (a && b) ≡ true → (a ≡ true) × (b ≡ true)
and_both true b h = (refl, h)
and_both false b h = cc

same_args-seen :
    (first s t : DeviceState) → same_args (known t) (known s) ≡ true → seen first s ≡ seen first t
unfolding same_args
same_args-seen first s t h =
    let (a, h1) = and_both _ _ h in
    let (b, h2) = and_both _ _ h1 in
    let (d, h3) = and_both _ _ h2 in
    let (e, h4) = and_both _ _ h3 in
    λ i. seen first (record {
      sitting = same_flag_eq t.sitting s.sitting a i;
      anal = same_flag_eq t.anal s.anal b i;
      lady = same_flag_eq t.lady s.lady d i;
      dryer = same_flag_eq t.dryer s.dryer e i;
      lid = first.lid;
      arm = first.arm;
    })

hear_all-append :
    (view : DeviceStateChangedEventArgs) (xs ys : List ClientEvent)
    → hear_all view (xs ++ ys) ≡ hear_all (hear_all view xs) ys
unfolding hear_all
hear_all-append view [] ys = refl
hear_all-append view (x ∷ xs) ys = hear_all-append (hear_event view x) xs ys

-- A listener that knows what it should of the last state.
pub record Follows (view : DeviceStateChangedEventArgs) (first s : DeviceState)
    (c : AquaCleanClient) : Type 0 where
  pub last : c.last_device_state_changed_event_args ≡ some (known s)
  pub heard : hear_all view c.fired ≡ seen first s

fire_each-fired :
    (view : DeviceStateChangedEventArgs) (args : DeviceStateChangedEventArgs) (c : AquaCleanClient)
    → hear_all view (fire_each (args ∷ []) c).fired ≡ hear (hear_all view c.fired) args
unfolding fire_each hear_all hear_event
fire_each-fired view args c = hear_all-append view c.fired (device_state_changed args ∷ [])

fire_none :
    (view : DeviceStateChangedEventArgs) (c : AquaCleanClient)
    → hear_all view (fire_each [] c).fired ≡ hear_all view c.fired
unfolding fire_each
fire_none view c = refl

-- One more poll.
pub note_state-Follows :
    (view : DeviceStateChangedEventArgs) (first s t : DeviceState) (c : AquaCleanClient)
    → Follows view first s c
    → Follows view first t (note_state (known t) c)
unfolding note_state announced
note_state-Follows view first s t c f = record {
  last = refl;
  heard =
      ap (λ l. hear_all view (fire_each (announced l (known t)) c).fired) f.last
      ∙ elim (Bool-cases (same_args (known t) (known s))) [
        | inl e ↦
            ap
              (λ (b : Bool).
                hear_all view
                  (fire_each (if b then [] else partial_update (known t) (known s) ∷ []) c).fired)
              e
            ∙ fire_none view c
            ∙ f.heard
            ∙ same_args-seen first s t e
        | inr e ↦
            ap
              (λ (b : Bool).
                hear_all view
                  (fire_each (if b then [] else partial_update (known t) (known s) ∷ []) c).fired)
              e
            ∙ fire_each-fired view (partial_update (known t) (known s)) c
            ∙ ap (λ v. hear v (partial_update (known t) (known s))) f.heard
            ∙ hear-partial first s t
      ];
}

-- The first poll.
pub first-Follows :
    (view : DeviceStateChangedEventArgs) (s : DeviceState) (c : AquaCleanClient)
    → c.last_device_state_changed_event_args ≡ none
    → Follows view s s (note_state (known s) c)
unfolding note_state announced hear
first-Follows view s c e = record {
  last = refl;
  heard =
      ap (λ l. hear_all view (fire_each (announced l (known s)) c).fired) e
      ∙ fire_each-fired view (known s) c;
}
