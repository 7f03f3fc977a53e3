-- ===== src/Client/Device/Poll.antt =====
-- Polls of `_state_changed_timer_elapsed`, and what a listener has heard after them.
use geberit_aquaclean.Prelude.{
  ℕ, ◌≡◌, refl, ap, ◌∙◌, sym, subst, not, Option, none, some, List, [], ◌∷◌, ◌==◌, Result, ok, err,
}
use geberit_aquaclean.Api.Parameters.{SystemParameterList}
use geberit_aquaclean.Client.Base.{BaseClient}
use geberit_aquaclean.Client.Calls.{get_system_parameter_list_async}
use geberit_aquaclean.Client.Device.{
  DeviceStateChangedEventArgs, AquaCleanClient, and_run, with_base, pure, update, state_args,
  note_state, state_changed_timer_elapsed, spl_params_mera_comfort,
}
use geberit_aquaclean.Client.Device.Heard.{
  DeviceState, known, Follows, note_state-Follows, first-Follows,
}

-- The arguments that are made of a parameter list are all known.
state_args-known :
    (a : ℕ) (d : List ℕ) (args : DeviceStateChangedEventArgs)
    → state_args (record { a = a; data_array = d }) ≡ ok args
    → (s : DeviceState) × (args ≡ known s)
unfolding state_args
state_args-known a (d0 ∷ d1 ∷ d2 ∷ d3 ∷ d4 ∷ d5 ∷ d6 ∷ d7 ∷ d8 ∷ d9 ∷ rest) args h = (
  record {
    sitting = not (d0 == 0);
    anal = not (d3 == 0);
    lady = not (d2 == 0);
    dryer = not (d1 == 0);
    lid = d8;
    arm = d9;
  },
  cc,
)
state_args-known a (d0 ∷ d1 ∷ d2 ∷ d3 ∷ d4 ∷ d5 ∷ d6 ∷ d7 ∷ d8 ∷ []) args h = absurd cc
state_args-known a (d0 ∷ d1 ∷ d2 ∷ d3 ∷ d4 ∷ d5 ∷ d6 ∷ d7 ∷ []) args h = absurd cc
state_args-known a (d0 ∷ d1 ∷ d2 ∷ d3 ∷ d4 ∷ d5 ∷ d6 ∷ []) args h = absurd cc
state_args-known a (d0 ∷ d1 ∷ d2 ∷ d3 ∷ d4 ∷ d5 ∷ []) args h = absurd cc
state_args-known a (d0 ∷ d1 ∷ d2 ∷ d3 ∷ d4 ∷ []) args h = absurd cc
state_args-known a (d0 ∷ d1 ∷ d2 ∷ d3 ∷ []) args h = absurd cc
state_args-known a (d0 ∷ d1 ∷ d2 ∷ []) args h = absurd cc
state_args-known a (d0 ∷ d1 ∷ []) args h = absurd cc
state_args-known a (d0 ∷ []) args h = absurd cc
state_args-known a [] args h = absurd cc

abbrev client_of : AquaCleanClient → Option (Result (Unit {0}) × AquaCleanClient) → AquaCleanClient
client_of c none = c
client_of c (some r) = r.1

module _ (c c' : AquaCleanClient) where
  -- The poll has noted a state that it has read, and nothing else.
  abbrev pub Noted : Type 0
  Noted =
      (s : DeviceState) × (b : BaseClient) × (c'
        ≡ note_state (known s) (record c { base_client = b }))

  args-Noted :
      (b : BaseClient) (r : Result DeviceStateChangedEventArgs)
      → ((args : DeviceStateChangedEventArgs) → r ≡ ok args → (s : DeviceState) × (args ≡ known s))
      → and_run (pure r (record c { base_client = b })) (λ args. update (note_state args))
        ≡ some (ok tt, c')
      → Noted
  args-Noted b (err e) k h = absurd cc
  args-Noted b (ok args) k h =
      let (s, e) = k args refl in
      (
        s,
        b,
        sym (ap (λ o. client_of c o) h) ∙ ap (λ a. note_state a (record c { base_client = b })) e,
      )

  response-Noted :
      (r : Option (Result SystemParameterList × BaseClient))
      → and_run
          (with_base c r)
          (λ result c1. and_run (pure (state_args result) c1) (λ args. update (note_state args)))
        ≡ some (ok tt, c')
      → Noted
  response-Noted none h = absurd cc
  response-Noted (some (err e, b)) h = absurd cc
  response-Noted (some (ok l, b)) h =
      args-Noted b (state_args l) (state_args-known l.a l.data_array) h

  pub poll-Noted : state_changed_timer_elapsed c ≡ some (ok tt, c') → Noted
  unfolding state_changed_timer_elapsed
  poll-Noted h =
      response-Noted (get_system_parameter_list_async spl_params_mera_comfort c.base_client) h

-- Polls that succeed, one after the other: the client before them, after the first and after the last. What
-- is done between two polls may change the base client.
pub data Polls : AquaCleanClient → AquaCleanClient → AquaCleanClient → Type 0 where
  one : {c c' : AquaCleanClient} → state_changed_timer_elapsed c ≡ some (ok tt, c') → Polls c c' c'
  more :
      {c c1 c2 c' : AquaCleanClient} (b : BaseClient)
      → Polls c c1 c2
      → state_changed_timer_elapsed (record c2 { base_client = b }) ≡ some (ok tt, c')
      → Polls c c1 c'

-- After one poll or more, a listener that knew anything before knows the four flags of the state that was
-- read last, and the two positions of the state that was read first.
pub Polls-heard :
    (view : DeviceStateChangedEventArgs) {c c1 c' : AquaCleanClient}
    → c.last_device_state_changed_event_args ≡ none
    → Polls c c1 c'
    → (first last : DeviceState) × (c1.last_device_state_changed_event_args ≡ some (known first))
      × Follows view first last c'
Polls-heard view {c} {c' = c'} e (one h) =
    let (s, b, eq) = poll-Noted c c' h in
    let f : Follows view s s c' =
      subst (Follows view s s) (sym eq) (first-Follows view s (record c { base_client = b }) e) in
    (s, s, f.last, f)
Polls-heard view {c} {c1} {c'} e (more {c2 = c2} b polls h) =
    let (first, last, known_first, f) = Polls-heard view e polls in
    let (s, b', eq) = poll-Noted (record c2 { base_client = b }) c' h in
    (
      first,
      s,
      known_first,
      subst (Follows view first s) (sym eq) (
          note_state-Follows view first last s (record c2 { base_client = b' })
            (record { last = f.last; heard = f.heard })),
    )
