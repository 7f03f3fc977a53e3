-- ===== src/ApiMode/Polling/Breaker.antt =====
-- The circuit breaker of `_polling_loop`: how often the ESP32 is restarted, and when a poll waits.
use geberit_aquaclean.Prelude.{
  ℕ, ◌+◌, ◌-◌, ◌≤◌, ◌≡◌, refl, Bool, true, false, ◌&&◌, Bool-cases, inl, inr, List, [], ◌∷◌, ◌++◌,
  ltb, ap, sym, subst, ◌≢◌, ◌==◌, leb, if◌then◌else◌, arith,
}
use geberit_aquaclean.ApiMode.Polling.{
  PollError, unsupported_device, Fetched, fetched, raised, Round, Loop, Effect,
  trigger_esphome_restart, circuit_open_sleep, circuit_breaker, after_fetch, poll_once, handle,
  poll_round, after_wait, loop_body, joined_effects, elapsed, polling_loop, new_loop,
}

-- How often effects of a kind stand in a list.
unfoldable pub counted : (Effect → ℕ) → List Effect → ℕ
counted kind [] = 0
counted kind (e ∷ effects) = kind e + counted kind effects

counted-append :
    (kind : Effect → ℕ) (xs ys : List Effect)
    → counted kind (xs ++ ys) ≡ counted kind xs + counted kind ys
unfolding counted
counted-append kind [] ys = omega arith
counted-append kind (x ∷ xs) ys = omega (arith, counted-append kind xs ys)

abbrev pub is_restart : Effect → ℕ
is_restart trigger_esphome_restart = 1
is_restart _ = 0

abbrev pub is_sleep : Effect → ℕ
is_sleep circuit_open_sleep = 1
is_sleep _ = 0

abbrev pub is_fetched : Fetched → ℕ
is_fetched (fetched main) = 1
is_fetched (raised e) = 0

-- The requests that end with a result.
unfoldable pub successes : List Round → ℕ
successes [] = 0
successes (r ∷ rounds) = is_fetched r.fetch + successes rounds

-- The restarts that are left until the next success.
abbrev pub allowance : Loop → ℕ
allowance l = if l.running && leb l.consecutive_poll_failures 3 then 1 else 0

-- A round restarts the ESP32 only out of the allowance, and only a success renews that.
loop_body-restarts :
    (esphome_host : Bool) (r : Round) (l : Loop)
    → l.running ≡ true
    → counted is_restart (loop_body esphome_host r l).1 + allowance (loop_body esphome_host r l).0
      ≤ is_fetched r.fetch + allowance l
unfolding loop_body after_wait poll_round circuit_breaker handle poll_once after_fetch counted
loop_body-restarts esphome_host r l running = ground arith

-- A loop that has returned does nothing; one that runs does its round, and then the others.
pub polling_loop_stopped :
    (esphome_host : Bool) (rounds : List Round) (l : Loop)
    → l.running ≡ false
    → polling_loop esphome_host rounds l ≡ (l, [])
unfolding polling_loop
polling_loop_stopped esphome_host [] l e = refl
polling_loop_stopped esphome_host (r ∷ rounds) l e =
    ap
      (λ (b : Bool).
        if b
        then joined_effects (loop_body esphome_host r l) (λ l'. polling_loop esphome_host rounds l')
        else (l, []))
      e

pub polling_loop_running :
    (esphome_host : Bool) (r : Round) (rounds : List Round) (l : Loop)
    → l.running ≡ true
    → polling_loop esphome_host (r ∷ rounds) l
      ≡ joined_effects (loop_body esphome_host r l) (λ l'. polling_loop esphome_host rounds l')
unfolding polling_loop
polling_loop_running esphome_host r rounds l e =
    ap
      (λ (b : Bool).
        if b
        then joined_effects (loop_body esphome_host r l) (λ l'. polling_loop esphome_host rounds l')
        else (l, []))
      e

polling_loop-allowance :
    (esphome_host : Bool) (rounds : List Round) (l : Loop)
    → counted is_restart (polling_loop esphome_host rounds l).1 ≤ successes rounds + allowance l
unfolding successes counted
polling_loop-allowance esphome_host [] l = unfold polling_loop in omega arith
polling_loop-allowance esphome_host (r ∷ rounds) l = elim (Bool-cases l.running) [
  | inr e ↦
      subst
        (λ (x : Loop × List Effect). counted is_restart x.1 ≤ successes (r ∷ rounds) + allowance l)
        (sym (polling_loop_stopped esphome_host (r ∷ rounds) l e)) (omega arith)
  | inl e ↦
      let now = loop_body esphome_host r l in
      subst
        (λ (x : Loop × List Effect). counted is_restart x.1 ≤ successes (r ∷ rounds) + allowance l)
        (sym (polling_loop_running esphome_host r rounds l e))
        (omega (
          arith,
          counted-append is_restart now.1 (polling_loop esphome_host rounds now.0).1,
          loop_body-restarts esphome_host r l e,
          polling_loop-allowance esphome_host rounds now.0,
        ))
]

-- However the polls end, the ESP32 is restarted at most once before the first success, and once after
-- each.
pub polling_loop-restarts :
    (esphome_host : Bool) (rounds : List Round)
    → counted is_restart (polling_loop esphome_host rounds new_loop).1 ≤ successes rounds + 1
polling_loop-restarts esphome_host rounds = polling_loop-allowance esphome_host rounds new_loop

-- A poll whose request raises anything but UnsupportedDeviceError.
pub record IsFailing (r : Round) : Type 0 where
  pub enabled : r.polling_enabled ≡ true
  pub waited : r.wake ≡ elapsed
  pub goes_on : r.shutdown ≡ false
  pub here : r.on_demand_mode ≡ true
  pub error : PollError
  pub raises : r.fetch ≡ raised error
  pub supported : error ≢ unsupported_device

-- A failing round, from a loop that runs.
record Failed (esphome_host : Bool) (l : Loop) (o : Loop × List Effect) : Type 0 where
  runs : o.0.running ≡ true
  failures : o.0.consecutive_poll_failures ≡ l.consecutive_poll_failures + 1
  sleeps : counted is_sleep o.1 ≡ (if leb 3 l.consecutive_poll_failures then 1 else 0)
  pressed :
      counted is_restart o.1 ≡ (if l.consecutive_poll_failures == 3 && esphome_host then 1 else 0)

-- `n` polls in a row have failed since the loop `l`, and the loop is `o` now.
pub record Outage (esphome_host : Bool) (l : Loop) (n : ℕ) (o : Loop × List Effect) : Type 0 where
  pub runs : o.0.running ≡ true
  pub failures : o.0.consecutive_poll_failures ≡ l.consecutive_poll_failures + n
  pub sleeps :
      counted is_sleep o.1 ≡ l.consecutive_poll_failures + n - 3 - (l.consecutive_poll_failures - 3)
  pub pressed : counted is_restart o.1 ≡ (
      if leb l.consecutive_poll_failures 3
        && (ltb 3 (l.consecutive_poll_failures + n) && esphome_host)
      then 1
      else 0)
