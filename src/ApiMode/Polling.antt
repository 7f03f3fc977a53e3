-- ===== src/ApiMode/Polling.antt =====
-- main.py, `_polling_loop` and the errors of `_on_demand_inner`: the polls of the on-demand mode, with the
-- circuit breaker. What the waits, the requests and the broker do in a round is the record `Round`.
-- That reporting an error raises is not modelled.
pub mod Breaker
pub mod Stops
use geberit_aquaclean.Prelude.{
  ℕ, ◌+◌, Bool, true, false, not, ◌&&◌, Option, none, some, List, [], ◌∷◌, ◌++◌, ◌==◌, ltb, leb,
  if◌then◌else◌,
}

-- The codes of ErrorCodes.py that are reported.
pub data Code : Type 0 where
  e0002 e0003 e0010 e1001 e1002 e7002 : Code

-- The details of an HTTPException, as far as they are read: a dict, which may hold a dict for the key
-- "error", which may hold a code, or no dict.
pub record ErrorDetail : Type 0 where
  pub code : Option Code

pub data Detail : Type 0 where
  no_dict : Detail
  detail_dict : Option ErrorDetail → Detail

-- `_http_error`
abbrev pub http_error : Code → Detail
http_error error_code = detail_dict (some (record { code = some error_code }))

-- The code of the details, by way of `err`.
abbrev pub error_code_of : ErrorDetail → Code
error_code_of err = elim err.code [ some code ↦ code | none ↦ e7002 ]

unfoldable pub ec_code : Detail → Code
ec_code no_dict = e7002
ec_code (detail_dict none) = e7002
ec_code (detail_dict (some err)) = error_code_of err

-- The exceptions that `_polling_loop` and `_on_demand_inner` tell apart.
pub data PollError : Type 0 where
  unsupported_device peripheral_timeout : PollError
  esphome_connection : Bool → PollError
  device_not_found bleak_error connect_timeout : PollError
  http_exception : Detail → PollError
  other_error : PollError

abbrev pub connection_code : Bool → Code
connection_code timeout = if timeout then e1001 else e1002

-- `_ec` of `_on_demand_inner`
unfoldable pub code_of : PollError → Code
code_of unsupported_device = e0010
code_of peripheral_timeout = e0003
code_of (esphome_connection timeout) = connection_code timeout
code_of device_not_found = e0002
code_of bleak_error = e0003
code_of connect_timeout = e0003
code_of (http_exception detail) = e7002
code_of other_error = e7002

-- What `_on_demand_inner` raises where the connection or the action raises.
unfoldable pub on_demand_error : PollError → PollError
unfolding code_of
on_demand_error e = http_exception (http_error (code_of e))

-- How the wait at the top of the loop ends.
pub data Wake : Type 0 where
  woken elapsed cancelled : Wake

-- A request ends with a result, which names the main firmware or does not, or raises.
pub data Fetched : Type 0 where
  fetched : Bool → Fetched
  raised : PollError → Fetched

-- `_on_demand` around a request.
unfoldable pub on_demand : Fetched → Fetched
unfolding on_demand_error
on_demand (fetched main) = fetched main
on_demand (raised e) = raised (on_demand_error e)

-- What one round of the loop meets. The two last fields are what publishing the identification, and all
-- that is published and recorded after it, raise.
pub record Round : Type 0 where
  pub polling_enabled : Bool
  pub wake : Wake
  pub shutdown : Bool
  pub on_demand_mode : Bool
  pub fetch : Fetched
  pub publish_identification : Option PollError
  pub publish_state : Option PollError

pub record Loop : Type 0 where
  pub first_poll : Bool
  pub consecutive_poll_failures : ℕ
  pub identification_fetched : Bool
  pub running : Bool

pub data Effect : Type 0 where
  trigger_esphome_restart circuit_open_sleep fetch_state_and_info fetch_state : Effect
  firmware_version_ready : Effect
  report_error proxy_error : Code → Effect

abbrev pub new_loop : Loop
new_loop = record {
  first_poll = true;
  consecutive_poll_failures = 0;
  identification_fetched = false;
  running = true;
}

abbrev pub circuit_open_threshold : ℕ
circuit_open_threshold = 3

-- What is done before a poll while the circuit is open.
unfoldable pub circuit_breaker : Bool → ℕ → List Effect
circuit_breaker esphome_host failures =
    if leb circuit_open_threshold failures
    then (if failures == circuit_open_threshold && esphome_host
        then trigger_esphome_restart ∷ circuit_open_sleep ∷ []
        else circuit_open_sleep ∷ [])
    else []

-- The body of the `try`: the loop after it, what was done, and what was raised.
abbrev pub Tried : Type 0
Tried = Loop × List Effect × Option PollError

-- From "close circuit" on. After a failure the identification is fetched again.
unfoldable pub after_fetch : Option PollError → List Effect → Loop → Tried
after_fetch publish done l = (
  record l {
    consecutive_poll_failures = 0;
    identification_fetched = l.identification_fetched && not (ltb 0 l.consecutive_poll_failures);
  },
  done,
  publish,
)

abbrev pub identified : Option PollError → Option PollError → List Effect → Loop → Tried
identified (some e) publish done l = (l, done, some e)
identified none publish done l = after_fetch publish done l

unfoldable pub poll_once : Round → Loop → Tried
unfolding after_fetch
poll_once r l = elim r.fetch [
  | raised e ↦
      (l, (if l.identification_fetched then fetch_state else fetch_state_and_info) ∷ [], some e)
  | fetched main ↦
      if l.identification_fetched
      then after_fetch r.publish_state (fetch_state ∷ []) l
      else identified r.publish_identification r.publish_state
          (fetch_state_and_info ∷ (if main then firmware_version_ready ∷ [] else []))
          (record l { identification_fetched = true })
]

abbrev pub failed : Loop → Loop
failed l = record l { consecutive_poll_failures = l.consecutive_poll_failures + 1 }

-- The `except` clauses.
unfoldable pub handle : Option PollError → Loop → Loop × List Effect
unfolding ec_code
handle none l = (l, [])
handle (some unsupported_device) l = (record l { running = false }, report_error e0010 ∷ [])
handle (some (esphome_connection timeout)) l =
    (failed l, report_error (connection_code timeout) ∷ proxy_error (connection_code timeout) ∷ [])
handle (some device_not_found) l = (failed l, report_error e0002 ∷ [])
handle (some bleak_error) l = (failed l, report_error e0003 ∷ [])
handle (some connect_timeout) l = (failed l, report_error e0003 ∷ [])
handle (some (http_exception detail)) l = (failed l, report_error (ec_code detail) ∷ [])
handle (some peripheral_timeout) l = (failed l, report_error e7002 ∷ [])
handle (some other_error) l = (failed l, report_error e7002 ∷ [])

abbrev pub handled : List Effect → Tried → Loop × List Effect
handled before (l, done, exc) = ((handle exc l).0, before ++ (done ++ (handle exc l).1))

-- From the test for the shutdown to the end of the loop's body.
unfoldable pub poll_round : Bool → Round → Loop → Loop × List Effect
unfolding circuit_breaker poll_once handle
poll_round esphome_host r l =
    if r.shutdown
    then (record l { running = false }, [])
    else if not r.on_demand_mode
    then (l, [])
    else handled (circuit_breaker esphome_host l.consecutive_poll_failures) (poll_once r l)

-- A wait without an interval does not elapse.
unfoldable pub after_wait : Bool → Round → Loop → Loop × List Effect
unfolding poll_round
after_wait esphome_host r l = elim r.wake [
  | woken ↦ (l, [])
  | cancelled ↦ (record l { running = false }, [])
  | elapsed ↦
      if r.polling_enabled
      then poll_round esphome_host r (record l { first_poll = false })
      else (l, [])
]

unfoldable pub loop_body : Bool → Round → Loop → Loop × List Effect
unfolding after_wait
loop_body esphome_host r l =
    if l.first_poll && r.polling_enabled
    then poll_round esphome_host r (record l { first_poll = false })
    else after_wait esphome_host r l

abbrev pub joined_effects : Loop × List Effect → (Loop → Loop × List Effect) → Loop × List Effect
joined_effects (l, done) next = ((next l).0, done ++ (next l).1)

-- The loop on its rounds, until it returns.
unfoldable pub polling_loop : Bool → List Round → Loop → Loop × List Effect
unfolding loop_body
polling_loop esphome_host [] l = (l, [])
polling_loop esphome_host (r ∷ rounds) l =
    let next = λ (l' : Loop). polling_loop esphome_host rounds l' in
    if l.running then joined_effects (loop_body esphome_host r l) next else (l, [])
