-- ===== src/ApiMode/Polling/Stops.antt =====
-- What the errors of polls that go through `_on_demand` do to the loop.
use geberit_aquaclean.Prelude.{
  ◌≡◌, ◌≢◌, Bool, true, false, some, List, [], ◌∷◌, All, sym, subst, arith,
}
use geberit_aquaclean.ApiMode.Polling.{
  unsupported_device, on_demand_error, on_demand, cancelled, Fetched, Round, Loop, Effect,
  after_fetch, poll_once, handle, poll_round, after_wait, loop_body, polling_loop,
}
use geberit_aquaclean.ApiMode.Polling.Breaker.{polling_loop_running}

-- A round in which nothing ends the program. `request` is what the request itself comes to.
pub record IsOrdinary (r : Round) : Type 0 where
  pub request : Fetched
  pub through : r.fetch ≡ on_demand request
  pub waits : r.wake ≢ cancelled
  pub goes_on : r.shutdown ≡ false
  pub identification : r.publish_identification ≢ some unsupported_device
  pub state : r.publish_state ≢ some unsupported_device

loop_body-running :
    (esphome_host : Bool) (r : Round) (l : Loop)
    → l.running ≡ true
    → IsOrdinary r
    → (loop_body esphome_host r l).0.running ≡ true
unfolding loop_body after_wait poll_round handle poll_once after_fetch on_demand on_demand_error
loop_body-running esphome_host r l e h =
    let a = h.through in
    let b = h.identification in
    let c = h.state in let d = h.waits in let f = h.goes_on in ground arith

-- Whatever the polls raise, an unsupported device included, the loop goes on.
pub polling_loop-running :
    (esphome_host : Bool) (rounds : List Round) (l : Loop)
    → l.running ≡ true
    → All IsOrdinary rounds
    → (polling_loop esphome_host rounds l).0.running ≡ true
polling_loop-running esphome_host [] l e h = unfold polling_loop in e
polling_loop-running esphome_host (r ∷ rounds) l e (h, hs) =
    subst (λ (o : Loop × List Effect). o.0.running ≡ true)
      (sym (polling_loop_running esphome_host r rounds l e))
      (polling_loop-running esphome_host rounds (loop_body esphome_host r l).0
        (loop_body-running esphome_host r l e h) hs)
