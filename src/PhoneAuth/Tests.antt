-- ===== src/PhoneAuth/Tests.antt =====
-- Codes for the phone numbers 1 and 2, with the limits in memory.
use transpo24_backend_nest_j.Base.{◌≡◌, ◌≢◌, refl, none, List, [], ◌∷◌, ok, arith}
use transpo24_backend_nest_j.PhoneAuth.{
  Redis, Limits, LimitCall, send, verify, assert_can_send, run_limits,
}
use transpo24_backend_nest_j.PhoneAuth.Cooldown.{assert_can_send-apart}

abbrev no_redis : Redis
no_redis = record { phone_count = none; ip_count = none; cooldown = none }

abbrev empty : Limits
empty = record { counters = λ scope key. none; cooldowns = λ key. none }

abbrev between : List LimitCall
between = send 20000 2 8 no_redis ∷ verify 30000 1 8 no_redis ∷ send 40000 1 9 no_redis ∷ []

first_is_sent : (assert_can_send 10000 1 8 no_redis empty).0 ≡ ok tt
unfolding assert_can_send
first_is_sent = refl

assert_can_send-apart_example :
    (assert_can_send 69999 1 8 no_redis
      (run_limits between (assert_can_send 10000 1 8 no_redis empty).1)).0
    ≢ ok tt
assert_can_send-apart_example =
    assert_can_send-apart 10000 69999 1 8 8 no_redis no_redis between empty refl refl first_is_sent
      (omega arith) (omega arith)
