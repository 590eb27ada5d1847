-- ===== src/PhoneAuth/Cooldown.antt =====
-- The minute between two codes for a phone number (src/auth/phone-auth-rate-limit.service.ts).
use transpo24_backend_nest_j.Base.{
  ℕ, ◌+◌, ◌≤◌, ◌<◌, ◌≡◌, ◌≢◌, none, List, [], ◌∷◌, get_or, ok, arith,
}
use transpo24_backend_nest_j.PhoneAuth.{
  Redis, Limits, LimitCall, send, verify, call_time, assert_can_send, run_limit, run_limits,
}

-- The phone number's cooldown lasts until a time at least.
abbrev pub Cools : ℕ → ℕ → Limits → Type 0
Cools phone until s = until ≤ get_or (s.cooldowns phone) 0

-- All calls come before a time.
abbrev pub AllBefore : ℕ → List LimitCall → Type 0
AllBefore until [] = Unit {0}
AllBefore until (c ∷ cs) = (call_time c < until) × AllBefore until cs

sent-Cools :
    (now phone ip : ℕ) (redis : Redis) (s : Limits)
    → redis.cooldown ≡ none
    → (assert_can_send now phone ip redis s).0 ≡ ok tt
    → Cools phone (now + 60000) (assert_can_send now phone ip redis s).1
unfolding assert_can_send
sent-Cools now phone ip redis s memory h = ground arith

run_limit-Cools :
    (phone until : ℕ) (c : LimitCall) (s : Limits)
    → call_time c < until
    → Cools phone until s
    → Cools phone until (run_limit c s)
unfolding run_limit
run_limit-Cools phone until (send now key ip redis) s early h = ground arith
run_limit-Cools phone until (verify now key ip redis) s early h = ground arith

run_limits-Cools :
    (phone until : ℕ) (cs : List LimitCall) (s : Limits)
    → AllBefore until cs
    → Cools phone until s
    → Cools phone until (run_limits cs s)
unfolding run_limits
run_limits-Cools phone until [] s early h = h
run_limits-Cools phone until (c ∷ cs) s early h =
    run_limits-Cools phone until cs (run_limit c s) early.1
      (run_limit-Cools phone until c s early.0 h)

cooling-refused :
    (later phone ip : ℕ) (redis : Redis) (s : Limits) (until : ℕ)
    → redis.cooldown ≡ none
    → later < until
    → Cools phone until s
    → (assert_can_send later phone ip redis s).0 ≢ ok tt
unfolding assert_can_send
cooling-refused later phone ip redis s until memory early h = ground arith

-- In memory, after a code was sent to a phone number, none is sent to it for a minute, whatever other
-- calls come in between, for this number and others, also some that Redis answers.
pub assert_can_send-apart :
    (now later phone ip ip_later : ℕ) (redis redis_later : Redis) (cs : List LimitCall) (s : Limits)
    → redis.cooldown ≡ none
    → redis_later.cooldown ≡ none
    → (assert_can_send now phone ip redis s).0 ≡ ok tt
    → AllBefore (now + 60000) cs
    → later < now + 60000
    → (assert_can_send later phone ip_later redis_later
        (run_limits cs (assert_can_send now phone ip redis s).1)).0
      ≢ ok tt
assert_can_send-apart now later phone ip ip_later redis redis_later cs s memory memory_later sent
      early soon =
    cooling-refused later phone ip_later redis_later _ (now + 60000) memory_later soon (
      run_limits-Cools phone (now + 60000) cs _ early (sent-Cools now phone ip redis s memory sent))
