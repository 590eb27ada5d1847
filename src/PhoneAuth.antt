-- ===== src/PhoneAuth.antt =====
-- The limits on verification codes, src/auth/phone-auth-rate-limit.service.ts, with the counters in
-- memory. A number stands for the hash of a phone number or an address; the answers of Redis are
-- inputs of a call, `none` where there is no connection or the command failed.
pub mod Cooldown
mod Tests
use transpo24_backend_nest_j.Base.{
  ℕ, ◌+◌, ◌*◌, ltb, leb, ◌==◌, Bool, true, false, not, ◌&&◌, ◌||◌, Option, none, some, List, [],
  ◌∷◌, get_or, if◌then◌else◌, Result, ok, err,
}

pub data RateError : Type 0 where
  too_many_attempts please_wait : RateError

-- The kinds of keys of the counters.
pub data Scope : Type 0 where
  send_phone send_ip verify_phone verify_ip : Scope

pub record MemoryCounter : Type 0 where
  pub count : ℕ
  pub expires_at : ℕ

pub record Limits : Type 0 where
  pub counters : Scope → ℕ → Option MemoryCounter
  pub cooldowns : ℕ → Option ℕ

abbrev pub same_scope : Scope → Scope → Bool
same_scope send_phone send_phone = true
same_scope send_ip send_ip = true
same_scope verify_phone verify_phone = true
same_scope verify_ip verify_ip = true
same_scope _ _ = false

abbrev pub set_counter : Scope → ℕ → MemoryCounter → Limits → Limits
set_counter scope key c s = record s {
  counters = λ sc k. if same_scope sc scope && k == key then some c else s.counters sc k;
}

-- A counter that is missing or has expired starts again.
abbrev pub counted : ℕ → ℕ → Option MemoryCounter → MemoryCounter
counted now ttl none = record { count = 1; expires_at = now + ttl * 1000 }
counted now ttl (some c) =
    if leb c.expires_at now
    then record { count = 1; expires_at = now + ttl * 1000 }
    else record c { count = c.count + 1 }

-- `increment`: the count of Redis, or the one in memory.
unfoldable pub increment : ℕ → Scope → ℕ → ℕ → Option ℕ → Limits → ℕ × Limits
increment now scope key ttl (some n) s = (n, s)
increment now scope key ttl none s =
    let c = counted now ttl (s.counters scope key) in (c.count, set_counter scope key c s)

-- `enforceCounter`: whether the count is within the limit.
abbrev pub enforce_counter : ℕ → Scope → ℕ → ℕ → ℕ → Option ℕ → Limits → Bool × Limits
enforce_counter now scope key limit ttl redis s =
    let (n, s') = increment now scope key ttl redis s in (leb n limit, s')

-- `acquireCooldown`: the answer of Redis, or the time in memory.
unfoldable pub acquire_cooldown : ℕ → ℕ → ℕ → Option Bool → Limits → Bool × Limits
acquire_cooldown now key ttl (some answer) s = (answer, s)
acquire_cooldown now key ttl none s = if ltb now (get_or (s.cooldowns key) 0) then (false, s) else (
  true,
  record s { cooldowns = λ k. if k == key then some (now + ttl * 1000) else s.cooldowns k },
)

-- Redis's answers to the two counters and the cooldown.
pub record Redis : Type 0 where
  pub phone_count : Option ℕ
  pub ip_count : Option ℕ
  pub cooldown : Option Bool

-- Both counters of a call count, also where one of them is over its limit.
abbrev pub both_counters : ℕ → Scope → ℕ → ℕ → Scope → ℕ → ℕ → Redis → Limits → Bool × Limits
both_counters now phone_scope phone_key phone_limit ip_scope ip_key ip_limit redis s =
    let (phone_ok, s1) =
      enforce_counter now phone_scope phone_key phone_limit 600 redis.phone_count s in
    let (ip_ok, s2) = enforce_counter now ip_scope ip_key ip_limit 600 redis.ip_count s1 in
    (phone_ok && ip_ok, s2)

abbrev pub cooled : Bool × Limits → Result RateError (Unit {0}) × Limits
cooled (true, s) = (ok tt, s)
cooled (false, s) = (err please_wait, s)

unfoldable pub assert_can_send : ℕ → ℕ → ℕ → Redis → Limits → Result RateError (Unit {0}) × Limits
unfolding increment acquire_cooldown
assert_can_send now phone_key ip_key redis s =
    let (within, s') = both_counters now send_phone phone_key 5 send_ip ip_key 20 redis s in
    if within
    then cooled (acquire_cooldown now phone_key 60 redis.cooldown s')
    else (err too_many_attempts, s')

unfoldable pub assert_can_verify : ℕ → ℕ → ℕ → Redis → Limits → Result RateError (Unit {0}) × Limits
unfolding increment
assert_can_verify now phone_key ip_key redis s =
    let (within, s') = both_counters now verify_phone phone_key 10 verify_ip ip_key 30 redis s in
    ((if within then ok tt else err too_many_attempts), s')

pub data LimitCall : Type 0 where
  send verify : (now phone_key ip_key : ℕ) → Redis → LimitCall

abbrev pub call_time : LimitCall → ℕ
call_time (send now phone_key ip_key redis) = now
call_time (verify now phone_key ip_key redis) = now

unfoldable pub run_limit : LimitCall → Limits → Limits
unfolding assert_can_send assert_can_verify
run_limit (send now phone_key ip_key redis) s = (assert_can_send now phone_key ip_key redis s).1
run_limit (verify now phone_key ip_key redis) s = (assert_can_verify now phone_key ip_key redis s).1

unfoldable pub run_limits : List LimitCall → Limits → Limits
unfolding run_limit
run_limits [] s = s
run_limits (c ∷ cs) s = run_limits cs (run_limit c s)
