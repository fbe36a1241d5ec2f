-- ===== src/Services/Throttle.antt =====
-- services/authentication.py, `LoginThrottle`: a sliding window of login attempts for each client.
pub mod Window
use rag_anotacoes_sdd.Prelude.{
  ℕ, ◌-◌, Bool, true, false, Option, none, some, List, [], ◌∷◌, ◌++◌, length, leb, ltb,
  if◌then◌else◌, Instant, seconds, Result, ok, err, rate_limited,
}
use rag_anotacoes_sdd.Text.{Text, text_eq}

-- `_attempts`: a client's key, and its attempts, oldest first.
abbrev pub Attempts : Type 0
Attempts = List (Text × List Instant)

pub record LoginThrottle : Type 0 where
  pub maximum : ℕ
  pub window : ℕ
  pub attempts : Attempts

abbrev pub default_throttle : LoginThrottle
default_throttle = record { maximum = 5; window = seconds 300; attempts = [] }

-- `self._attempts[key]` of a `defaultdict`
unfoldable pub attempts_of : Text → Attempts → List Instant
attempts_of key [] = []
attempts_of key ((k, ts) ∷ rest) = if text_eq k key then ts else attempts_of key rest

unfoldable pub set_attempts : Text → List Instant → Attempts → Attempts
set_attempts key ts [] = (key, ts) ∷ []
set_attempts key ts ((k, us) ∷ rest) =
    let later = set_attempts key ts rest in
    if text_eq k key then (k, ts) ∷ rest else (k, us) ∷ later

-- `self._attempts.pop(key, None)`
unfoldable pub pop_attempts : Text → Attempts → Attempts
pop_attempts key [] = []
pop_attempts key ((k, us) ∷ rest) =
    let later = pop_attempts key rest in if text_eq k key then rest else (k, us) ∷ later

-- `while attempts and now - attempts[0] > self.window: attempts.popleft()`. A difference of
-- instants that is negative is not above the window, as the truncated one is not.
unfoldable pub drop_stale : ℕ → Instant → List Instant → List Instant
drop_stale window now [] = []
drop_stale window now (t ∷ ts) =
    let rest = drop_stale window now ts in if ltb window (now - t) then rest else t ∷ ts

-- The window of one client at one attempt: whether it is let through, and what is remembered.
unfoldable pub record_attempt : ℕ → ℕ → Instant → List Instant → Result (Unit {0}) × List Instant
record_attempt maximum window now ts =
    let kept = drop_stale window now ts in
    if leb maximum (length kept) then (err rate_limited, kept) else (ok tt, kept ++ now ∷ [])

unfoldable pub check_and_record : LoginThrottle → Text → Instant → Result (Unit {0}) × LoginThrottle
unfolding record_attempt
check_and_record self key now =
    let (r, kept) = record_attempt self.maximum self.window now (attempts_of key self.attempts) in
    (r, record self { attempts = set_attempts key kept self.attempts })

unfoldable pub clear : LoginThrottle → Text → LoginThrottle
clear self key = record self { attempts = pop_attempts key self.attempts }
