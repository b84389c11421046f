-- ===== src/Accounts/Limits.antt =====
-- backend/app/core/rate_limit.py. Redis is a record with the laws of the commands that the script
-- uses; a key is the number that the digest of the identity gives, an instant is a second.
use rental_property.Base.{ℕ, ◌+◌, ◌<◌, ◌≤◌, ◌≡◌, Bool, Option, none, some, ◌==◌, if◌then◌else◌, leb}
use rental_property.Base.Integers.{ℤ, pos, negsuc}
use rental_property.Text.{Str, strip, lower}

-- What a key holds: a number, and the second at which it goes, if it does.
pub record Counter : Type 0 where
  pub number : ℕ
  pub ends : Option ℕ

abbrev pub number_of : Option Counter → ℕ
number_of none = 0
number_of (some c) = c.number

abbrev pub ends_of : Option Counter → Option ℕ
ends_of none = none
ends_of (some c) = c.ends

pub record Counters : Type 1 where
  pub Store : Type 0
  -- What the key holds at an instant.
  pub get : ℕ → ℕ → Store → Option Counter
  -- `INCR key`
  pub incr : ℕ → ℕ → Store → ℕ × Store
  -- `EXPIRE key seconds`
  pub expire : ℕ → ℕ → ℕ → Store → Store
  -- `TTL key`
  pub ttl : ℕ → ℕ → Store → ℤ
  -- `DEL key`
  pub delete : ℕ → Store → Store
  pub incr-get : (k at : ℕ) (s : Store) → (incr k at s).0 ≡ number_of (get k at s) + 1
  pub get-incr :
      (k at : ℕ) (s : Store)
      → get k at (incr k at s).1
        ≡ some (record { number = number_of (get k at s) + 1; ends = ends_of (get k at s) })
  pub get-expire :
      (k ex at : ℕ) (s : Store) (c : Counter)
      → 1 ≤ ex
      → get k at s ≡ some c
      → get k at (expire k ex at s) ≡ some (record c { ends = some (at + ex) })
  -- A key stays as it is until its time is over.
  pub get-later :
      (k at later e : ℕ) (s : Store) (c : Counter)
      → get k at s ≡ some c
      → c.ends ≡ some e
      → at ≤ later
      → later < e
      → get k later s ≡ some c
  pub get-delete : (k at : ℕ) (s : Store) → get k at (delete k s) ≡ none

-- `max(int(ttl), 1)`
abbrev pub retry_after : ℤ → ℕ
retry_after (pos n) = if leb 1 n then n else 1
retry_after (negsuc _) = 1

module _ (redis : Counters) where
  open redis use {Store, incr, expire, ttl}

  -- The script: the number, the time that is left, and the store.
  unfoldable pub rate_limit_script : ℕ → ℕ → ℕ → Store → (ℕ × ℤ) × Store
  rate_limit_script key window_seconds at s =
      let (current, s1) = incr key at s in
      let s2 : Store = if current == 1 then expire key window_seconds at s1 else s1 in
      ((current, ttl key at s2), s2)

  unfoldable pub consume_rate_limit : ℕ → ℕ → ℕ → ℕ → Store → (Bool × ℕ) × Store
  unfolding rate_limit_script
  consume_rate_limit key limit window_seconds at s =
      let ((current, left), s') = rate_limit_script key window_seconds at s in
      ((leb current limit, retry_after left), s')

-- `rate_limit_key`; the digest of the text is a parameter.
unfoldable pub rate_limit_key : (Str → ℕ) → Str → ℕ
rate_limit_key digest identity = digest (lower (strip identity))

-- `settings.login_rate_limit_attempts` and `settings.login_rate_limit_window_seconds`
abbrev pub login_rate_limit_attempts : ℕ
login_rate_limit_attempts = 10

abbrev pub login_rate_limit_window_seconds : ℕ
login_rate_limit_window_seconds = 300
