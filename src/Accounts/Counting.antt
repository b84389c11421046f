-- ===== src/Accounts/Counting.antt =====
-- `consume_rate_limit` inside a window, and the logins that it stops.
use rental_property.Base.{ℕ, ◌+◌, ◌≤◌, ◌≡◌, none, some, leb, arith}
use rental_property.Accounts.Limits.{Counters, number_of, rate_limit_script, consume_rate_limit}

module _ (redis : Counters) where
  open redis use {Store, get, incr-get, get-incr, get-expire}

  -- A window with `n` attempts in it, open until `e`.
  abbrev pub Opened : ℕ → ℕ → ℕ → ℕ → Store → Type 0
  Opened k n e at s = get k at s ≡ some (record { number = n; ends = some e })

  -- The first attempt opens a window.
  pub consume_rate_limit-first :
      (k limit seconds at : ℕ) (s : Store)
      → 1 ≤ seconds
      → get k at s ≡ none
      → let (answer, s') = consume_rate_limit redis k limit seconds at s in
        (answer.0 ≡ leb 1 limit) × Opened k 1 (at + seconds) at s'
  unfolding consume_rate_limit rate_limit_script
  consume_rate_limit-first k limit seconds at s lasts new =
      let one = incr-get k at s in
      let there = get-incr k at s in
      let held = get-expire k seconds at _ _ lasts there in ground (arith, new, one, there, held)

  -- A later one counts.
  pub consume_rate_limit-next :
      (k limit seconds n e at : ℕ) (s : Store)
      → 1 ≤ n
      → Opened k n e at s
      → let (answer, s') = consume_rate_limit redis k limit seconds at s in
        (answer.0 ≡ leb (n + 1) limit) × Opened k (n + 1) e at s'
  unfolding consume_rate_limit rate_limit_script
  consume_rate_limit-next k limit seconds n e at s some_before h =
      ground (arith, h, incr-get k at s, get-incr k at s)

  -- Every attempt counts.
  pub consume_rate_limit-counts :
      (k limit seconds at : ℕ) (s : Store)
      → 1 ≤ seconds
      → number_of (get k at (consume_rate_limit redis k limit seconds at s).1)
        ≡ number_of (get k at s) + 1
  unfolding consume_rate_limit rate_limit_script
  consume_rate_limit-counts k limit seconds at s lasts =
      let there = get-incr k at s in ground (arith, there, get-expire k seconds at _ _ lasts there)
