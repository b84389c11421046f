-- ===== src/Accounts/Guesses.antt =====
-- `login` of auth.py, again and again with one identifier.
use rental_property.Base.{
  inl, inr, Bool-cases, ℕ, ◌+◌, ◌<◌, ◌≤◌, ◌≡◌, refl, none, List, [], ◌∷◌, leb, if◌then◌else◌, arith,
  by_option,
}
use rental_property.Text.{Str, strip}
use rental_property.Action.{World, Result, err, Error, invalid_credentials, too_many_logins}
use rental_property.Accounts.Limits.{
  Counters, consume_rate_limit, rate_limit_key, login_rate_limit_attempts,
  login_rate_limit_window_seconds,
}
use rental_property.Accounts.Security.{PasswordHash, Signature}
use rental_property.Accounts.Defs.{LoginRequest, TokenRead, login, verified_account}
use rental_property.Accounts.Counting.{Opened, consume_rate_limit-first, consume_rate_limit-next}

-- A login with its second, the raw token that would be drawn and the database that it finds.
pub record Attempt : Type 0 where
  pub form : LoginRequest
  pub at : ℕ
  pub raw : ℕ
  pub world : World

abbrev pub IsRefused : Result TokenRead → Type 0
IsRefused r = (e : Error) × (r ≡ err e)

-- Of the answers, numbered from `n`, each that the limit lets through is a refusal.
abbrev pub RefusedWithin : ℕ → List (Result TokenRead) → Type 0
RefusedWithin n [] = Unit
RefusedWithin n (r ∷ rs) = (n ≤ login_rate_limit_attempts → IsRefused r) × RefusedWithin (n + 1) rs

-- What the `n`-th refusal of a window says.
abbrev pub refusal : ℕ → Result TokenRead
refusal n = if leb n login_rate_limit_attempts then err invalid_credentials else err too_many_logins

abbrev pub refusals : ℕ → List Attempt → List (Result TokenRead)
refusals n [] = []
refusals n (x ∷ xs) = refusal n ∷ refusals (n + 1) xs

module _ (redis : Counters) (passwords : PasswordHash) (digest : Str → ℕ) (hash_token : ℕ → ℕ)
    (jwt : Signature) where
  open redis use {Store, get, get-later}

  abbrev pub key_of : Attempt → ℕ
  key_of x = rate_limit_key digest (strip x.form.identifier)

  abbrev pub answer_login : Attempt → Store → Result TokenRead × Store × World
  answer_login x s = login redis passwords digest hash_token jwt x.form x.at x.raw s x.world

  -- The logins one after the other, and their answers; what goes on in the database between them is
  -- free.
  abbrev pub answers : List Attempt → Store → List (Result TokenRead)
  answers [] s = []
  answers (x ∷ xs) s = let (r, s', w') = answer_login x s in r ∷ answers xs s'

  -- For one key, in the order of time, before the window closes.
  abbrev pub InWindow : ℕ → ℕ → ℕ → List Attempt → Type 0
  InWindow k from e [] = Unit
  InWindow k from e (x ∷ xs) = (key_of x ≡ k) × (from ≤ x.at) × (x.at < e) × InWindow k x.at e xs

  login-refused :
      (x : Attempt) (n e : ℕ) (s : Store)
      → let limit = login_rate_limit_attempts in
        let (answer, s1) =
          consume_rate_limit redis (key_of x) limit login_rate_limit_window_seconds x.at s in
        (answer.0 ≡ leb n limit) × Opened redis (key_of x) n e x.at s1
        → (n ≤ login_rate_limit_attempts → IsRefused (answer_login x s).0)
        → let (r, s', w') = answer_login x s in
          (r ≡ refusal n) × Opened redis (key_of x) n e x.at s'
  unfolding login
  login-refused x n e s (allowed, opened) within =
      elim (Bool-cases (leb n login_rate_limit_attempts)) [
        | inl early ↦
            let (error, refused) = within (ground arith) in
            by_option (verified_account passwords x.form x.world.session)
              (λ missing. ground (arith, allowed, opened, early, missing))
              λ user there. ground (arith, allowed, opened, early, there, refused)
        | inr late ↦ ground (arith, allowed, opened, late)
      ]

  answers-refusals :
      (k n e from : ℕ) (xs : List Attempt) (s : Store)
      → 1 ≤ n
      → Opened redis k n e from s
      → InWindow k from e xs
      → RefusedWithin (n + 1) (answers xs s)
      → answers xs s ≡ refusals (n + 1) xs
  answers-refusals k n e from [] s some_before h window refused = refl
  answers-refusals k n e from (x ∷ xs) s some_before h (key, after, time, later) (first, rest) =
      let (r, s', w') = answer_login x s in
      let now : Opened redis (key_of x) n e x.at s =
        rw key (get-later k from x.at e s _ h refl after time) in
      let step =
        consume_rate_limit-next redis (key_of x) login_rate_limit_attempts
          login_rate_limit_window_seconds n e x.at s some_before now in
      let (answer, opened) = login-refused x (n + 1) e s step first in
      cc (
        answer,
        answers-refusals k (n + 1) e x.at xs s' (omega arith) (rw key at opened) later rest,
      )

  -- When the first ten logins of a window of 300 seconds with one identifier are refused, they are
  -- told that the credentials are wrong, and every further login of the window is refused too, for
  -- there were too many, also one with the right password, whatever the database holds at each of
  -- them, provided that no window was open and that nothing else is done to the identifier's key in
  -- Redis. The identifier may be spelled in several ways, as long as they have one key.
  pub login-refusals :
      (x : Attempt) (xs : List Attempt) (s : Store)
      → get (key_of x) x.at s ≡ none
      → InWindow (key_of x) x.at (x.at + login_rate_limit_window_seconds) xs
      → RefusedWithin 1 (answers (x ∷ xs) s)
      → answers (x ∷ xs) s ≡ refusals 1 (x ∷ xs)
  login-refusals x xs s new window (first, rest) =
      let e = x.at + login_rate_limit_window_seconds in
      let step =
        consume_rate_limit-first redis (key_of x) login_rate_limit_attempts
          login_rate_limit_window_seconds x.at s (omega arith) new in
      let (answer, opened) = login-refused x 1 e s step first in
      let (r, s', w') = answer_login x s in
      cc (answer, answers-refusals (key_of x) 1 e x.at xs s' (omega arith) opened window rest)
