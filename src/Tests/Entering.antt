-- ===== src/Tests/Entering.antt =====
-- An account is made, logs in, and is guessed at.
use rental_property.Base.{
  ℕ, ◌+◌, ◌≡◌, refl, true, none, some, List, [], ◌∷◌, arith, first, find, count,
}
use rental_property.Text.{Str, codes, strip, lower, str_eq}
use rental_property.Models.{User}
use rental_property.Action.{World, Result, Ensures, ok, err, too_many_logins}
use rental_property.Accounts.{
  LoginRequest, RegisterRequest, RegisterRole, TokenRead, login, register, get_current_user,
  verify_password, find_account, consume_rate_limit, rate_limit_script, token_response,
  create_access_token, rate_limit_key, open_session, create_user,
}
use rental_property.Accounts.Guesses.{Attempt, RefusedWithin, answers, refusals, login-refusals}
use rental_property.Accounts.Signing.{IsSignedIn, attempts, login-verified, get_current_user-login}
use rental_property.Accounts.Registering.{AccountsUnique, IsRegistered, register-AccountsUnique}
use rental_property.Tests.Data.{start, seeker}
use rental_property.Tests.Doubles.{counters, marked, signature, Held}

abbrev nothing_held : Held
nothing_held k = none

abbrev text_sum : Str → ℕ
text_sum [] = 0
text_sum (c ∷ s) = c + text_sum s

abbrev token_hash : ℕ → ℕ
token_hash n = n + 1

abbrev guess : ℕ → Attempt
guess at = record {
  form = record { identifier = codes " 58000002"; password = codes "12345678" };
  at = at;
  raw = 7;
  world = start;
}

-- The right password, too late.
abbrev late_guess : Attempt
late_guess = record {
  form = record { identifier = codes "58000002 "; password = codes "password" };
  at = 309;
  raw = 7;
  world = start;
}

abbrev guesses : List Attempt
guesses =
    guess 12
    ∷ guess 13
    ∷ guess 13
    ∷ guess 15
    ∷ guess 16
    ∷ guess 17
    ∷ guess 18
    ∷ guess 19
    ∷ guess 20
    ∷ late_guess
    ∷ []

guesses-RefusedWithin :
    RefusedWithin 1
      (answers counters marked text_sum token_hash signature (guess 10 ∷ guesses) nothing_held)
unfolding login consume_rate_limit rate_limit_script first str_eq strip lower rate_limit_key
    verify_password
guesses-RefusedWithin = (
  (λ early. (_, refl)),
  (
    (λ early. (_, refl)),
    (
      (λ early. (_, refl)),
      (
        (λ early. (_, refl)),
        (
          (λ early. (_, refl)),
          (
            (λ early. (_, refl)),
            (
              (λ early. (_, refl)),
              (
                (λ early. (_, refl)),
                (
                  (λ early. (_, refl)),
                  ((λ early. (_, refl)), ((λ late. absurd (omega (arith, late))), tt)),
                ),
              ),
            ),
          ),
        ),
      ),
    ),
  ),
)

login-refusals_example :
    answers counters marked text_sum token_hash signature (guess 10 ∷ guesses) nothing_held
    ≡ refusals 1 (guess 10 ∷ guesses)
unfolding strip
login-refusals_example =
    login-refusals counters marked text_sum token_hash signature (guess 10) guesses nothing_held
      refl
      (
        refl,
        ground arith,
        ground arith,
        (
          refl,
          ground arith,
          ground arith,
          (
            refl,
            ground arith,
            ground arith,
            (
              refl,
              ground arith,
              ground arith,
              (
                refl,
                ground arith,
                ground arith,
                (
                  refl,
                  ground arith,
                  ground arith,
                  (
                    refl,
                    ground arith,
                    ground arith,
                    (
                      refl,
                      ground arith,
                      ground arith,
                      (refl, ground arith, ground arith, (refl, ground arith, ground arith, tt)),
                    ),
                  ),
                ),
              ),
            ),
          ),
        ),
      )
      guesses-RefusedWithin

eleventh_limited : refusals 11 (guess 10 ∷ []) ≡ err too_many_logins ∷ []
eleventh_limited = refl

abbrev right_form : LoginRequest
right_form = record { identifier = codes "58000002 "; password = codes "password" }

abbrev entered : Result TokenRead × Held × World
entered = login counters marked text_sum token_hash signature right_form 10 7 nothing_held start

abbrev login_attempts : Held → ℕ
login_attempts =
    attempts counters marked text_sum token_hash signature right_form 10 7 nothing_held start

login-verified_example :
    Ensures
      (entered.0, entered.2)
      (λ t w'.
        (find_account (strip right_form.identifier) start.session ≡ some t.user)
        × (t.user.is_active ≡ true)
        × (verify_password marked right_form.password t.user.hashed_password ≡ true)
        × IsSignedIn token_hash t.user t.refresh_token start w'
        × (login_attempts entered.1 ≡ 0))
      (λ w'. (w' ≡ start) × (login_attempts entered.1 ≡ login_attempts nothing_held + 1))
login-verified_example =
    login-verified counters marked text_sum token_hash signature right_form 10 7 nothing_held start

abbrev seeker_tokens : TokenRead
seeker_tokens = token_response signature seeker 7 1000

entered_runs : entered.0 ≡ ok seeker_tokens
unfolding login consume_rate_limit rate_limit_script first str_eq strip lower rate_limit_key
    verify_password open_session token_response create_access_token
entered_runs = refl

abbrev later : World
later = record start { now = 5000000 }

get_current_user-login_example :
    get_current_user signature (some seeker_tokens.access_token) later ≡ (ok seeker, later)
unfolding token_response
get_current_user-login_example =
    get_current_user-login counters marked text_sum token_hash signature right_form 10 7
      nothing_held start seeker_tokens later seeker entered_runs (ground arith) (ground arith)
      (ground arith) (unfold find in refl) refl

abbrev newcomer : RegisterRequest
newcomer = record {
  email = some (codes " New@Example.org");
  phone = codes "58000005 ";
  display_name = codes "Newcomer";
  password = codes "password";
  role = RegisterRole.landlord;
}

-- Only the seeker has an account.
abbrev alone : World
alone = record start { session = record start.session { users = seeker ∷ [] } }

alone-AccountsUnique : AccountsUnique alone.session.users
unfolding count
alone-AccountsUnique = (λ e. ground arith, λ p. ground arith)

register-AccountsUnique_example :
    Ensures
      (register marked 3 newcomer alone)
      (λ u w'. IsRegistered marked newcomer u alone w' × AccountsUnique w'.committed.users)
      (λ w'. w'.committed ≡ alone.committed)
register-AccountsUnique_example =
    register-AccountsUnique marked 3 newcomer alone alone-AccountsUnique

newcomer_answers : (u : User) × ((register marked 3 newcomer alone).0 ≡ ok u)
unfolding register create_user first str_eq strip lower
newcomer_answers = (_, refl)
