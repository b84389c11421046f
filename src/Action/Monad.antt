-- ===== src/Action/Monad.antt =====
-- State and exceptions.
use rental_property.Base.{ℕ, ◌+◌, Bool, Option, none, some, if◌then◌else◌}
use rental_property.Models.{Db}
use rental_property.Action.Errors.{Error}

abbrev pub ⊤ : Type 0
⊤ = Unit

-- The clock stands still while one request is served: `now` is `datetime.now(timezone.utc)`,
-- `today` is `date.today()`. `next_uuid` is an id that is not in use.
pub record World : Type 0 where
  pub session : Db
  pub committed : Db
  pub now : ℕ
  pub today : ℕ
  pub next_uuid : ℕ

pub data Result (A : Type 0) : Type 0 where
  ok : A → Result A
  err : Error → Result A

abbrev pub Action : Type 0 → Type 0
Action A = World → Result A × World

module _ {A : Type 0} where
  abbrev pub pure : A → Action A
  pure a w = (ok a, w)

  abbrev pub raise : Error → Action A
  raise e w = (err e, w)

  -- A query.
  abbrev pub gets : (Db → A) → Action A
  gets f w = (ok (f w.session), w)

  abbrev pub or_raise : Error → Option A → Result A
  or_raise e none = err e
  or_raise e (some a) = ok a

  -- A query whose result must be there.
  abbrev pub get_or_raise : (Db → Option A) → Error → Action A
  get_or_raise f e w = (or_raise e (f w.session), w)

infixl 5 ◌>>=◌ ◌>>◌
abbrev pub ◌>>=◌ : {A B : Type 0} → Action A → (A → Action B) → Action B
◌>>=◌ m f w = let (r, w') = m w in elim r [ ok a ↦ f a w' | err e ↦ (err e, w') ]

abbrev pub ◌>>◌ : {B : Type 0} → Action ⊤ → Action B → Action B
m >> k = m >>= λ _. k

abbrev pub raise_if : Bool → Error → Action ⊤
raise_if c e w = (if c then err e else ok tt, w)

abbrev pub raise_unless : Bool → Error → Action ⊤
raise_unless c e w = (if c then ok tt else err e, w)

abbrev pub skip : Action ⊤
skip = pure tt

abbrev pub modify : (Db → Db) → Action ⊤
modify f w = (ok tt, record w { session = f w.session })

-- `db.commit()`
abbrev pub commit : Action ⊤
commit w = (ok tt, record w { committed = w.session })

-- `_utcnow()`, `utcnow()`, `_now()`
abbrev pub utcnow : Action ℕ
utcnow w = (ok w.now, w)

-- `date.today()`
abbrev pub today : Action ℕ
today w = (ok w.today, w)

-- `uuid.uuid4()`
abbrev pub uuid4 : Action ℕ
uuid4 w = (ok w.next_uuid, record w { next_uuid = w.next_uuid + 1 })

-- `get_db`: a request starts from the committed rows, and closing its session forgets the rest.
unfoldable pub run_request : {A : Type 0} → Action A → World → Result A × World
run_request m w =
    let (r, w') = m (record w { session = w.committed }) in
    (r, record w' { session = w'.committed })
