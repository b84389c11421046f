-- ===== src/Lib.antt =====
-- A model of the rental marketplace's backend (backend/app): how a unit is held, booked, paid for,
-- let, given notice on, left, inspected and offered again, and what the worker does meanwhile.
--
-- The parts, and where they are:
--   * Models (backend/app/models): the rows of the tables as records, the string enumerations as
--     data types, and `Db`, the tables as lists of rows. Base and Text carry the table queries and
--     Python's string operations that the code makes.
--   * Action: a request as a function from a world to a result and a world. A world has the session,
--     the committed database, the clock, the date and the next id; `commit` copies the session,
--     and an exception is a value. `run_request` is `get_db` (backend/app/core/database.py): what
--     was not committed is lost.
--   * Audit (backend/app/services/audit.py), Payments (backend/app/services/payments.py, with the
--     trigger of backend/alembic/versions/20260922_0013_release_rejected_payment_claims.py),
--     Bookings (backend/app/api/routes/bookings.py), Tenancies (backend/app/api/routes/tenancies.py)
--     and Maintenance (backend/app/services/maintenance.py): one function per handler, under the
--     source's names. A handler is its checks followed by a straight-line part (`apply_confirmation`
--     of `confirm_booking`, `move_in` of `activate_tenancy`), and Outcomes has an inversion lemma
--     for each: it was refused, or its checks held and the straight-line part ran.
--   * Sessions (backend/app/services/sessions.py): refresh tokens. The hash and the raw tokens that
--     are drawn are parameters.
--   * Accounts (backend/app/api/routes/auth.py, backend/app/api/dependencies.py, backend/app/core/rate_limit.py and
--     security.py): registration, login, the user of an access token. Redis's counters, the password
--     library and PyJWT are the records `Counters`, `PasswordHash` and `Signature` with laws; Text.Uuid
--     has the texts of the ids in a token.
--   * Listings (backend/app/api/routes/landlords.py, properties.py, advertising.py and admin.py):
--     the landlord's profile, properties and units, the advertising charge, and what an
--     administrator decides about them.
--   * Providers (backend/app/services/payment_providers.py, with the routes payment_webhooks.py and
--     payment_reconciliation.py): provider names and the registry, validation, the effect of a
--     reported payment, repeated deliveries, manual review. An adapter is a function from a body
--     and headers to an event or an error; it and the digest are parameters (`Gateway`).
--   * Engagement (backend/app/api/routes/engagement.py): saved properties and viewings.
--   * Frame: the requests of Listings, Providers and Engagement as one type with `answer`. `Lasting`
--     is the interface between their handlers and the invariants of bookings: an invariant that has
--     its two laws is kept by every one of these requests that leaves properties and charges alone,
--     and with the third law of `Blind` by all of them (`answer-Closes`).
--   * Requests: any sequence of requests of all these parts and runs of the worker. Occupancy,
--     Accounting, Progress and Adverts are about such sequences: a unit's status against its
--     bookings and tenancies, the ledger and the claims, the life of a booking, a property's
--     status against its advertising charge. `Steps` is the interface for a rule on the rows: what
--     the straight-line parts of the handlers have to keep, and Serving is what follows from it.
--   * Tests: runs on concrete rows.
--
-- Ids are numbers, instants are microseconds, dates are day numbers and amounts are cents; texts
-- are lists of code points, and case and blanks are those of ASCII. Requests
-- are served one after the other: the code locks the rows that it decides on (`with_for_update`),
-- and rows that others lock while the worker runs (`skip_locked`) are a parameter. Redis is the record
-- `Redis` of Bookings, with the laws of GET, SET NX EX and DEL; what Redis answers to a creation is a
-- parameter of the request. The loops are structural, so nothing runs on fuel. A row that the session
-- holds is written back by its key at each assignment.
--
-- Not modelled: titles, addresses and texts of notifications; the replies' titles and names; request
-- ids of audit events; HTTP and object storage; the spellings of an id that `uuid.UUID` takes beside
-- digits and dashes; and the parts of the backend that
-- have no module here (media, messaging, analytics, provisioning). The creation, the change
-- and the deletion of a unit are modelled in Listings, and are not among the requests of Requests.
pub mod Base
pub mod Text
pub mod Models
pub mod Action
pub mod Audit
pub mod Payments
pub mod Bookings
pub mod Maintenance
pub mod Tenancies
pub mod Occupancy
pub mod Listings
pub mod Providers
pub mod Engagement
pub mod Frame
pub mod Adverts
pub mod Requests
pub mod Accounting
pub mod Progress
pub mod Sessions
pub mod Accounts
mod Tests
