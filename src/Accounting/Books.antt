-- ===== src/Accounting/Books.antt =====
-- The balance of the ledger, and one posting to it.
use rental_property.Base.{
  ℕ, ◌+◌, ◌≤◌, ◌≡◌, ◌⊎◌, inl, inr, ◌&&◌, ◌==◌, List, [], ◌∷◌, ◌++◌, arith, if◌then◌else◌, count,
  first, first-none, one_if, is_some, by_option, ==_refl,
}
use rental_property.Models.{
  Db, Booking, BookingPayment, LedgerEntry, LedgerDirection, Account, same_direction,
}
use rental_property.Action.{World}
use rental_property.Payments.{ClaimsUnique}
use rental_property.Bookings.{is_entry_of, ledger_entry}

-- The amounts of one booking's entries in one direction.
unfoldable pub total : ℕ → LedgerDirection → List LedgerEntry → ℕ
total k dir [] = 0
total k dir (e ∷ es) =
    (if e.booking_id == k && same_direction e.direction dir then e.amount else 0) + total k dir es

-- For every booking the debits are the credits, and there are at most the two entries of one
-- posting.
abbrev pub LedgerPaired : List LedgerEntry → Type 0
LedgerPaired es =
    (k : ℕ)
    → (total k LedgerDirection.debit es ≡ total k LedgerDirection.credit es)
      × (count (is_entry_of k) es ≤ 2)

-- Every posting is paired, and no payment reference is claimed twice.
abbrev pub BooksBalance : Db → Type 0
BooksBalance d = LedgerPaired d.ledger × ClaimsUnique d

abbrev pub Balanced : World → Type 0
Balanced w = BooksBalance w.session × BooksBalance w.committed

-- The ledger after a confirmation.
abbrev pub posted : Booking → BookingPayment → List LedgerEntry → List LedgerEntry
posted b p es =
    if is_some (first (is_entry_of b.id) es)
    then es
    else es
      ++ (ledger_entry b p Account.platform_clearing LedgerDirection.debit
          ∷ ledger_entry b p Account.booking_funds_held LedgerDirection.credit
          ∷ [])

total-append :
    (k : ℕ) (dir : LedgerDirection) (e f : LedgerEntry) (es : List LedgerEntry)
    → total k dir (es ++ e ∷ f ∷ []) ≡ total k dir es + total k dir (e ∷ f ∷ [])
unfolding total
total-append k dir e f [] = ground arith
total-append k dir e f (x ∷ es) = ground (arith, total-append k dir e f es)

count-append_pair :
    (k : ℕ) (e f : LedgerEntry) (es : List LedgerEntry)
    → count (is_entry_of k) (es ++ e ∷ f ∷ [])
      ≡ count (is_entry_of k) es + (one_if (is_entry_of k e) + one_if (is_entry_of k f))
unfolding count
count-append_pair k e f [] = ground arith
count-append_pair k e f (x ∷ es) = ground (arith, count-append_pair k e f es)

pub posted-LedgerPaired :
    (b : Booking) (p : BookingPayment) (es : List LedgerEntry)
    → LedgerPaired es
    → LedgerPaired (posted b p es)
unfolding total
posted-LedgerPaired b p es h k =
    let debit = ledger_entry b p Account.platform_clearing LedgerDirection.debit in
    let credit = ledger_entry b p Account.booking_funds_held LedgerDirection.credit in
    by_option (first (is_entry_of b.id) es)
      (λ e. rw e (
        ground (
          arith,
          h k,
          total-append k LedgerDirection.debit debit credit es,
          total-append k LedgerDirection.credit debit credit es,
          count-append_pair k debit credit es,
          first-none (is_entry_of b.id) es e,
          ==_refl b.id,
        )))
      (λ x e. rw e (h k))

-- A world whose ledger and claims are those of `w`, committed or not.
abbrev pub SameBooks : World → World → Type 0
SameBooks w w' =
    (w'.session.ledger ≡ w.session.ledger)
    × (w'.session.claims ≡ w.session.claims)
    × ((w'.committed ≡ w'.session) ⊎ (w'.committed ≡ w.committed))

pub SameBooks-Balanced : (w w' : World) → SameBooks w w' → Balanced w → Balanced w'
SameBooks-Balanced w w' (ledger, claims, inl e) h =
    let kept : BooksBalance w'.session = rw (ledger, claims) h.0 in (kept, rw e kept)
SameBooks-Balanced w w' (ledger, claims, inr e) h = (rw (ledger, claims) h.0, rw e h.1)
