-- ===== src/Adverts/Requests.antt =====
-- The rule over any sequence of requests.
use rental_property.Base.{List}
use rental_property.Action.{World}
use rental_property.Payments.{with_claims}
use rental_property.Bookings.{
  book_unit, start_review, apply_cancellation, apply_confirmation, apply_rejection,
}
use rental_property.Tenancies.{move_in, apply_notice, apply_end, apply_inspection}
use rental_property.Maintenance.{expire_booking, remind}
use rental_property.Requests.{Request, serve_all}
use rental_property.Requests.Steps.{Steps}
use rental_property.Requests.Serving.{serve_all-Both}
use rental_property.Adverts.Writes.{Advertised}
use rental_property.Adverts.Side.{answer-Advertised}
use rental_property.Adverts.Unchanged.{
  SameListings-Advertised, book_unit-SameListings, start_review-SameListings,
  apply_cancellation-SameListings, apply_confirmation-SameListings, apply_rejection-SameListings,
  move_in-SameListings, apply_notice-SameListings, apply_end-SameListings,
  apply_inspection-SameListings, expire_booking-SameListings, remind-SameListings,
}

Advertised-Steps : Steps Advertised
Advertised-Steps = record {
  created = λ u q date user w.
      SameListings-Advertised w (book_unit u q date user w).1
        (book_unit-SameListings u q date user w);
  cancelled = λ b user w.
      SameListings-Advertised w (apply_cancellation b user w).1
        (apply_cancellation-SameListings b user w);
  confirmed = λ b p u q text admin w.
      SameListings-Advertised w (apply_confirmation b p u q text admin w).1
        (apply_confirmation-SameListings b p u q text admin w);
  rejected = λ b p u text admin w.
      SameListings-Advertised w (apply_rejection b p u text admin w).1
        (apply_rejection-SameListings b p u text admin w);
  moved_in = λ b u q tenant user w.
      SameListings-Advertised w (move_in b u q tenant user w).1
        (move_in-SameListings b u q tenant user w);
  noticed = λ t u q form user w.
      SameListings-Advertised w (apply_notice t u q form user w).1
        (apply_notice-SameListings t u q form user w);
  ended = λ t u q user w.
      SameListings-Advertised w (apply_end t u q user w).1 (apply_end-SameListings t u q user w);
  inspected = λ t u q user w.
      SameListings-Advertised w (apply_inspection t u q user w).1
        (apply_inspection-SameListings t u q user w);
  expired =
      λ b w. SameListings-Advertised w (expire_booking b w).1 (expire_booking-SameListings b w);
  reminded = λ now v w. SameListings-Advertised w (remind now v w).1 (remind-SameListings now v w);
  reviewed = λ b p m r user w c cs e (here, there).
      SameListings-Advertised (with_claims cs w) (start_review b p m r user (with_claims cs w)).1
        (start_review-SameListings b p m r user (with_claims cs w)) (here, there);
  answered = answer-Advertised;
}

-- Whatever requests come in whatever order, every committed property that is active has an
-- advertising charge that was paid or waived, and no property has two charges, provided that this
-- held before them.
pub serve_all-Advertised :
    (rs : List Request) (w : World) → Advertised w.committed → Advertised (serve_all rs w).committed
serve_all-Advertised = serve_all-Both Advertised Advertised-Steps
