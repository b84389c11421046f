-- ===== src/Maintenance/Release.antt =====
-- bookings.py and maintenance.py each choose the status that a unit is released to.
use rental_property.Base.{◌≡◌, arith, by_option, first}
use rental_property.Models.{RentalUnit, UnitStatus}
use rental_property.Action.{World}
use rental_property.Bookings.{release_unit_after_failed_booking, is_notice_of}
use rental_property.Maintenance.Defs.{unit_status_after_booking_release, release_expired}

-- For a unit that waits for a booking, the worker's release of an expired booking and the release
-- of a rejected or cancelled one return the same unit and leave the same world.
pub release_expired-release_unit_after_failed_booking :
    (u : RentalUnit) (w : World)
    → u.status ≡ UnitStatus.booking_pending
    → release_expired u w ≡ release_unit_after_failed_booking u w
unfolding release_expired release_unit_after_failed_booking unit_status_after_booking_release
release_expired-release_unit_after_failed_booking u w h =
    by_option (first (is_notice_of u.id) w.session.tenancies) (λ e. ground arith)
      (λ n e. ground arith)
