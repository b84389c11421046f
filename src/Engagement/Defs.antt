-- ===== src/Engagement/Defs.antt =====
-- The handlers of engagement.py.
use rental_property.Base.{
  ℕ, suc, Bool, false, ◌&&◌, ◌||◌, ◌==◌, Option, none, some, List, [], ◌∷◌, ◌++◌, find, put, first,
  delete_where, if◌then◌else◌, leb,
}
use rental_property.Models.{
  Db, User, UserRole, same_role, Property, PropertyStatus, same_property_status, RentalUnit,
  FavouriteProperty, ViewingRequest, ViewingStatus, same_viewing_status, NotificationType,
  PayloadItem, find_property, find_user,
}
use rental_property.Action.{
  Action, ⊤, ◌>>=◌, ◌>>◌, pure, gets, get_or_raise, modify, commit, utcnow, uuid4, raise_if,
  raise_unless, active_property_not_found, viewing_records_incomplete, viewing_not_found,
  viewing_property_missing, viewing_access_denied, viewing_finalized, viewing_time_past,
  viewing_closed,
}
use rental_property.Bookings.{require_roles, notify, bookable_status}
use rental_property.Tenancies.{managers}

-- `_property_or_404` of engagement.py: an active property.
abbrev pub find_active : ℕ → Db → Option Property
find_active k d = elim (find_property k d) [
  | none ↦ none
  | some p ↦ if same_property_status p.status PropertyStatus.active then some p else none
]

unfoldable pub active_property_or_404 : ℕ → Action Property
active_property_or_404 k = get_or_raise (find_active k) active_property_not_found

-- The rooms of a property that are offered.
abbrev pub is_offered : ℕ → RentalUnit → Bool
is_offered property_id u = u.property_id == property_id && bookable_status u.status

-- `func.min` over the offered rooms, which is null where there are none.
abbrev pub lower_rent : ℕ → Option ℕ → ℕ
lower_rent rent none = rent
lower_rent rent (some least) = if leb rent least then rent else least

unfoldable pub least_rent : ℕ → List RentalUnit → Option ℕ
unfolding bookable_status
least_rent property_id [] = none
least_rent property_id (u ∷ us) =
    let rest = least_rent property_id us in
    if is_offered property_id u then some (lower_rent u.monthly_rent rest) else rest

-- `func.count` over the offered rooms
unfoldable pub offered_rooms : ℕ → List RentalUnit → ℕ
unfolding bookable_status
offered_rooms property_id [] = 0
offered_rooms property_id (u ∷ us) =
    let rest = offered_rooms property_id us in if is_offered property_id u then suc rest else rest

-- `FavouriteRead`, without the texts and the picture
pub record FavouriteRead : Type 0 where
  pub property_id : ℕ
  pub monthly_rent : Option ℕ
  pub available_rooms : ℕ

abbrev pub is_favourite : ℕ → ℕ → FavouriteProperty → Bool
is_favourite user_id property_id f = f.user_id == user_id && f.property_id == property_id

unfoldable pub favourite_read : ℕ → Db → FavouriteRead
favourite_read property_id d = record {
  property_id = property_id;
  monthly_rent = least_rent property_id d.units;
  available_rooms = offered_rooms property_id d.units;
}

-- `if favourite is None: …`
unfoldable pub add_favourite : Option FavouriteProperty → ℕ → User → Action ⊤
add_favourite (some _) property_id user = pure tt
add_favourite none property_id user = do
  id ← uuid4
  let row : FavouriteProperty = record { id = id; user_id = user.id; property_id = property_id }
  modify λ d. record d { favourites = d.favourites ++ row ∷ [] }
  commit

unfoldable pub save_favourite : ℕ → User → Action FavouriteRead
unfolding active_property_or_404 add_favourite favourite_read
save_favourite property_id user = do
  property_row ← active_property_or_404 property_id
  favourite ← gets (λ d. first (is_favourite user.id property_id) d.favourites)
  add_favourite favourite property_id user
  gets (favourite_read property_row.id)

unfoldable pub remove_favourite : Option FavouriteProperty → Action ⊤
remove_favourite none = pure tt
remove_favourite (some f) = do
  modify λ d. record d { favourites = delete_where (λ r. r.id == f.id) d.favourites }
  commit

unfoldable pub unsave_property : ℕ → User → Action ⊤
unfolding remove_favourite
unsave_property property_id user = do
  favourite ← gets (λ d. first (is_favourite user.id property_id) d.favourites)
  remove_favourite favourite

-- `list_favourites`: a favourite whose property is not active is passed over. The newest is the
-- last row.
unfoldable pub favourites_of : ℕ → Db → List FavouriteProperty → List FavouriteRead
unfolding favourite_read
favourites_of user_id d [] = []
favourites_of user_id d (f ∷ fs) =
    let rest = favourites_of user_id d fs in
    if f.user_id == user_id
    then elim (find_active f.property_id d) [
      | none ↦ rest
      | some p ↦ rest ++ favourite_read p.id d ∷ []
    ]
    else rest

unfoldable pub list_favourites : User → Action (List FavouriteRead)
list_favourites user = gets λ d. favourites_of user.id d d.favourites

abbrev pub viewing_key : ViewingRequest → ℕ
viewing_key v = v.id

abbrev pub find_viewing : ℕ → Db → Option ViewingRequest
find_viewing k d = find viewing_key k d.viewings

unfoldable pub save_viewing : ViewingRequest → Action ⊤
save_viewing v = modify λ d. record d { viewings = put viewing_key v.id v d.viewings }

-- `_viewing_read`: the reply is the row, where its property and its requester are there.
unfoldable pub viewing_read : ViewingRequest → Action ViewingRequest
viewing_read row = do
  property_row ← get_or_raise (find_property row.property_id) viewing_records_incomplete
  requester ← get_or_raise (find_user row.requester_id) viewing_records_incomplete
  pure row

-- `ViewingRequestCreate`
pub record ViewingRequestCreate : Type 0 where
  pub property_id : ℕ
  pub preferred_at : ℕ

abbrev pub visitors : List UserRole
visitors = UserRole.house_seeker ∷ UserRole.tenant ∷ []

unfoldable pub add_viewing : Property → ViewingRequestCreate → User → Action ViewingRequest
unfolding notify
add_viewing property_row payload user = do
  id ← uuid4
  let row : ViewingRequest = record {
    id = id;
    property_id = property_row.id;
    requester_id = user.id;
    status = ViewingStatus.pending;
    preferred_at = payload.preferred_at;
    scheduled_at = none;
    reminder_sent_at = none;
  }
  modify λ d. record d { viewings = d.viewings ++ row ∷ [] }
  notify property_row.owner_id NotificationType.viewing_requested
      (PayloadItem.viewing_id row.id ∷ PayloadItem.property_id property_row.id ∷ [])
  commit
  pure row

unfoldable pub request_viewing : ViewingRequestCreate → User → Action ViewingRequest
unfolding require_roles active_property_or_404 add_viewing viewing_read
request_viewing payload user = do
  require_roles visitors user
  property_row ← active_property_or_404 payload.property_id
  row ← add_viewing property_row payload user
  viewing_read row

-- The `status` of `ViewingDecision`
pub data Decision : Type 0 where
  accepted declined rescheduled : Decision

abbrev pub decided_status : Decision → ViewingStatus
decided_status Decision.accepted = ViewingStatus.accepted
decided_status Decision.declined = ViewingStatus.declined
decided_status Decision.rescheduled = ViewingStatus.rescheduled

-- `ViewingDecision`
pub record ViewingDecision : Type 0 where
  pub status : Decision
  pub scheduled_at : Option ℕ

-- A viewing that still awaits a decision.
abbrev pub is_open_viewing : ViewingStatus → Bool
is_open_viewing s =
    same_viewing_status s ViewingStatus.pending || same_viewing_status s ViewingStatus.rescheduled

abbrev pub is_past : Option ℕ → ℕ → Bool
is_past none now = false
is_past (some at) now = leb at now

abbrev pub may_decide : User → Property → Bool
may_decide user p = same_role user.role UserRole.admin || p.owner_id == user.id

unfoldable pub apply_decision : ViewingRequest → Property → ViewingDecision → Action ViewingRequest
unfolding save_viewing notify
apply_decision row property_row payload = do
  let row' : ViewingRequest = record row {
    status = decided_status payload.status;
    scheduled_at = payload.scheduled_at;
    reminder_sent_at = none;
  }
  save_viewing row'
  notify row.requester_id NotificationType.viewing_updated
      (PayloadItem.viewing_id row.id ∷ PayloadItem.property_id property_row.id ∷ [])
  commit
  pure row'

-- The guards of a decision.
unfoldable pub decidable_viewing : ℕ → ViewingDecision → User → Action (ViewingRequest × Property)
unfolding require_roles
decidable_viewing viewing_id payload user = do
  require_roles managers user
  row ← get_or_raise (find_viewing viewing_id) viewing_not_found
  property_row ← get_or_raise (find_property row.property_id) viewing_property_missing
  raise_unless (may_decide user property_row) viewing_access_denied
  raise_unless (is_open_viewing row.status) viewing_finalized
  now ← utcnow
  raise_if (is_past payload.scheduled_at now) viewing_time_past
  pure (row, property_row)

unfoldable pub decide_viewing : ℕ → ViewingDecision → User → Action ViewingRequest
unfolding decidable_viewing apply_decision viewing_read
decide_viewing viewing_id payload user = do
  found ← decidable_viewing viewing_id payload user
  row' ← apply_decision found.0 found.1 payload
  viewing_read row'

abbrev pub is_closed_viewing : ViewingStatus → Bool
is_closed_viewing s =
    same_viewing_status s ViewingStatus.declined || same_viewing_status s ViewingStatus.cancelled

unfoldable pub apply_viewing_cancel : ViewingRequest → Property → Action ViewingRequest
unfolding save_viewing notify
apply_viewing_cancel row property_row = do
  let row' : ViewingRequest = record row { status = ViewingStatus.cancelled }
  save_viewing row'
  notify property_row.owner_id NotificationType.viewing_cancelled
      (PayloadItem.viewing_id row.id ∷ [])
  commit
  pure row'

unfoldable pub cancel_viewing : ℕ → User → Action ViewingRequest
unfolding apply_viewing_cancel viewing_read
cancel_viewing viewing_id user = do
  row ← get_or_raise (find_viewing viewing_id) viewing_not_found
  raise_unless (row.requester_id == user.id) viewing_access_denied
  raise_if (is_closed_viewing row.status) viewing_closed
  property_row ← get_or_raise (find_property row.property_id) viewing_property_missing
  row' ← apply_viewing_cancel row property_row
  viewing_read row'
