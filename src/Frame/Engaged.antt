-- ===== src/Frame/Engaged.antt =====
-- The handlers of engagement.py, step by step.
use rental_property.Base.{ℕ, Option, none, some, refl, inr, arith}
use rental_property.Models.{User, Property, FavouriteProperty, ViewingRequest}
use rental_property.Action.{World, Keeps, Keeps-bind}
use rental_property.Engagement.{
  ViewingRequestCreate, ViewingDecision, add_favourite, save_favourite, remove_favourite,
  unsave_property, add_viewing, request_viewing, apply_decision, decidable_viewing, decide_viewing,
  apply_viewing_cancel, cancel_viewing,
}
use rental_property.Frame.Laws.{Lasting}
use rental_property.Frame.Tables.{commit-Keeps, notify-Keeps, save_viewing-Keeps}

module _ (P : World → Type 0) (laws : Lasting P) where
  idle : (w : World) → P w → P w
  idle w h = h

  add_favourite-Keeps :
      (found : Option FavouriteProperty) (id : ℕ) (user : User)
      → Keeps P (add_favourite found id user)
  unfolding add_favourite
  add_favourite-Keeps (some f) id user w h = h
  add_favourite-Keeps none id user w h =
      laws.aside w (add_favourite none id user w).1
        (refl, refl, refl, λ u. u, inr refl, omega arith) (refl, refl) refl h

  pub save_favourite-Keeps : (id : ℕ) (user : User) → Keeps P (save_favourite id user)
  unfolding save_favourite
  save_favourite-Keeps id user = search (Keeps-bind P, idle, add_favourite-Keeps)

  remove_favourite-Keeps : (found : Option FavouriteProperty) → Keeps P (remove_favourite found)
  unfolding remove_favourite
  remove_favourite-Keeps none w h = h
  remove_favourite-Keeps (some f) w h =
      laws.aside w (remove_favourite (some f) w).1 (refl, refl, refl, λ u. u, inr refl, omega arith)
        (refl, refl) refl h

  pub unsave_property-Keeps : (id : ℕ) (user : User) → Keeps P (unsave_property id user)
  unfolding unsave_property
  unsave_property-Keeps id user = search (Keeps-bind P, idle, remove_favourite-Keeps)

  add_viewing-Keeps :
      (p : Property) (payload : ViewingRequestCreate) (user : User)
      → Keeps P (add_viewing p payload user)
  unfolding add_viewing
  add_viewing-Keeps p payload user w h =
      laws.aside w (add_viewing p payload user w).1
        (refl, refl, refl, λ u. u, inr refl, omega arith) (refl, refl) refl h

  pub request_viewing-Keeps :
      (payload : ViewingRequestCreate) (user : User) → Keeps P (request_viewing payload user)
  unfolding request_viewing
  request_viewing-Keeps payload user = search (Keeps-bind P, idle, add_viewing-Keeps)

  apply_decision-Keeps :
      (row : ViewingRequest) (p : Property) (payload : ViewingDecision)
      → Keeps P (apply_decision row p payload)
  unfolding apply_decision
  apply_decision-Keeps row p payload =
      search
        (Keeps-bind P, idle, save_viewing-Keeps P laws, notify-Keeps P laws, commit-Keeps P laws)

  decidable_viewing-Keeps :
      (id : ℕ) (payload : ViewingDecision) (user : User)
      → Keeps P (decidable_viewing id payload user)
  unfolding decidable_viewing
  decidable_viewing-Keeps id payload user w h = ground arith

  pub decide_viewing-Keeps :
      (id : ℕ) (payload : ViewingDecision) (user : User) → Keeps P (decide_viewing id payload user)
  unfolding decide_viewing
  decide_viewing-Keeps id payload user =
      search (Keeps-bind P, idle, decidable_viewing-Keeps, apply_decision-Keeps)

  apply_viewing_cancel-Keeps :
      (row : ViewingRequest) (p : Property) → Keeps P (apply_viewing_cancel row p)
  unfolding apply_viewing_cancel
  apply_viewing_cancel-Keeps row p =
      search
        (Keeps-bind P, idle, save_viewing-Keeps P laws, notify-Keeps P laws, commit-Keeps P laws)

  pub cancel_viewing-Keeps : (id : ℕ) (user : User) → Keeps P (cancel_viewing id user)
  unfolding cancel_viewing
  cancel_viewing-Keeps id user =
      search (Keeps-bind P, idle, apply_viewing_cancel-Keeps) depth 12 fits 9000
