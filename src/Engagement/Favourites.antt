-- ===== src/Engagement/Favourites.antt =====
-- The saved properties of engagement.py.
use rental_property.Base.{
  ℕ, ◌+◌, ◌≡◌, refl, Bool, true, ◌==◌, none, some, List, [], ◌∷◌, ◌++◌, arith, first, delete_where,
  first-append_new, by_option, ==_refl,
}
use rental_property.Models.{Db, User, Property, FavouriteProperty}
use rental_property.Action.{World, ok, err, Ensures, active_property_not_found}
use rental_property.Engagement.Defs.{
  favourite_read, find_active, is_favourite, save_favourite, unsave_property,
}

delete_where-append_new :
    {R : Type 0} (test : R → Bool) (v : R) (rs : List R)
    → first test rs ≡ none
    → test v ≡ true
    → delete_where test (rs ++ v ∷ []) ≡ rs
unfolding first delete_where
delete_where-append_new test v [] h e = ground arith
delete_where-append_new test v (x ∷ rs) h e = ground (arith, delete_where-append_new test v rs)

module _ (id : ℕ) (user : User) (w : World) where
  -- The row that a first save adds.
  abbrev pub new_favourite : FavouriteProperty
  new_favourite = record { id = w.next_uuid; user_id = user.id; property_id = id }

  abbrev with_favourite : Db
  with_favourite = record w.session { favourites = w.session.favourites ++ new_favourite ∷ [] }

  abbrev saved : World
  saved = record w {
    session = with_favourite;
    committed = with_favourite;
    next_uuid = w.next_uuid + 1;
  }

  save_favourite-new :
      (p : Property)
      → find_active id w.session ≡ some p
      → first (is_favourite user.id id) w.session.favourites ≡ none
      → save_favourite id user w ≡ (ok (favourite_read p.id w.session), saved)
  unfolding save_favourite
  save_favourite-new p fp new = ground arith

  save_favourite-old :
      (p : Property) (f : FavouriteProperty)
      → find_active id w.session ≡ some p
      → first (is_favourite user.id id) w.session.favourites ≡ some f
      → save_favourite id user w ≡ (ok (favourite_read p.id w.session), w)
  unfolding save_favourite
  save_favourite-old p f fp old = ground arith

  save_favourite-missing :
      find_active id w.session ≡ none
      → save_favourite id user w ≡ (err active_property_not_found, w)
  unfolding save_favourite
  save_favourite-missing fp = ground arith

  new_favourite-is_favourite : is_favourite user.id id new_favourite ≡ true
  new_favourite-is_favourite = ground (arith, ==_refl user.id, ==_refl id)

  unsave_property-old :
      (f : FavouriteProperty)
      → first (is_favourite user.id id) w.session.favourites ≡ some f
      → let d = record w.session {
        favourites = delete_where (λ r. r.id == f.id) w.session.favourites;
      } in
        unsave_property id user w ≡ (ok tt, record w { session = d; committed = d })
  unfolding unsave_property
  unsave_property-old f old = rw old refl

-- Saving a property twice is saving it once: the second save gives the same answer and changes
-- nothing, and a save that is refused has changed nothing.
pub save_favourite-again :
    (id : ℕ) (user : User) (w : World)
    → Ensures
        (save_favourite id user w)
        (λ reply w'. save_favourite id user w' ≡ (ok reply, w'))
        (λ w'. w' ≡ w)
unfolding favourite_read
save_favourite-again id user w =
    by_option (find_active id w.session) (λ e. rw (save_favourite-missing id user w e) refl)
      λ p fp.
        by_option (first (is_favourite user.id id) w.session.favourites)
          (λ new.
            let there =
              first-append_new (is_favourite user.id id) (new_favourite id user w)
                w.session.favourites new (new_favourite-is_favourite id user w) in
            rw (save_favourite-new id user w p fp new)
              (save_favourite-old id user (saved id user w) p (new_favourite id user w) fp there))
          λ f old.
            rw (save_favourite-old id user w p f fp old) (save_favourite-old id user w p f fp old)

-- A property that was saved for the first time and is taken off the list again leaves the saved
-- properties as they were, all of it committed, provided that no saved property has the new row's
-- id.
pub unsave_property-save_favourite :
    (id : ℕ) (user : User) (p : Property) (w : World)
    → find_active id w.session ≡ some p
    → first (is_favourite user.id id) w.session.favourites ≡ none
    → first (λ r. r.id == w.next_uuid) w.session.favourites ≡ none
    → let w' = (save_favourite id user w).1 in
      let w'' = (unsave_property id user w').1 in
      (first (is_favourite user.id id) w'.committed.favourites ≡ some (new_favourite id user w))
      × (w''.session.favourites ≡ w.session.favourites)
      × (w''.committed ≡ w''.session)
unsave_property-save_favourite id user p w fp new fresh =
    let row = new_favourite id user w in
    let there =
      first-append_new (is_favourite user.id id) row w.session.favourites new
        (new_favourite-is_favourite id user w) in
    let back =
      delete_where-append_new (λ r. r.id == w.next_uuid) row w.session.favourites fresh
        (==_refl w.next_uuid) in
    rw
      (
        save_favourite-new id user w p fp new,
        unsave_property-old id user (saved id user w) row there,
      )
      (there, back, refl)
