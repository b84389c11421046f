-- ===== src/Tests/Engaging.antt =====
-- The house, saved by the seeker.
use rental_property.Base.{◌≡◌, refl, some, find, first}
use rental_property.Action.{Ensures, ok}
use rental_property.Engagement.{find_active, is_favourite, save_favourite, unsave_property}
use rental_property.Engagement.Favourites.{
  new_favourite, save_favourite-again, unsave_property-save_favourite,
}
use rental_property.Tests.Data.{start, seeker, house}

save_favourite-again_example :
    Ensures
      (save_favourite 10 seeker start)
      (λ reply w'. save_favourite 10 seeker w' ≡ (ok reply, w'))
      (λ w'. w' ≡ start)
save_favourite-again_example = save_favourite-again 10 seeker start

house_is_active : find_active 10 start.session ≡ some house
unfolding find
house_is_active = refl

unsave_property-save_favourite_example :
    let w' = (save_favourite 10 seeker start).1 in
    let w'' = (unsave_property 10 seeker w').1 in
    (first (is_favourite 2 10) w'.committed.favourites ≡ some (new_favourite 10 seeker start))
    × (w''.session.favourites ≡ start.session.favourites)
    × (w''.committed ≡ w''.session)
unfolding first
unsave_property-save_favourite_example =
    unsave_property-save_favourite 10 seeker house start house_is_active refl refl
