-- ===== src/Examples/Editor.antt =====
-- The editor publishes a seat map for the bare shop.
use openseat.Base.{
  ℕ, ◌≡◌, refl, [], ◌∷◌, codes, map, any, text_eq, trim, trim_start, is_space, arith,
}
use openseat.Store.Returns.{Returns}
use openseat.SeatMaps.Create.{has_repeat, create}
use openseat.SeatMaps.Capacity.{SeatCapacity}
use openseat.Draft.{Section}
use openseat.Draft.Publish.{request, refused, publish, to_input, create-publish}
use openseat.Examples.Organizers.{bare_shop, manager_of_bare, no_map, no_seat, bare_capacity}

abbrev drawn : ℕ → Section
drawn id = record {
  id = id;
  name = codes " Front";
  tier_name = codes "Front zone ";
  price_satang = 500;
  rows = 2;
  cols = 3;
  x = 0;
  y = 0;
}

publish_test : publish (drawn 1 ∷ []) ≡ request (map to_input (drawn 1 ∷ []))
unfolding publish has_repeat any text_eq trim trim_start is_space
publish_test = refl

twice_test : publish (drawn 1 ∷ drawn 2 ∷ []) ≡ refused (codes "Section names must be distinct")
unfolding publish has_repeat any text_eq trim trim_start is_space
twice_test = refl

create-publish_example :
    Returns (create 1 9 (map to_input (drawn 1 ∷ [])) bare_shop) (λ _ s'. SeatCapacity s')
create-publish_example =
    create-publish 1 9 (drawn 1 ∷ []) (map to_input (drawn 1 ∷ [])) bare_shop publish_test
      manager_of_bare no_map no_seat (omega arith, tt) bare_capacity
