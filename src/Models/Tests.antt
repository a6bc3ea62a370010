-- ===== src/Models/Tests.antt =====
-- A model with a required and a default field; names are numbers.
use zerodb.Common.{ℕ, ◌≡◌, refl, Bool, true, false, none, some, List, [], ◌∷◌, is_some, ℕ_discrete}
use zerodb.Common.Result.{ok}
use zerodb.Models.{
  Member, indexable, value, used_fields, names_of, defaults, get_attr, needs, init, init_sets,
}

abbrev members : List (ℕ × Member ℕ)
members =
    (1, indexable (record { default = none; virtual = false; indexed = true }))
    ∷ (2, indexable (record { default = some (value 9); virtual = false; indexed = true }))
    ∷ []

abbrev nothing_private : ℕ → Bool
nothing_private n = false

abbrev given : List (ℕ × ℕ)
given = (1, 5) ∷ []

abbrev attributes : List (ℕ × ℕ)
attributes = (1, 5) ∷ (2, 9) ∷ []

init_test : init ℕ_discrete nothing_private members given ≡ ok attributes
unfolding init used_fields names_of defaults ℕ_discrete
init_test = refl

init_sets_example :
    (needs ℕ_discrete nothing_private 2 (used_fields ℕ_discrete nothing_private members) ≡ true
      → is_some (get_attr ℕ_discrete nothing_private attributes 2) ≡ true)
    × ((v : ℕ)
        → get_attr ℕ_discrete nothing_private given 2 ≡ some v
        → get_attr ℕ_discrete nothing_private attributes 2 ≡ some v)
init_sets_example = init_sets ℕ_discrete nothing_private members given attributes 2 init_test
