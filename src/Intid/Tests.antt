-- ===== src/Intid/Tests.antt =====
-- An id store over association lists, with objects that are numbers.
use zerodb.Common.{ℕ, ◌≡◌, refl, [], ◌∷◌, none, some, if◌then◌else◌, ◌==◌, ℕ_discrete}
use zerodb.Common.Int.{pos}
use zerodb.BTrees.{TreeModule, assoc_trees}
use zerodb.BTrees.Assoc.{lookup, size}
use zerodb.Intid.{absent, assigned, World, new_store, add}
use zerodb.Intid.Laws.{Added, add_adds}

abbrev trees : TreeModule ℕ
trees = assoc_trees ℕ_discrete

abbrev world : World trees ℕ
world = record { store = new_store trees ℕ; p_uid = λ o. absent }

add_adds_example :
    (uid : ℕ) × (w : World trees ℕ) × (add ℕ_discrete 100 7 (42 ∷ []) world ≡ some (uid, w))
    × Added ℕ_discrete 7 uid world w
unfolding lookup size
add_adds_example = add_adds ℕ_discrete 100 7 (42 ∷ []) 42 world refl refl refl

-- the object 7 under the id 42
abbrev one_object : World trees ℕ
one_object = record {
  store = record { tree = trees.put (trees.empty ℕ) 42 7; length = some (pos 1); v_nextid = none };
  p_uid = λ o. if o == 7 then assigned 42 else absent;
}
