-- ===== src/Models.antt =====
-- models/__init__.py: the fields that `ModelMeta` collects of a class, and the constructor of
-- `Model`.
pub mod Catalog
pub mod Tests
use zerodb.Common.{
  ℕ, ◌≡◌, refl, Bool, true, false, not, ◌&&◌, ◌||◌, Option, none, some, List, [], ◌∷◌, ◌++◌,
  is_some, ite, if◌then◌else◌, arith, Bool-cases, Option-cases, List-cases, sym, inl, inr, map,
}
use zerodb.Common.Result.{Result, ok, err, ok-injective, model_exception}

-- A default: a value, or a function that is called.
pub data Default (V : Type 0) : Type 0 where
  value : V → Default V
  callable : (Unit {0} → V) → Default V

-- `fields.Indexable`; `virtual` says whether the field has a function.
pub record Indexable (V : Type 0) : Type 0 where
  pub default : Option (Default V)
  pub virtual : Bool
  pub indexed : Bool

-- An attribute of a class.
pub data Member (V : Type 0) : Type 0 where
  indexable : Indexable V → Member V
  other : Member V

module _ {Name V : Type 0} (dec : Discrete Name) (is_private : Name → Bool) where
  -- `used_fields`; `is_private` is `startswith("_")`
  unfoldable pub used_fields : List (Name × Member V) → List (Name × Indexable V)
  used_fields [] = []
  used_fields ((n, indexable f) ∷ dct) =
      let rest = used_fields dct in if is_private n then rest else (n, f) ∷ rest
  used_fields ((n, other) ∷ dct) = used_fields dct

  -- `_z_required_fields`, `_z_default_fields`, `_z_virtual_fields` and `_z_indexed_fields`
  abbrev pub is_required : Indexable V → Bool
  is_required f = not (is_some f.default) && not f.virtual

  abbrev pub is_default : Indexable V → Bool
  is_default f = is_some f.default && not f.virtual

  unfoldable pub names_of : (Indexable V → Bool) → List (Name × Indexable V) → List Name
  names_of test [] = []
  names_of test ((n, f) ∷ used) = let rest = names_of test used in if test f then n ∷ rest else rest

  abbrev pub get_attr : List (Name × V) → Name → Option V
  get_attr [] n = none
  get_attr ((m, v) ∷ attrs) n = ite (dec m n) (some v) (get_attr attrs n)

  -- `required.difference(kw)`
  abbrev pub difference : List Name → List (Name × V) → List Name
  difference [] kw = []
  difference (n ∷ l) kw = if is_some (get_attr kw n) then difference l kw else n ∷ difference l kw

  abbrev call_default : Default V → V
  call_default (value v) = v
  call_default (callable f) = f tt

  abbrev default_item : Name → Option (Default V) → List (Name × V) → List (Name × V)
  default_item n none rest = rest
  default_item n (some d) rest = (n, call_default d) ∷ rest

  -- the defaults that `kw` does not give
  unfoldable pub defaults : List (Name × Indexable V) → List (Name × V) → List (Name × V)
  defaults [] kw = []
  defaults ((n, f) ∷ used) kw =
      let rest = defaults used kw in
      if is_default f && not (is_some (get_attr kw n)) then default_item n f.default rest else rest

  abbrev init_with :
      List Name → List (Name × Indexable V) → List (Name × V) → Result (List (Name × V))
  init_with [] used kw = ok (kw ++ defaults used kw)
  init_with (n ∷ missed) used kw = err model_exception

  -- `Model.__init__(**kw)`: the attributes of the object, those of `kw` set last
  unfoldable pub init : List (Name × Member V) → List (Name × V) → Result (List (Name × V))
  unfolding used_fields names_of defaults
  init dct kw =
      let used = used_fields dct in init_with (difference (names_of is_required used) kw) used kw

  -- a field of this name that is not virtual
  abbrev pub needs : Name → List (Name × Indexable V) → Bool
  needs n [] = false
  needs n ((m, f) ∷ used) = (ite (dec m n) true false && not f.virtual) || needs n used

  get_attr-append :
      (xs ys : List (Name × V)) (n : Name)
      → get_attr (xs ++ ys) n ≡ (if is_some (get_attr xs n) then get_attr xs n else get_attr ys n)
  get_attr-append [] ys n = refl
  get_attr-append ((m, v) ∷ xs) ys n = ground (arith, get_attr-append xs ys n)

  given :
      (n : Name) (used : List (Name × Indexable V)) (kw : List (Name × V))
      → difference (names_of is_required used) kw ≡ []
      → needs n used ≡ true
      → (is_some (get_attr kw n) || is_some (get_attr (defaults used kw) n)) ≡ true
  unfolding names_of defaults
  given n [] kw d h = cc
  given n ((m, f) ∷ used) kw d h = elim (Option-cases f.default) [
    | inl e ↦ ground (arith, e, d, h, given n used kw)
    | inr (x, e) ↦ ground (arith, e, d, h, given n used kw)
  ]

  -- A constructor of a model that does not raise sets every field that is not virtual, and each
  -- given attribute to what is given.
  pub init_sets :
      (dct : List (Name × Member V)) (kw attrs : List (Name × V)) (n : Name)
      → init dct kw ≡ ok attrs
      → (needs n (used_fields dct) ≡ true → is_some (get_attr attrs n) ≡ true)
        × ((v : V) → get_attr kw n ≡ some v → get_attr attrs n ≡ some v)
  unfolding init
  init_sets dct kw attrs n h =
      elim (List-cases (difference (names_of is_required (used_fields dct)) kw)) [
        | inl e ↦
            let same : kw ++ defaults (used_fields dct) kw ≡ attrs = ok-injective (rw (e) at h) in
            (
              λ needed. ground (
                arith,
                sym same,
                get_attr-append kw (defaults (used_fields dct) kw) n,
                given n (used_fields dct) kw e needed,
              ),
              λ v at.
                  ground
                    (arith, sym same, at, get_attr-append kw (defaults (used_fields dct) kw) n),
            )
        | inr (m, missed, e) ↦ absurd (ground (arith, h, e))
      ]
