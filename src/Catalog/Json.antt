-- ===== src/Catalog/Json.antt =====
-- catalog/query_json.py: queries from JSON documents. What the classes of the operators check of
-- their arguments is zerodbext.catalog's, so that a compiled query shows the call that is made.
use zerodb.Common.{ℕ, ◌≡◌, refl}
use zerodb.Common.Result.{
  Result, ok, err, ◌>>=◌, key_error, assertion_error, attribute_error, type_error,
}

pub data Logical : Type 0 where
  and_op or_op not_op : Logical

pub data Operator : Type 0 where
  eq ne lt lte gt gte range nrange text ntext in_ all nany nin : Operator

-- The classes of catalog/query.py that the tables name.
pub data Connective : Type 0 where
  and_class or_class not_class : Connective

pub data Comparison : Type 0 where
  eq_class not_eq_class lt_class le_class gt_class ge_class : Comparison
  in_range_class not_in_range_class contains_class does_not_contain_class : Comparison
  any_class all_class not_any_class not_all_class : Comparison

unfoldable pub logical_operators : Logical → Connective
logical_operators and_op = and_class
logical_operators or_op = or_class
logical_operators not_op = not_class

unfoldable pub field_operators : Operator → Comparison
field_operators eq = eq_class
field_operators ne = not_eq_class
field_operators lt = lt_class
field_operators lte = le_class
field_operators gt = gt_class
field_operators gte = ge_class
field_operators range = in_range_class
field_operators nrange = not_in_range_class
field_operators text = contains_class
field_operators ntext = does_not_contain_class
field_operators in_ = any_class
field_operators all = all_class
field_operators nany = not_any_class
field_operators nin = not_all_class

-- the operator that asks for a class, by what the class is called
abbrev pub connective_key : Connective → Logical
connective_key and_class = and_op
connective_key or_class = or_op
connective_key not_class = not_op

abbrev pub comparison_key : Comparison → Operator
comparison_key eq_class = eq
comparison_key not_eq_class = ne
comparison_key lt_class = lt
comparison_key le_class = lte
comparison_key gt_class = gt
comparison_key ge_class = gte
comparison_key in_range_class = range
comparison_key not_in_range_class = nrange
comparison_key contains_class = text
comparison_key does_not_contain_class = ntext
comparison_key any_class = in_
comparison_key all_class = all
comparison_key not_any_class = nany
comparison_key not_all_class = nin

logical_operators_key : (c : Connective) → logical_operators (connective_key c) ≡ c
unfolding logical_operators
logical_operators_key and_class = refl
logical_operators_key or_class = refl
logical_operators_key not_class = refl

field_operators_key : (c : Comparison) → field_operators (comparison_key c) ≡ c
unfolding field_operators
field_operators_key eq_class = refl
field_operators_key not_eq_class = refl
field_operators_key lt_class = refl
field_operators_key le_class = refl
field_operators_key gt_class = refl
field_operators_key ge_class = refl
field_operators_key in_range_class = refl
field_operators_key not_in_range_class = refl
field_operators_key contains_class = refl
field_operators_key does_not_contain_class = refl
field_operators_key any_class = refl
field_operators_key all_class = refl
field_operators_key not_any_class = refl
field_operators_key not_all_class = refl

-- A key of a document: `$and`, `$or` and `$not`, the field operators, and anything else.
pub data Key (Name : Type 0) : Type 0 where
  logical : Logical → Key Name
  operator : Operator → Key Name
  name : Name → Key Name

-- A deserialized document. `scalar` stands for what is neither a list nor a dictionary.
mutual
  pub data Json (Name : Type 0) : Type 0 where
    dict : Fields Name → Json Name
    list : Items Name → Json Name
    scalar : ℕ → Json Name

  pub data Fields (Name : Type 0) : Type 0 where
    no_fields : Fields Name
    field : Key Name → Json Name → Fields Name → Fields Name

  pub data Items (Name : Type 0) : Type 0 where
    no_items : Items Name
    item : Json Name → Items Name → Items Name

-- The calls `And(*queries)` and so on, and `Eq(field, *params)` and so on.
mutual
  pub data Compiled (Name : Type 0) : Type 0 where
    logic : Connective → Arguments Name → Compiled Name
    comparison : Comparison → Key Name → Items Name → Compiled Name

  pub data Arguments (Name : Type 0) : Type 0 where
    no_arguments : Arguments Name
    argument : Compiled Name → Arguments Name → Arguments Name

module _ {Name : Type 0} where
  abbrev as_list : Json Name → Items Name
  as_list (list items) = items
  as_list params = item params no_items

  -- `field_operators[opkey](key, *params)`
  unfoldable compile_operator : Key Name → Key Name → Json Name → Result (Compiled Name)
  unfolding field_operators
  compile_operator key (operator op) params =
      ok (comparison (field_operators op) key (as_list params))
  compile_operator key _ params = err key_error

  -- the document of a field
  unfoldable compile_field : Key Name → Json Name → Result (Compiled Name)
  unfolding compile_operator
  compile_field key (dict (field opkey params no_fields)) = compile_operator key opkey params
  compile_field key _ = err assertion_error

  -- `compile(q)`: `len` and `iterkeys` of what is not a dictionary raise; a key that is not a
  -- logical operator is taken for a field
  unfoldable mutual
    unfolding compile_field logical_operators

    pub compile : Json Name → Result (Compiled Name)
    compile (dict (field (logical op) (list items) no_fields)) = do
      arguments ← compile_items items
      ok (logic (logical_operators op) arguments)
    compile (dict (field (logical op) q no_fields)) = do
      query ← compile q
      ok (logic (logical_operators op) (argument query no_arguments))
    compile (dict (field key q no_fields)) = compile_field key q
    compile (dict _) = err assertion_error
    compile (list (item q no_items)) = err attribute_error
    compile (list items) = err assertion_error
    compile (scalar n) = err type_error

    pub compile_items : Items Name → Result (Arguments Name)
    compile_items no_items = ok no_arguments
    compile_items (item q items) = do
      query ← compile q
      arguments ← compile_items items
      ok (argument query arguments)

  -- one parameter without a list around it
  pub data IsSingle : Json Name → Type 0 where
    of_scalar : {n : ℕ} → IsSingle (scalar n)
    of_dict : {fields : Fields Name} → IsSingle (dict fields)

  abbrev named : Name → Operator → Json Name → Json Name
  named n op params = dict (field (name n) (dict (field (operator op) params no_fields)) no_fields)

  -- The documents of a query: a single argument or parameter may stand with or without a list.
  mutual
    pub data Spells : Json Name → Compiled Name → Type 0 where
      with_list :
          {items : Items Name} {arguments : Arguments Name} (c : Connective)
          → SpellAll items arguments
          → Spells
              (dict (field (logical (connective_key c)) (list items) no_fields))
              (logic c arguments)
      with_one :
          {fields : Fields Name} {q : Compiled Name} (c : Connective)
          → Spells (dict fields) q
          → Spells
              (dict (field (logical (connective_key c)) (dict fields) no_fields))
              (logic c (argument q no_arguments))
      compares :
          (c : Comparison) (n : Name) (params : Items Name)
          → Spells (named n (comparison_key c) (list params)) (comparison c (name n) params)
      compares_one :
          {param : Json Name} (c : Comparison) (n : Name)
          → IsSingle param
          → Spells (named n (comparison_key c) param) (comparison c (name n) (item param no_items))

    pub data SpellAll : Items Name → Arguments Name → Type 0 where
      nothing : SpellAll no_items no_arguments
      also :
          {j : Json Name} {q : Compiled Name} {items : Items Name} {arguments : Arguments Name}
          → Spells j q
          → SpellAll items arguments
          → SpellAll (item j items) (argument q arguments)

  mutual
    unfolding compile compile_items compile_field compile_operator

    compile-Spells' : {j : Json Name} {q : Compiled Name} → Spells j q → compile j ≡ ok q
    compile-Spells' (with_list c rest) =
        rw (compile_items-SpellAll rest, logical_operators_key c) refl
    compile-Spells' (with_one c one) = rw (compile-Spells' one, logical_operators_key c) refl
    compile-Spells' (compares c n params) = rw (field_operators_key c) refl
    compile-Spells' (compares_one c n of_scalar) = rw (field_operators_key c) refl
    compile-Spells' (compares_one c n of_dict) = rw (field_operators_key c) refl

    compile_items-SpellAll :
        {items : Items Name} {arguments : Arguments Name}
        → SpellAll items arguments
        → compile_items items ≡ ok arguments
    compile_items-SpellAll nothing = refl
    compile_items-SpellAll (also one rest) =
        rw (compile-Spells' one, compile_items-SpellAll rest) refl

  -- A document that spells a query, with each operator the one that is named after the query's
  -- class, and with single arguments and parameters in a list or not, compiles to the query.
  pub compile-Spells : {j : Json Name} {q : Compiled Name} → Spells j q → compile j ≡ ok q
  compile-Spells s = compile-Spells' s
