-- ===== src/Clouds/Json.antt =====
-- The JSON library as the cloud storages use it. It is not in the repository: its documented calls are
-- a parameter, and what the code writes with them stands here. `none` of the parameter is a throw.
pub mod Gives
pub mod Lookups
use sync_harbor.Base.{ℕ, String, Bool, true, false, Option, none, some, List, if◌then◌else◌}
use sync_harbor.Database.Connection.{
  Result, ok, err, parse_failed, type_failed, undefined_behaviour,
}

-- `member` is `find` of an object, which may have no such member; `at_zero` is the first element of an
-- array, which may be empty; `elements` is the iteration.
pub record JsonValues : Type 1 where
  pub Json : Type 0
  pub parse : String → Option Json
  pub dump : Json → String
  pub null : Json
  pub string : String → Json
  pub boolean : Bool → Json
  pub array : List Json → Json
  pub object : List (String × Json) → Json
  pub is_null : Json → Bool
  pub is_empty : Json → Bool
  pub member : Json → String → Option (Option Json)
  pub at_zero : Json → Option (Option Json)
  pub elements : Json → List Json
  pub text : Json → Option String
  pub flag : Json → Option Bool
  pub number : Json → Option ℕ

-- What a reading that fails leaves out.
infixl 5 ◌then_read◌
abbrev pub ◌then_read◌ : {A B : Type 0} → Result A → (A → Result B) → Result B
ok a then_read f = f a
err e then_read f = err e

abbrev given : {A : Type 0} → Option A → Result A
given none = err type_failed
given (some a) = ok a

module _ (json : JsonValues) where
  open json use {Json}

  -- `json::parse(response)`
  unfoldable pub parsed : String → Result Json
  parsed response = elim (json.parse response) [ none ↦ err parse_failed | some j ↦ ok j ]

  -- `j.get<std::string>()`
  unfoldable pub get_text : Json → Result String
  get_text j = given (json.text j)

  -- `j.get<int>()`
  unfoldable pub get_number : Json → Result ℕ
  get_number j = given (json.number j)

  -- `j.contains(key)`
  unfoldable pub has_member : Json → String → Bool
  has_member j key = elim (json.member j key) [ some (some x) ↦ true | _ ↦ false ]

  -- `j[key]` of a json that may change: a null becomes an object, and a missing member a null.
  unfoldable pub index : Json → String → Result Json
  index j key = if json.is_null j then ok json.null else elim (json.member j key) [
    | none ↦ err type_failed
    | some none ↦ ok json.null
    | some (some x) ↦ ok x
  ]

  -- `j[key]` of a constant.
  unfoldable pub const_index : Json → String → Result Json
  const_index j key = elim (json.member j key) [
    | none ↦ err type_failed
    | some none ↦ err undefined_behaviour
    | some (some x) ↦ ok x
  ]

  -- `j[0]` of a constant.
  unfoldable pub const_first : Json → Result Json
  const_first j = elim (json.at_zero j) [
    | none ↦ err type_failed
    | some none ↦ err undefined_behaviour
    | some (some x) ↦ ok x
  ]

  -- `j[0]` of a json that may change.
  unfoldable pub first : Json → Result Json
  first j = if json.is_null j then ok json.null else elim (json.at_zero j) [
    | none ↦ err type_failed
    | some none ↦ ok json.null
    | some (some x) ↦ ok x
  ]

  -- `j.value(key, missing)`, with how the value is read.
  value_by : {A : Type 0} → (Json → Option A) → Json → String → A → Result A
  value_by read j key missing = elim (json.member j key) [
    | none ↦ err type_failed
    | some none ↦ ok missing
    | some (some x) ↦ given (read x)
  ]

  unfoldable pub value_text : Json → String → String → Result String
  unfolding value_by
  value_text = value_by json.text

  unfoldable pub value_flag : Json → String → Bool → Result Bool
  unfolding value_by
  value_flag = value_by json.flag

  unfoldable pub value_number : Json → String → ℕ → Result ℕ
  unfolding value_by
  value_number = value_by json.number
