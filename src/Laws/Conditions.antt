-- ===== src/Laws/Conditions.antt =====
-- `meta.SetStatusCondition`: the condition of its type is set, and those of other types stay.
use frkr_operator.Base.{String, ◌==◌, false, Option, none, some, List, [], ◌∷◌, ◌≡◌, if◌then◌else◌}
use frkr_operator.Api.Meta.{Condition}
use frkr_operator.Platform.{Platform}

-- The first condition of a type.
abbrev pub find_condition : String → List Condition → Option Condition
find_condition type [] = none
find_condition type (c ∷ cs) = if c.type == type then some c else find_condition type cs

pub record ConditionLaws (P : Platform) : Type 0 where
  pub set_found :
      (s : P.State) (cs : List Condition) (c : Condition)
      → (found : Condition) × (find_condition c.type (P.set_status_condition s cs c) ≡ some found)
        × (found.status ≡ c.status)
        × (found.reason ≡ c.reason)
        × (found.message ≡ c.message)
  pub set_others :
      (s : P.State) (cs : List Condition) (c : Condition) (type : String)
      → (c.type == type) ≡ false
      → find_condition type (P.set_status_condition s cs c) ≡ find_condition type cs
