-- ===== src/Run/Json.antt =====
-- JSON values as `JSON.parse` gives them: the keys of an object are distinct, in order. `N` is the
-- type of numbers.
use arivion.Prelude.{String, Bool, Option, none, some, str_eq, if◌then◌else◌}

mutual
  pub data Json (N : Type 0) : Type 0 where
    null : Json N
    bool : Bool → Json N
    num : N → Json N
    str : String → Json N
    arr : Items N → Json N
    obj : Fields N → Json N

  pub data Items (N : Type 0) : Type 0 where
    end : Items N
    item : Json N → Items N → Items N

  pub data Fields (N : Type 0) : Type 0 where
    empty : Fields N
    field : String → Json N → Fields N → Fields N

-- an own property; none is `undefined`
unfoldable pub own : {N : Type 0} → String → Fields N → Option (Json N)
own key empty = none
own key (field k v fs) = if str_eq k key then some v else own key fs
