-- ===== src/Prelude/Json.antt =====
-- JavaScript values as the services meet them: what a JSON body or a job's data holds.
use Prim.Native.String.{String}
use backit_on_stellar.Prelude.Tests.{if◌then◌else◌}
use backit_on_stellar.Prelude.Text.{str_eq}
use Prim.Native.Nat.{ℕ}
use mathlib.Core.Bool.{Bool}
use mathlib.Core.List.{List}

-- A number is the bit pattern of a double, a text the list of its UTF-16 code units. The fields of
-- an object stand in the order of `Object.entries`.
mutual
  pub data Fields : Type 0 where
    end : Fields
    field : String → Value → Fields → Fields

  pub data Items : Type 0 where
    no_items : Items
    item : Value → Items → Items

  pub data Value : Type 0 where
    undefined null : Value
    bool : Bool → Value
    num : ℕ → Value
    str : List ℕ → Value
    arr : Items → Value
    obj : Fields → Value

-- `o[k]`, which is `undefined` for a missing key.
unfoldable pub get : Fields → String → Value
get end k = undefined
get (field j v fs) k = let rest = get fs k in if str_eq j k then v else rest
