-- ===== src/Common/Json.antt =====
-- JSON values, as the configuration layers, the job payloads and the exported rows hold them.
-- A number is a natural number. A configuration may hold a float as well; what is proved looks into no
-- number, and a float would stand where a number does.
use bots_infra_be.Common.Tests.{if◌then◌else◌}
use Prim.Native.Nat.{ℕ}
use Prim.Native.String.{String}
use mathlib.Core.Path.{◌≡◌}
use mathlib.Core.Bool.{Bool}
use mathlib.Core.Option.{Option, none, some}
use text.Mathlib.Text.{◌==◌}

mutual
  pub data Value : Type 0 where
    null : Value
    flag : Bool → Value
    num : ℕ → Value
    str : String → Value
    obj : Fields → Value
    arr : Items → Value

  -- An object, in the order of its keys.
  pub data Fields : Type 0 where
    blank : Fields
    entry : String → Value → Fields → Fields

  pub data Items : Type 0 where
    nothing : Items
    item : Value → Items → Items

-- `d.get(k)`, with `none` for a missing key.
unfoldable pub get : Fields → String → Option Value
get blank k = none
get (entry j v d) k = if j == k then some v else get d k

-- `d[k] = v`
unfoldable pub put : Fields → String → Value → Fields
put blank k v = entry k v blank
put (entry j w d) k v = if j == k then entry j v d else entry j w (put d k v)

-- No key of the object itself is bound twice.
abbrev pub Unique : Fields → Type 0
Unique blank = Unit
Unique (entry k v d) = (get d k ≡ none) × Unique d
