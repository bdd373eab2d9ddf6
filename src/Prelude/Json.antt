-- ===== src/Prelude/Json.antt =====
-- JSON values, as payloads and settings hold them. Numbers are the non-negative integers.
use hedwig.Prelude.Tests.{if◌then◌else◌, string_eq, ◌==◌}
use hedwig.Prelude.Text.{truthy as text_truthy}
use Prim.Native.Nat.{ℕ, zero, suc}
use Prim.Native.String.{String}
use mathlib.Core.Bool.{Bool, true, false}
use mathlib.Core.Option.{Option, none, some}

mutual
  pub data Json : Type 0 where
    null : Json
    bool : Bool → Json
    num : ℕ → Json
    text : String → Json
    arr : Items → Json
    obj : Fields → Json

  pub data Items : Type 0 where
    nil : Items
    cons : Json → Items → Items

  pub data Fields : Type 0 where
    end : Fields
    field : String → Json → Fields → Fields

-- `bool(v)`
unfoldable pub truthy : Json → Bool
unfolding text_truthy
truthy null = false
truthy (bool b) = b
truthy (num zero) = false
truthy (num (suc n)) = true
truthy (text s) = text_truthy s
truthy (arr nil) = false
truthy (arr (cons v vs)) = true
truthy (obj end) = false
truthy (obj (field k v fs)) = true

unfoldable pub get_field : String → Fields → Option Json
get_field k end = none
get_field k (field j v fs) = if j == k then some v else get_field k fs

-- `d.get(k)`: a missing key reads as `None`.
unfoldable pub get : String → Json → Json
unfolding get_field
get k (obj fs) = elim (get_field k fs) [ none ↦ null | some v ↦ v ]
get k v = null
