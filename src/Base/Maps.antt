-- ===== src/Base/Maps.antt =====
-- A Go map with text keys, as the function from a key to what a read of the map gives: the zero
-- value (`none` where the code reads it with `ok`, the empty list for a slice) on a missing key.
use Prim.Native.String.{String}
use mathlib.Core.Path.{◌≡◌}
use mathlib.Core.Logic.{◌≢◌}
use native.Mathlib.Omega.{arith}
use nodepulse.Base.Tests.{str_eq, str_eq_iff, if◌then◌else◌}

module _ {ℓ} {V : Type ℓ} where
  abbrev pub update : (String → V) → String → V → String → V
  update m k v j = if str_eq k j then v else m j

  pub update_self : (m : String → V) (k : String) (v : V) → update m k v k ≡ v
  update_self m k v = ground (arith, str_eq_iff k k)

  pub update_ne : (m : String → V) (k j : String) (v : V) → k ≢ j → update m k v j ≡ m j
  update_ne m k j v h = ground (arith, str_eq_iff k j)
