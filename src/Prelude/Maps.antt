-- ===== src/Prelude/Maps.antt =====
-- Go's maps with byte strings for keys, as functions; `none` is an absent key.
use Prim.Native.Nat.{ℕ}
use mathlib.Core.Option.{Option, none, some}
use mathlib.Core.List.{List}
use smaran.Prelude.Tests.{bytes_eq, if◌then◌else◌}

module _ {ℓ} where
  abbrev pub Map : Type ℓ → Type ℓ
  Map V = List ℕ → Option V

  abbrev pub empty_map : {V : Type ℓ} → Map V
  empty_map k = none

  abbrev pub insert : {V : Type ℓ} → List ℕ → V → Map V → Map V
  insert k v m j = if bytes_eq k j then some v else m j

  -- The zero value stands for an absent key.
  abbrev pub value_or : {V : Type ℓ} → V → Option V → V
  value_or d none = d
  value_or d (some v) = v
