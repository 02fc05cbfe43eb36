-- ===== src/Base/Dict.antt =====
-- std::map with strings for keys: an association list in the order of its keys. Only what the
-- sources use: `m[k] = v`, `find` and `erase`.
use mathlib.Core.Path.{◌≡◌, refl}
use mathlib.Core.Bool.{Bool, true, false}
use mathlib.Core.List.{List, [], ◌∷◌}
use mathlib.Core.Logic.{◌↔◌}
use mathlib.Core.Option.{Option, none, some}
use native.Mathlib.Omega.{arith}
use lali_rpc_frame.Base.Tests.{◌==◌, ltb, if◌then◌else◌}
use lali_rpc_frame.Base.Text.{Bytes, bytes_eq}

-- std::string's operator<, byte by byte.
unfoldable pub bytes_lt : Bytes → Bytes → Bool
bytes_lt [] [] = false
bytes_lt [] (b ∷ bs) = true
bytes_lt (a ∷ as') [] = false
bytes_lt (a ∷ as') (b ∷ bs) = let rest = bytes_lt as' bs in if a == b then rest else ltb a b

module _ {ℓ} {V : Type ℓ} where
  unfoldable pub lookup : Bytes → List (Bytes × V) → Option V
  lookup k [] = none
  lookup k ((j, v) ∷ m) = if bytes_eq j k then some v else lookup k m

  unfoldable pub assign : Bytes → V → List (Bytes × V) → List (Bytes × V)
  assign k v [] = (k, v) ∷ []
  assign k v ((j, w) ∷ m) =
      let later = (j, w) ∷ assign k v m in
      if bytes_eq j k then (k, v) ∷ m else if bytes_lt k j then (k, v) ∷ (j, w) ∷ m else later

  unfoldable pub erase : Bytes → List (Bytes × V) → List (Bytes × V)
  erase k [] = []
  erase k ((j, w) ∷ m) = let later = (j, w) ∷ erase k m in if bytes_eq j k then m else later

pub bytes_eq_refl : (a : Bytes) → bytes_eq a a ≡ true
unfolding bytes_eq
bytes_eq_refl [] = refl
bytes_eq_refl (a ∷ as') = ground (arith, bytes_eq_refl as')

pub bytes_eq→eq : (a b : Bytes) → bytes_eq a b ≡ true → a ≡ b
unfolding bytes_eq
bytes_eq→eq [] [] h = refl
bytes_eq→eq [] (b ∷ bs) h = cc
bytes_eq→eq (a ∷ as') [] h = cc
bytes_eq→eq (a ∷ as') (b ∷ bs) h = ground (arith, bytes_eq→eq as' bs)

pub bytes_eq_iff : (a b : Bytes) → (bytes_eq a b ≡ true) ↔ (a ≡ b)
bytes_eq_iff a b = (bytes_eq→eq a b, λ e. rw e (bytes_eq_refl b))

module _ {ℓ} {V : Type ℓ} where
  pub lookup-assign :
      (k j : Bytes) (v : V) (m : List (Bytes × V))
      → lookup j (assign k v m) ≡ (if bytes_eq k j then some v else lookup j m)
  unfolding lookup assign
  lookup-assign k j v [] = refl
  lookup-assign k j v ((i, w) ∷ m) =
      ground (arith, bytes_eq_iff k j, bytes_eq_iff i k, bytes_eq_iff i j, lookup-assign k j v m)
