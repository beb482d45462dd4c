-- ===== src/Base/Dict.antt =====
-- `std::map<std::uint64_t, V>`: an association list that insertion keeps in the order of its keys.
use Prim.Native.Nat.{ℕ, suc, ◌≤◌}
use mathlib.Core.Path.{◌≡◌, refl}
use mathlib.Core.Option.{Option, none, some}
use mathlib.Core.List.{List, [], ◌∷◌}
use native.Mathlib.Omega.{arith}
use wlan_cloud_ucentralgw.Base.Tests.{ltb, ◌==◌, if◌then◌else◌}

abbrev pub Dict {ℓ} : Type ℓ → Type ℓ
Dict V = List (ℕ × V)

module _ {ℓ} {V : Type ℓ} where
  unfoldable pub find : ℕ → Dict V → Option V
  find k [] = none
  find k ((j, v) ∷ m) = if j == k then some v else find k m

  -- `m[k] = v`
  unfoldable pub assign : ℕ → V → Dict V → Dict V
  assign k v [] = (k, v) ∷ []
  assign k v ((j, w) ∷ m) =
      let rest = assign k v m in
      if k == j then (k, v) ∷ m else if ltb k j then (k, v) ∷ (j, w) ∷ m else (j, w) ∷ rest

  -- `m.erase(k)`: every entry with the key, of which there is at most one.
  unfoldable pub erase : ℕ → Dict V → Dict V
  erase k [] = []
  erase k ((j, w) ∷ m) = let rest = erase k m in if j == k then rest else (j, w) ∷ rest

  pub find-assign :
      (k j : ℕ) (v : V) (m : Dict V) → find j (assign k v m) ≡ (if k == j then some v else find j m)
  unfolding find assign
  find-assign k j v [] = refl
  find-assign k j v ((i, w) ∷ m) = ground (arith, find-assign k j v m)

  pub find-erase : (k j : ℕ) (m : Dict V) → find j (erase k m) ≡ (if k == j then none else find j m)
  unfolding find erase
  find-erase k j [] = ground arith
  find-erase k j ((i, w) ∷ m) = ground (arith, find-erase k j m)

  -- Keys rise along the list, from a bound on.
  abbrev pub Rising : ℕ → Dict V → Type 0
  Rising n [] = Unit {0}
  Rising n ((j, v) ∷ m) = (n ≤ j) × Rising (suc j) m

  pub Rising-mono : {a b : ℕ} (m : Dict V) → a ≤ b → Rising b m → Rising a m
  Rising-mono [] h r = tt
  Rising-mono ((j, v) ∷ m) h r = (omega arith, r.1)

  pub assign-Rising : (n k : ℕ) (v : V) (m : Dict V) → n ≤ k → Rising n m → Rising n (assign k v m)
  unfolding assign
  assign-Rising n k v [] h r = (h, tt)
  assign-Rising n k v ((j, w) ∷ m) h r =
      ground (arith, assign-Rising (suc j) k v m, Rising-mono {a = suc k} {b = suc j} m)

  pub erase-Rising : (n k : ℕ) (m : Dict V) → Rising n m → Rising n (erase k m)
  unfolding erase
  erase-Rising n k [] r = tt
  erase-Rising n k ((j, w) ∷ m) r =
      ground (arith, erase-Rising (suc j) k m r.1, Rising-mono {a = n} {b = suc j} (erase k m))
