-- ===== src/Base/Table.antt =====
-- `std::map<std::string, V>`: an association list that insertion keeps in the order of its keys.
use Prim.Native.Nat.{ℕ}
use mathlib.Core.Path.{◌≡◌, refl, sym, ap}
use mathlib.Core.Logic.{inl, inr}
use mathlib.Core.Bool.{Bool, true, false, ◌&&◌}
use mathlib.Core.Option.{Option, none, some}
use mathlib.Core.List.{List, [], ◌∷◌}
use native.Mathlib.Omega.{arith}
use wlan_cloud_ucentralgw.Base.Tests.{ltb, ◌==◌, if◌then◌else◌, Bool-cases}

-- The bytes of a `std::string`.
abbrev pub Text : Type 0
Text = List ℕ

unfoldable pub same : Text → Text → Bool
same [] [] = true
same [] (b ∷ y) = false
same (a ∷ x) [] = false
same (a ∷ x) (b ∷ y) = a == b && same x y

unfoldable pub before : Text → Text → Bool
before x [] = false
before [] (b ∷ y) = true
before (a ∷ x) (b ∷ y) = let rest = before x y in if a == b then rest else ltb a b

pub same_sound : (a b : Text) → same a b ≡ true → a ≡ b
unfolding same
same_sound [] [] e = refl
same_sound [] (b ∷ y) e = absurd (ground arith)
same_sound (a ∷ x) [] e = absurd (ground arith)
same_sound (a ∷ x) (b ∷ y) e =
    let head : a ≡ b = ground arith in let tail = same_sound x y (ground arith) in cc (head, tail)

pub same_refl : (a : Text) → same a a ≡ true
unfolding same
same_refl [] = refl
same_refl (a ∷ x) = ground (arith, same_refl x)

abbrev pub Table {ℓ} : Type ℓ → Type ℓ
Table V = List (Text × V)

module _ {ℓ} {V : Type ℓ} where
  unfoldable pub get_entry : Text → Table V → Option V
  get_entry k [] = none
  get_entry k ((j, v) ∷ m) = if same j k then some v else get_entry k m

  -- `m[k] = v`
  unfoldable pub put_entry : Text → V → Table V → Table V
  put_entry k v [] = (k, v) ∷ []
  put_entry k v ((j, w) ∷ m) =
      let rest = put_entry k v m in
      if same k j then (k, v) ∷ m else if before k j then (k, v) ∷ (j, w) ∷ m else (j, w) ∷ rest

  -- `m.erase(k)`: every entry with the key, of which there is at most one.
  unfoldable pub drop_entry : Text → Table V → Table V
  drop_entry k [] = []
  drop_entry k ((j, w) ∷ m) = let rest = drop_entry k m in if same j k then rest else (j, w) ∷ rest

  pub get_entry-put_entry :
      (k j : Text) (v : V) (m : Table V)
      → get_entry j (put_entry k v m) ≡ (if same k j then some v else get_entry j m)
  unfolding get_entry put_entry
  get_entry-put_entry k j v [] = refl
  get_entry-put_entry k j v ((i, w) ∷ m) = elim (Bool-cases (same k i)) [
    | inl e ↦
        let swap : same i j ≡ same k j = ap (λ x. same x j) (sym (same_sound k i e)) in
        ground (arith, swap)
    | inr e ↦ elim (Bool-cases (same k j)) [
      | inl f ↦
          let apart : same i j ≡ false = differs i f e in
          ground (arith, get_entry-put_entry k j v m, apart)
      | inr f ↦ ground (arith, get_entry-put_entry k j v m)
    ]
  ]
    where
      differs : (i : Text) → same k j ≡ true → same k i ≡ false → same i j ≡ false
      differs i f e = elim (Bool-cases (same i j)) [
        | inl g ↦
            let p = same_sound k j f in
            let q = same_sound i j g in
            let r : same k i ≡ true = cc (same_refl k, p, q) in ground (arith, r)
        | inr g ↦ g
      ]

  pub get_entry-drop_entry :
      (k j : Text) (m : Table V)
      → get_entry j (drop_entry k m) ≡ (if same k j then none else get_entry j m)
  unfolding get_entry drop_entry
  get_entry-drop_entry k j [] = ground arith
  get_entry-drop_entry k j ((i, w) ∷ m) = elim (Bool-cases (same i k)) [
    | inl e ↦
        let swap : same i j ≡ same k j = ap (λ x. same x j) (same_sound i k e) in
        ground (arith, get_entry-drop_entry k j m, swap)
    | inr e ↦ elim (Bool-cases (same i j)) [
      | inl f ↦
          let apart : same k j ≡ false = differs i f e in
          ground (arith, get_entry-drop_entry k j m, apart)
      | inr f ↦ ground (arith, get_entry-drop_entry k j m)
    ]
  ]
    where
      differs : (i : Text) → same i j ≡ true → same i k ≡ false → same k j ≡ false
      differs i f e = elim (Bool-cases (same k j)) [
        | inl g ↦
            let p = same_sound i j f in
            let q = same_sound k j g in
            let r : same i k ≡ true = cc (same_refl k, p, q) in ground (arith, r)
        | inr g ↦ g
      ]
