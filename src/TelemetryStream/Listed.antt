-- ===== src/TelemetryStream/Listed.antt =====
-- The sets of UUIDs of TelemetryStream.cpp: what insertion and erasure list.
use wlan_cloud_ucentralgw.Base.{
  ℕ, suc, ◌≤◌, ◌≡◌, refl, sym, ap, ◌∙◌, true, false, not, ◌&&◌, ◌||◌, Option, none, some, [], ◌∷◌,
  ◌==◌, if◌then◌else◌, arith, if_elim, inl, inr, Bool-cases, length,
}
use wlan_cloud_ucentralgw.Base.Dict.{Dict, find, find-assign, Rising, Rising-mono}
use wlan_cloud_ucentralgw.Base.Table.{
  Text, Table, same, get_entry, put_entry, drop_entry, get_entry-put_entry, get_entry-drop_entry,
}
use wlan_cloud_ucentralgw.TelemetryStream.{
  TextSet, is_some, has_uuid, is_listed, set_or_empty, list_uuid, erase_uuid,
}

pub get_entry-is_some-put {ℓ} :
    {V : Type ℓ} (k j : Text) (v : V) (m : Table V)
    → is_some (get_entry j (put_entry k v m)) ≡ (same k j || is_some (get_entry j m))
get_entry-is_some-put k j v m =
    ap is_some (get_entry-put_entry k j v m)
    ∙ elim (Bool-cases (same k j)) [ inl q ↦ rw q refl | inr q ↦ rw q refl ]

pub get_entry-is_some-drop {ℓ} :
    {V : Type ℓ} (k j : Text) (m : Table V)
    → is_some (get_entry j (drop_entry k m)) ≡ (is_some (get_entry j m) && not (same k j))
get_entry-is_some-drop k j m =
    ap is_some (get_entry-drop_entry k j m)
    ∙ elim (Bool-cases (same k j)) [ inl q ↦ rw q (ground arith) | inr q ↦ rw q (ground arith) ]

is_listed-cons :
    (j k : ℕ) (u : Text) (set : TextSet) (m : Dict TextSet)
    → is_listed k u ((j, set) ∷ m) ≡ (if j == k then is_some (get_entry u set) else is_listed k u m)
unfolding is_listed find
is_listed-cons j k u set m = elim (Bool-cases (j == k)) [ inl q ↦ rw q refl | inr q ↦ rw q refl ]

-- Nothing is listed under a number below the keys.
is_listed-below :
    (n k : ℕ) (u : Text) (m : Dict TextSet) → suc k ≤ n → Rising n m → is_listed k u m ≡ false
unfolding is_listed find
is_listed-below n k u [] h r = refl
is_listed-below n k u ((j, set) ∷ m) h r =
    let other : (j == k) ≡ false = ground (arith, h, r.0) in
    is_listed-cons j k u set m
    ∙ rw other (is_listed-below (suc j) k u m (omega (arith, h, r.0)) r.1)

set_or_empty-has_uuid :
    (u : Text) (o : Option TextSet) → is_some (get_entry u (set_or_empty o)) ≡ has_uuid u o
unfolding get_entry
set_or_empty-has_uuid u none = refl
set_or_empty-has_uuid u (some set) = refl

pub is_listed-list_uuid :
    (sn k : ℕ) (uuid u : Text) (m : Dict TextSet)
    → is_listed k u (list_uuid sn uuid m) ≡ ((sn == k && same uuid u) || is_listed k u m)
unfolding is_listed list_uuid
is_listed-list_uuid sn k uuid u m =
    let set = set_or_empty (find sn m) in
    let listed =
      get_entry-is_some-put uuid u tt set
      ∙ ap (λ b. same uuid u || b) (set_or_empty-has_uuid u (find sn m)) in
    ap (has_uuid u) (find-assign sn k (put_entry uuid tt set) m) ∙ elim (Bool-cases (sn == k)) [
      | inl q ↦
          let here : sn ≡ k = ground (arith, q) in
          rw q (listed ∙ ap (λ n. same uuid u || has_uuid u (find n m)) here)
      | inr q ↦ rw q refl
    ]

empty_drop :
    (uuid u : Text) (set : TextSet)
    → (length (drop_entry uuid set) == 0) ≡ true
    → (is_some (get_entry u set) && not (same uuid u)) ≡ false
unfolding get_entry
empty_drop uuid u set q = sym (get_entry-is_some-drop uuid u set) ∙ go (drop_entry uuid set) q
  where
    go : (t : TextSet) → (length t == 0) ≡ true → is_some (get_entry u t) ≡ false
    go [] h = refl
    go (x ∷ t) h = absurd (ground (arith, h))

pub is_listed-erase_uuid :
    (n k : ℕ) (uuid u : Text) (m : Dict TextSet)
    → Rising n m
    → is_listed k u (erase_uuid uuid m) ≡ (is_listed k u m && not (same uuid u))
unfolding erase_uuid
is_listed-erase_uuid n k uuid u [] r = unfold is_listed find in refl
is_listed-erase_uuid n k uuid u ((j, set) ∷ m) r =
    let rest = is_listed-erase_uuid (suc j) k uuid u m r.1 in
    let before = is_listed-cons j k u set m in
    let kept = is_listed-cons j k u (drop_entry uuid set) (erase_uuid uuid m) in
    let drop = get_entry-is_some-drop uuid u set in
    let below : (j == k) ≡ true → is_listed k u m ≡ false =
      λ q. is_listed-below (suc j) k u m (ground (arith, q)) r.1 in
    elim (Bool-cases (length (drop_entry uuid set) == 0)) [
      | inl q ↦
          let none_left = empty_drop uuid u set q in
          rw q (elim (Bool-cases (j == k)) [
            | inl h ↦
                rest
                ∙ ap (λ b. b && not (same uuid u)) (below h)
                ∙ sym (ap (λ b. b && not (same uuid u)) (before ∙ rw h refl) ∙ none_left)
            | inr h ↦ rest ∙ sym (ap (λ b. b && not (same uuid u)) (before ∙ rw h refl))
          ])
      | inr q ↦ rw q (
          kept ∙ elim (Bool-cases (j == k)) [
            | inl h ↦ rw h (drop ∙ sym (ap (λ b. b && not (same uuid u)) (before ∙ rw h refl)))
            | inr h ↦ rw h (rest ∙ sym (ap (λ b. b && not (same uuid u)) (before ∙ rw h refl)))
          ])
    ]

pub erase_uuid-Rising :
    (n : ℕ) (uuid : Text) (m : Dict TextSet) → Rising n m → Rising n (erase_uuid uuid m)
unfolding erase_uuid
erase_uuid-Rising n uuid [] r = tt
erase_uuid-Rising n uuid ((j, set) ∷ m) r =
    let rest = erase_uuid-Rising (suc j) uuid m r.1 in
    if_elim (Rising n) (length (drop_entry uuid set) == 0)
      (λ q. Rising-mono {a = n} {b = suc j} (erase_uuid uuid m) (omega (arith, r.0)) rest)
      (λ q. (r.0, rest))
