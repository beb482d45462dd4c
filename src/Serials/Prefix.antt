-- ===== src/Serials/Prefix.antt =====
-- What the search of SerialNumberCache.cpp returns.
use wlan_cloud_ucentralgw.Base.{
  ℕ, zero, suc, ◌-◌, ◌≤◌, ◌≡◌, refl, Bool, true, false, List, [], ◌∷◌, ◌++◌, ltb, ◌==◌, arith, inl,
  inr, Bool-cases, Option-cases, length, All, All-mono,
}
use wlan_cloud_ucentralgw.Base.Table.{Text}
use wlan_cloud_ucentralgw.Serials.{
  stoull, contains, lower_bound, result_of, text_of, begins_with, collect, zeros, return_numbers,
}

-- A result stands for a stored number whose text begins with the one that is looked for.
pub record IsFound (reversed : Bool) (s : Text) (xs : List ℕ) (r : ℕ) : Type 0 where
  pub number : ℕ
  pub stored : contains number xs ≡ true
  pub prefix : begins_with s (text_of reversed number) ≡ true
  pub shown : r ≡ result_of reversed number

IsFound-later :
    (reversed : Bool) (s : Text) (x : ℕ) (xs : List ℕ) (r : ℕ)
    → IsFound reversed s xs r
    → IsFound reversed s (x ∷ xs) r
unfolding contains
IsFound-later reversed s x xs r f = record {
  number = f.number;
  stored = ground (arith, f.stored);
  prefix = f.prefix;
  shown = f.shown;
}

collect-IsFound :
    (reversed : Bool) (s : Text) (how_many : ℕ) (xs : List ℕ)
    → All (IsFound reversed s xs) (collect reversed s how_many xs)
      × (length (collect reversed s how_many xs) ≤ how_many)
unfolding collect contains
collect-IsFound reversed s zero xs = (tt, omega arith)
collect-IsFound reversed s (suc how_many) [] = (tt, omega arith)
collect-IsFound reversed s (suc how_many) (x ∷ xs) =
    let (found, few) = collect-IsFound reversed s how_many xs in
    elim (Bool-cases (begins_with s (text_of reversed x))) [
      | inl e ↦ rw e (
        (
          record { number = x; stored = ground arith; prefix = e; shown = refl },
          All-mono (IsFound-later reversed s x xs) _ found,
        ),
        omega (arith, few),
      )
      | inr e ↦ rw e (tt, omega arith)
    ]

contains-lower_bound :
    (n m : ℕ) (xs : List ℕ) → contains m (lower_bound n xs) ≡ true → contains m xs ≡ true
unfolding contains lower_bound
contains-lower_bound n m [] e = e
contains-lower_bound n m (x ∷ xs) e = ground (arith, contains-lower_bound n m xs)

lower_bound-IsFound :
    (reversed : Bool) (s : Text) (n : ℕ) (xs : List ℕ) (r : ℕ)
    → IsFound reversed s (lower_bound n xs) r
    → IsFound reversed s xs r
lower_bound-IsFound reversed s n xs r f = record {
  number = f.number;
  stored = contains-lower_bound n f.number xs f.stored;
  prefix = f.prefix;
  shown = f.shown;
}

-- A search for fewer than twelve digits returns at most as many results as are asked for, and each
-- stands for a stored number whose digits begin with those that are looked for.
pub return_numbers-IsFound :
    (reversed : Bool) (s : Text) (how_many : ℕ) (xs : List ℕ)
    → ltb (length s) 12 ≡ true
    → let rs = return_numbers reversed s how_many xs in
      All (IsFound reversed s xs) rs × (length rs ≤ how_many)
unfolding return_numbers
return_numbers-IsFound reversed s how_many xs short =
    let other : (length s == 12) ≡ false = ground arith in
    elim (Option-cases (stoull (s ++ zeros (12 - length s)))) [
      | inl e ↦ rw (other, short, e, return_numbers) (tt, omega arith)
      | inr (sn, e) ↦
          let (found, few) = collect-IsFound reversed s how_many (lower_bound sn xs) in
          rw (other, short, e, return_numbers)
            (All-mono (lower_bound-IsFound reversed s sn xs) _ found, few)
    ]
