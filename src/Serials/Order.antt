-- ===== src/Serials/Order.antt =====
-- The arrays of SerialNumberCache.cpp stay sorted, and what they contain.
use wlan_cloud_ucentralgw.Base.{
  ℕ, suc, ◌≤◌, ◌<◌, ◌≡◌, refl, ap, true, false, not, ◌&&◌, ◌||◌, some, List, [], ◌∷◌, ltb, ◌==◌,
  arith, inl, inr, Bool-cases, Option-cases,
}
use wlan_cloud_ucentralgw.Base.Table.{Text}
use wlan_cloud_ucentralgw.Serials.{
  stoull, reverse_serial_number, contains, insert, remove, SerialNumbers, number_exists,
  add_serial_number, delete_serial_number,
}

-- From a bound on, each number above the one before.
abbrev pub IsRising : ℕ → List ℕ → Type 0
IsRising n [] = Unit {0}
IsRising n (x ∷ xs) = (n ≤ x) × IsRising (suc x) xs

-- From a bound on, no number below the one before.
abbrev pub IsSorted : ℕ → List ℕ → Type 0
IsSorted n [] = Unit {0}
IsSorted n (x ∷ xs) = (n ≤ x) × IsSorted x xs

pub record IsOrdered (c : SerialNumbers) : Type 0 where
  pub rising : IsRising 0 c.sns
  pub sorted : IsSorted 0 c.reverse_sns

IsRising-mono : (a b : ℕ) (xs : List ℕ) → a ≤ b → IsRising b xs → IsRising a xs
IsRising-mono a b [] le h = tt
IsRising-mono a b (x ∷ xs) le h = (omega arith, h.1)

IsSorted-mono : (a b : ℕ) (xs : List ℕ) → a ≤ b → IsSorted b xs → IsSorted a xs
IsSorted-mono a b [] le h = tt
IsSorted-mono a b (x ∷ xs) le h = (omega arith, h.1)

insert-IsRising :
    (b n : ℕ) (xs : List ℕ)
    → b ≤ n
    → contains n xs ≡ false
    → IsRising b xs
    → IsRising b (insert n xs)
unfolding insert contains
insert-IsRising b n [] le new h = (le, tt)
insert-IsRising b n (x ∷ xs) le new h = elim (Bool-cases (ltb x n)) [
  | inl e ↦ rw e (h.0, insert-IsRising (suc x) n xs (ground arith) (ground arith) h.1)
  | inr e ↦ rw e (le, (ground arith, h.1))
]

insert-IsSorted : (b n : ℕ) (xs : List ℕ) → b ≤ n → IsSorted b xs → IsSorted b (insert n xs)
unfolding insert
insert-IsSorted b n [] le h = (le, tt)
insert-IsSorted b n (x ∷ xs) le h = elim (Bool-cases (ltb x n)) [
  | inl e ↦ rw e (h.0, insert-IsSorted x n xs (ground arith) h.1)
  | inr e ↦ rw e (le, (ground arith, h.1))
]

remove-IsRising : (b n : ℕ) (xs : List ℕ) → IsRising b xs → IsRising b (remove n xs)
unfolding remove
remove-IsRising b n [] h = tt
remove-IsRising b n (x ∷ xs) h = elim (Bool-cases (x == n)) [
  | inl e ↦ rw e (IsRising-mono b (suc x) xs (omega (arith, h.0)) h.1)
  | inr e ↦ rw e (h.0, remove-IsRising (suc x) n xs h.1)
]

remove-IsSorted : (b n : ℕ) (xs : List ℕ) → IsSorted b xs → IsSorted b (remove n xs)
unfolding remove
remove-IsSorted b n [] h = tt
remove-IsSorted b n (x ∷ xs) h = elim (Bool-cases (x == n)) [
  | inl e ↦ rw e (IsSorted-mono b x xs h.0 h.1)
  | inr e ↦ rw e (h.0, remove-IsSorted x n xs h.1)
]

contains-insert : (n m : ℕ) (xs : List ℕ) → contains m (insert n xs) ≡ (n == m || contains m xs)
unfolding contains insert
contains-insert n m [] = ground arith
contains-insert n m (x ∷ xs) = ground (arith, contains-insert n m xs)

contains-below : (b m : ℕ) (xs : List ℕ) → IsRising b xs → m < b → contains m xs ≡ false
unfolding contains
contains-below b m [] h lt = refl
contains-below b m (x ∷ xs) h lt = ground (arith, h.0, contains-below (suc x) m xs h.1)

contains-remove :
    (b n m : ℕ) (xs : List ℕ)
    → IsRising b xs
    → contains m (remove n xs) ≡ (not (n == m) && contains m xs)
unfolding contains remove
contains-remove b n m [] h = ground arith
contains-remove b n m (x ∷ xs) h =
    ground (arith, contains-below (suc x) m xs h.1, contains-remove (suc x) n m xs h.1)

contains-there :
    (n m : ℕ) (xs : List ℕ) → contains n xs ≡ true → contains m xs ≡ (n == m || contains m xs)
contains-there n m xs e = elim (Bool-cases (n == m)) [
  | inl f ↦
      let p : n ≡ m = ground arith in
      let q : contains n xs ≡ contains m xs = ap (λ x. contains x xs) p in ground (arith, q)
  | inr f ↦ ground arith
]

contains-nowhere :
    (n m : ℕ) (xs : List ℕ)
    → contains n xs ≡ false
    → contains m xs ≡ (not (n == m) && contains m xs)
contains-nowhere n m xs e = elim (Bool-cases (n == m)) [
  | inl f ↦
      let p : n ≡ m = ground arith in
      let q : contains n xs ≡ contains m xs = ap (λ x. contains x xs) p in ground (arith, q)
  | inr f ↦ ground arith
]

-- Adding a text that holds the number `sn` keeps both arrays in order, and makes `sn` and nothing
-- else known besides what was known before.
pub add_serial_number_lem :
    (s : Text) (sn : ℕ) (c : SerialNumbers)
    → IsOrdered c
    → stoull s ≡ some sn
    → let d = add_serial_number s c in
      IsOrdered d × ((m : ℕ) → number_exists m d ≡ (sn == m || number_exists m c))
unfolding add_serial_number number_exists
add_serial_number_lem s sn c h e = elim (Bool-cases (contains sn c.sns)) [
  | inl f ↦ rw (e, f, add_serial_number) (h, λ m. contains-there sn m c.sns f)
  | inr f ↦
      let rising = insert-IsRising 0 sn c.sns (omega arith) f h.rising in
      elim (Option-cases (stoull (reverse_serial_number s))) [
        | inl g ↦
            rw (e, f, g, add_serial_number)
              (record { rising = rising; sorted = h.sorted }, λ m. contains-insert sn m c.sns)
        | inr (rsn, g) ↦
            rw (e, f, g, add_serial_number)
              (
                record {
                  rising = rising;
                  sorted = insert-IsSorted 0 rsn c.reverse_sns (omega arith) h.sorted;
                },
                λ m. contains-insert sn m c.sns,
              )
      ]
]

-- Deleting a text that holds the number `sn` keeps both arrays in order, and makes `sn` and nothing
-- else unknown.
pub delete_serial_number_lem :
    (s : Text) (sn : ℕ) (c : SerialNumbers)
    → IsOrdered c
    → stoull s ≡ some sn
    → let d = delete_serial_number s c in
      IsOrdered d × ((m : ℕ) → number_exists m d ≡ (not (sn == m) && number_exists m c))
unfolding delete_serial_number number_exists
delete_serial_number_lem s sn c h e = elim (Bool-cases (contains sn c.sns)) [
  | inr f ↦ rw (e, f, delete_serial_number) (h, λ m. contains-nowhere sn m c.sns f)
  | inl f ↦
      let rising = remove-IsRising 0 sn c.sns h.rising in
      elim (Option-cases (stoull (reverse_serial_number s))) [
        | inl g ↦
            rw (e, f, g, delete_serial_number)
              (
                record { rising = rising; sorted = h.sorted },
                λ m. contains-remove 0 sn m c.sns h.rising,
              )
        | inr (rsn, g) ↦
            rw (e, f, g, delete_serial_number)
              (
                record { rising = rising; sorted = remove-IsSorted 0 rsn c.reverse_sns h.sorted },
                λ m. contains-remove 0 sn m c.sns h.rising,
              )
      ]
]
