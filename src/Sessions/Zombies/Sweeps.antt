-- ===== src/Sessions/Zombies/Sweeps.antt =====
-- What the passes of the garbage collector of AP_WS_Server.cpp leave in the maps and queue.
use wlan_cloud_ucentralgw.Base.{
  ℕ, zero, suc, ◌+◌, ◌≤◌, ◌<◌, ◌≡◌, refl, ◌∙◌, ◌⊎◌, inl, inr, Bool, true, none, some, List, [], ◌∷◌,
  ◌++◌, ◌==◌, arith, Bool-cases,
}
use wlan_cloud_ucentralgw.Base.Dict.{Dict, find}
use wlan_cloud_ucentralgw.Sessions.{Heap, Pointer}
use wlan_cloud_ucentralgw.Sessions.Zombies.{Passes, is_zombie, sweep, sweep_map, sweep_maps}

-- The pair (id, sn) stands in the queue.
abbrev pub Queued : ℕ → ℕ → List (ℕ × ℕ) → Type 0
Queued id sn [] = ⊥
Queued id sn ((a, b) ∷ q) = ((a ≡ id) × (b ≡ sn)) ⊎ Queued id sn q

pub Queued-append_left : (id sn : ℕ) (q r : List (ℕ × ℕ)) → Queued id sn q → Queued id sn (q ++ r)
Queued-append_left id sn (x ∷ q) r (inl h) = inl h
Queued-append_left id sn (x ∷ q) r (inr h) = inr (Queued-append_left id sn q r h)
Queued-append_left id sn [] r h = absurd h

pub Queued-append_right : (id sn : ℕ) (q r : List (ℕ × ℕ)) → Queued id sn r → Queued id sn (q ++ r)
Queued-append_right id sn [] r h = h
Queued-append_right id sn (x ∷ q) r h = inr (Queued-append_right id sn q r h)

-- Each pointer that is not null stands under the key that its connection has.
abbrev pub Keyed : (ℕ → ℕ) → Dict Pointer → Type 0
Keyed key [] = Unit {0}
Keyed key ((k, none) ∷ m) = Keyed key m
Keyed key ((k, some c) ∷ m) = (key c ≡ k) × Keyed key m

module _ (heap : Heap) (time_out : ℕ) (right_now : ℕ → ℕ) where
  -- The connection c stands behind the pointer, under its key, and is queued if it is a zombie.
  abbrev pub Marked : (ℕ → ℕ) → ℕ → Pointer → List (ℕ × ℕ) → Type 0
  Marked key k p queue =
      (c : ℕ) × (p ≡ some c)
      × (key c ≡ k)
      × (is_zombie time_out (right_now c) (heap c) ≡ true
          → Queued (heap c).session_id (heap c).serial_number queue)

module _ (heap : Heap) (time_out : ℕ) (right_now : ℕ → ℕ) (weight : ℕ → ℕ) where
  sweep-Marked :
      (key : ℕ → ℕ) (k : ℕ) (p : Pointer) (m : Dict Pointer)
      → Keyed key m
      → find k (sweep heap time_out right_now weight m).kept ≡ some p
      → Marked heap time_out right_now key k p (sweep heap time_out right_now weight m).queued
  unfolding sweep find
  sweep-Marked key k p [] h e = cc
  sweep-Marked key k p ((j, none) ∷ m) h e = sweep-Marked key k p m h e
  sweep-Marked key k p ((j, some c) ∷ m) h e =
      elim (Bool-cases (is_zombie time_out (right_now c) (heap c))) [
        | inl z ↦ elim (Bool-cases (j == k)) [
          | inl t ↦ (c, ground arith, ground arith, rw z (λ _. inl (refl, refl)))
          | inr t ↦
              let (d, q, l, f) = sweep-Marked key k p m h.1 (ground arith) in
              (d, q, l, rw z (λ y. inr (f y)))
        ]
        | inr z ↦ elim (Bool-cases (j == k)) [
          | inl t ↦ (c, ground arith, ground arith, λ y. cc)
          | inr t ↦
              let (d, q, l, f) = sweep-Marked key k p m h.1 (ground arith) in (d, q, l, rw z f)
        ]
      ]

  sweep_maps-below :
      (locked : ℕ → Bool) (n h : ℕ) (p : Passes) (j : ℕ)
      → j < h
      → (sweep_maps heap time_out right_now weight locked n h p).maps j ≡ p.maps j
  unfolding sweep_maps sweep_map
  sweep_maps-below locked zero h p j lt = refl
  sweep_maps-below locked (suc n) h p j lt =
      sweep_maps-below locked n (suc h) _ j (omega arith) ∙ ground arith

  sweep_maps-queue :
      (locked : ℕ → Bool) (n h : ℕ) (p : Passes) (id sn : ℕ)
      → Queued id sn p.queue
      → Queued id sn (sweep_maps heap time_out right_now weight locked n h p).queue
  unfolding sweep_maps sweep_map
  sweep_maps-queue locked zero h p id sn q = q
  sweep_maps-queue locked (suc n) h p id sn q =
      sweep_maps-queue locked n (suc h) _ id sn (elim (Bool-cases (locked h)) [
        | inl e ↦ rw e (Queued-append_left id sn p.queue _ q)
        | inr e ↦ rw e q
      ])

  -- A map whose lock was got is swept, and what its sweep queues is in the queue at the end.
  sweep_maps-swept :
      (locked : ℕ → Bool) (n h : ℕ) (p : Passes) (j : ℕ)
      → h ≤ j
      → j < h + n
      → locked j ≡ true
      → let r = sweep_maps heap time_out right_now weight locked n h p in
        let m = sweep heap time_out right_now weight (p.maps j) in
        (r.maps j ≡ m.kept) × ((id sn : ℕ) → Queued id sn m.queued → Queued id sn r.queue)
  unfolding sweep_maps sweep_map
  sweep_maps-swept locked zero h p j lo hi l = absurd (omega arith)
  sweep_maps-swept locked (suc n) h p j lo hi l = elim (Bool-cases (h == j)) [
    | inl e ↦
        let same : h ≡ j = ground arith in
        let got : locked h ≡ true = ground arith in
        (
          sweep_maps-below locked n (suc h) _ j (omega arith) ∙ ground arith,
          λ id sn q.
              sweep_maps-queue locked n (suc h) _ id sn
                (rw got (Queued-append_right id sn p.queue _ (rw same q))),
        )
    | inr e ↦
        let next = sweep_map heap time_out right_now weight locked h p in
        let (kept, queued) =
          sweep_maps-swept locked n (suc h) next j (ground arith) (omega arith) l in
        let same : next.maps j ≡ p.maps j = ground arith in
        (rw (← same) kept, λ id sn q. queued id sn (rw same q))
  ]

  -- So each binding that is left in such a map is marked.
  pub sweep_maps-Marked :
      (key : ℕ → ℕ) (locked : ℕ → Bool) (n : ℕ) (p : Passes) (j k : ℕ) (q : Pointer)
      → j < n
      → locked j ≡ true
      → Keyed key (p.maps j)
      → let r = sweep_maps heap time_out right_now weight locked n 0 p in
        find k (r.maps j) ≡ some q → Marked heap time_out right_now key k q r.queue
  sweep_maps-Marked key locked n p j k q lt l h e =
      let (kept, queued) = sweep_maps-swept locked n 0 p j (omega arith) (omega arith) l in
      let (c, f, g, m) = sweep-Marked key k q (p.maps j) h (rw (← kept) e) in
      (c, f, g, λ z. queued _ _ (m z))

  pub sweep_maps-grows :
      (locked : ℕ → Bool) (n h : ℕ) (p : Passes) (id sn : ℕ)
      → Queued id sn p.queue
      → Queued id sn (sweep_maps heap time_out right_now weight locked n h p).queue
  sweep_maps-grows locked n h p id sn q = sweep_maps-queue locked n h p id sn q
