-- ===== src/Commands/Scheduler/Ends.antt =====
-- The loop of the scheduler of CommandManager.cpp ends.
use wlan_cloud_ucentralgw.Base.{
  ℕ, zero, suc, ◌+◌, ◌≤◌, ◌≡◌, refl, ◌∙◌, ◌⊎◌, Option, none, some, List, [], ◌∷◌, arith, inl, inr,
  length,
}
use wlan_cloud_ucentralgw.Commands.{Manager}
use wlan_cloud_ucentralgw.Commands.Scheduler.{Details, World, schedule_batch, schedule_loop}

module _ (w : World) (k offset : ℕ) (m : Manager) where
  loop-none : w.ready offset m ≡ none → schedule_loop w (suc k) offset m ≡ some m
  unfolding schedule_loop
  loop-none e = rw (e, schedule_loop) refl

  loop-nil : w.ready offset m ≡ some [] → schedule_loop w (suc k) offset m ≡ some m
  unfolding schedule_loop
  loop-nil e = rw (e, schedule_loop) refl

  loop-cons :
      (cmd : Details) (cmds : List Details)
      → w.ready offset m ≡ some (cmd ∷ cmds)
      → schedule_loop w (suc k) offset m
        ≡ schedule_loop w k (offset + length (cmd ∷ cmds)) (schedule_batch w (cmd ∷ cmds) m)
  unfolding schedule_loop
  loop-cons cmd cmds e = rw (e, schedule_loop) refl

-- If the storage has no commands from the offset `total` on, the scheduler's loop ends: a round
-- for each command and one more are enough, whatever is executed on the way.
pub schedule_loop_total :
    (w : World) (total fuel offset : ℕ) (m : Manager)
    → ((o : ℕ) (s : Manager) → total ≤ o → (w.ready o s ≡ none) ⊎ (w.ready o s ≡ some []))
    → total ≤ offset + fuel
    → (r : Manager) × (schedule_loop w (suc fuel) offset m ≡ some r)
schedule_loop_total w total zero offset m ends enough = elim (ends offset m (omega arith)) [
  | inl e ↦ (m, loop-none w 0 offset m e)
  | inr e ↦ (m, loop-nil w 0 offset m e)
]
schedule_loop_total w total (suc k) offset m ends enough =
    go (w.ready offset m) refl (λ n s h. schedule_loop_total w total k (offset + suc n) s ends h)
  where
    go :
        (o : Option (List Details))
        → w.ready offset m ≡ o
        → ((n : ℕ) (s : Manager)
            → total ≤ (offset + suc n) + k
            → (r : Manager) × (schedule_loop w (suc k) (offset + suc n) s ≡ some r))
        → (r : Manager) × (schedule_loop w (suc (suc k)) offset m ≡ some r)
    go none e ih = (m, loop-none w (suc k) offset m e)
    go (some []) e ih = (m, loop-nil w (suc k) offset m e)
    go (some (cmd ∷ cmds)) e ih =
        let (r, p) = ih (length cmds) (schedule_batch w (cmd ∷ cmds) m) (omega arith) in
        (r, loop-cons w (suc k) offset m cmd cmds e ∙ p)
