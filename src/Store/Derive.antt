-- ===== src/Store/Derive.antt =====
-- internal/store/store.go: what an intent's derived status says of its bullets.
use sgt.Base.{true, List, [], ◌∷◌, all, refl, ◌≡◌, arith, inl, inr, Bool-cases, ◌≢◌, ◌⊎◌, All, ◌↔◌}
use sgt.Store.Types.{
  BulletStatus, IntentStatus, bullet_status_eq, BulletRecord, bullet_status_eq_iff,
}
use sgt.Store.Advance.{derive_intent_status}

abbrev pub Merged : BulletRecord → Type 0
Merged b = b.status ≡ BulletStatus.merged

all_merged-All :
    (bs : List BulletRecord)
    → (all (λ c. bullet_status_eq c.status BulletStatus.merged) bs ≡ true) ↔ All Merged bs
all_merged-All [] = (λ _. tt, λ _. refl)
all_merged-All (b ∷ bs) =
    let ih = all_merged-All bs in
    let q = bullet_status_eq_iff b.status BulletStatus.merged in
    (λ h. (ground (arith, q), ih.0 (ground arith)), λ h. ground (arith, q, ih.1 h.1, h.0))

-- The derived status is satisfied exactly if there are bullets and every one of them is merged;
-- it is never anything but satisfied or in progress.
pub derive_intent_status-satisfied :
    (bs : List BulletRecord)
    → ((derive_intent_status bs ≡ IntentStatus.satisfied) ↔ ((bs ≢ []) × All Merged bs))
      × ((derive_intent_status bs ≡ IntentStatus.satisfied)
          ⊎ (derive_intent_status bs ≡ IntentStatus.in_progress))
unfolding derive_intent_status
derive_intent_status-satisfied [] = ((λ h. cc, λ h. absurd (h.0 refl)), inr refl)
derive_intent_status-satisfied (b ∷ bs) =
    let q = all_merged-All (b ∷ bs) in
    elim (Bool-cases (all (λ c. bullet_status_eq c.status BulletStatus.merged) (b ∷ bs))) [
      | inl e ↦ rw e ((λ h. (λ n. cc, q.0 e), λ h. refl), inl refl)
      | inr e ↦ rw e ((λ h. cc, λ h. cc (e, q.1 h.1)), inr refl)
    ]
