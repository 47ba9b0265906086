-- ===== src/Server/Merge.antt =====
-- internal/ui/server.go: the check whether a sealed bullet's change request was merged.
--
-- The provider and git are not modelled: `remote` is the outcome of finding the repository's
-- remote and its provider (none for no remote, an error text for an unknown provider), `found`
-- what FindByHead returns, and `status` what Status returns for a URL.
use sgt.Base.{
  ℕ, zero, suc, String, Bool, true, false, Option, none, some, List, [], ◌∷◌, str_eq, if◌then◌else◌,
  Err, Disk, Exec, pure, query, time_now, ◌>>=◌, ◌>>◌, on_error, update, refl, ◌≡◌, ok, not, ◌∙◌,
}
use sgt.Store.Types.{
  BulletStatus, IntentRecord, BulletRecord, Channel, bullet_channel, Payload, Tables,
}
use sgt.Base.Keeps.{
  Keeps, keeps_rules, Keeps-pure, Keeps-raise, Keeps-bind, Keeps-then, Keeps-select, Keeps-time_now,
}
use sgt.Store.Changes.{record_transition, append_change, append_row, notify_change}
use sgt.Store.Rows.{require_one_row, update_bullets}
use sgt.Store.Bullets.{set_bullet_pr_url, update_bullet_status_and_reason, advance_bullet_status}
use sgt.Store.Bullets.{advance_bullet_status}
use sgt.Store.Types.{merged, sealed, blocked}

pub data Asked (A : Type 0) : Type 0 where
  said : A → Asked A
  refused : String → Asked A

pub record MergeStatus : Type 0 where
  pub is_merged : Bool
  pub into_branch : String

pub record MergeCheckResult : Type 0 where
  pub status : BulletStatus
  pub error : String

abbrev pub report : BulletStatus → String → Exec Tables MergeCheckResult
report status error = pure (record { status = status; error = error })

module _ (error_text : Err → String) (mismatch : String → String → String) where
  unfoldable pub conclude_merge :
      String → BulletRecord → BulletStatus → Asked MergeStatus → Exec Tables MergeCheckResult
  conclude_merge base_branch b shown (refused e) = report shown e
  conclude_merge base_branch b shown (said s) =
      if not s.is_merged
      then report shown ""
      else if str_eq s.into_branch base_branch
      then on_error (advance_bullet_status b.id merged "") (λ e. report shown (error_text e))
          (λ _. report merged "")
      else on_error (advance_bullet_status b.id blocked (mismatch s.into_branch base_branch))
          (λ e. report shown (error_text e))
          (λ _. report blocked (mismatch s.into_branch base_branch))

  -- A bullet with no recorded URL is sealed at the change request that its branch has.
  unfoldable pub check_found :
      String
      → BulletRecord
      → (String → Asked MergeStatus)
      → Asked (Option String)
      → Exec Tables MergeCheckResult
  check_found base_branch b status (refused e) = report b.status e
  check_found base_branch b status (said none) = report b.status ""
  check_found base_branch b status (said (some url)) =
      on_error (set_bullet_pr_url b.id url) (λ e. report b.status (error_text e))
        (λ _.
          on_error (advance_bullet_status b.id sealed "") (λ e. report b.status (error_text e))
            (λ _. conclude_merge base_branch b sealed (status url)))

  unfoldable pub check_bullet_merge_status :
      Asked (Unit {0})
      → Asked (Option String)
      → (String → Asked MergeStatus)
      → String
      → BulletRecord
      → Exec Tables MergeCheckResult
  check_bullet_merge_status (refused e) found status base_branch b = report b.status e
  check_bullet_merge_status (said _) found status base_branch b =
      if str_eq b.pr_url ""
      then check_found base_branch b status found
      else conclude_merge base_branch b b.status (status b.pr_url)

-- The intents are those of `is`.
pub record Intents (is : List IntentRecord) (t : Tables) : Type 0 where
  pub same : t.intents ≡ is

module _ (is : List IntentRecord) where
  answered-Intents :
      (f : Tables → Tables)
      → ((t : Tables) → (f t).intents ≡ t.intents)
      → Keeps (Intents is) (update f)
  answered-Intents f k = record { at = λ d h. go d.faults d h }
    where
      go :
          (fs : List Bool) (d : Disk Tables)
          → Intents is d.db
          → Intents is (
              ((query >>= λ _ d'. (ok tt, record d' { db = f d'.db }))
                (record d { faults = fs })).1.db)
      go [] d h = record { same = k d.db ∙ h.same }
      go (false ∷ fs) d h = record { same = k d.db ∙ h.same }
      go (true ∷ fs) d h = record { same = h.same }

  record_transition-Intents :
      (channel : Channel) (id : String) (payload : Payload)
      → Keeps (Intents is) (record_transition channel id payload)
  unfolding record_transition append_change append_row notify_change
  record_transition-Intents channel id payload =
      Keeps-then _ _
        (Keeps-bind _ _ Keeps-time_now (λ now.
          Keeps-then _ _ (answered-Intents _ (λ t. refl))
            (record { at = λ d h. record { same = h.same } })))
        (Keeps-pure tt)

  require_one_row-Intents :
      (kind id : String) (n : ℕ) → Keeps (Intents is) (require_one_row kind id n)
  unfolding require_one_row
  require_one_row-Intents kind id zero = Keeps-raise _
  require_one_row-Intents kind id (suc n) = Keeps-pure tt

  update_bullets-Intents :
      (id : String) (f : BulletRecord → BulletRecord) → Keeps (Intents is) (update_bullets id f)
  unfolding update_bullets
  update_bullets-Intents id f =
      Keeps-bind _ _ (Keeps-select _) (λ n. record { at = λ d h. record { same = h.same } })

  bullet_update-Intents :
      (id : String) (f : ℕ → BulletRecord → BulletRecord) (payload : Payload)
      → Keeps (Intents is) (
          time_now >>= λ now. update_bullets id (f now) >>= λ n.
          require_one_row "bullet" id n >> record_transition bullet_channel id payload)
  bullet_update-Intents id f payload = Keeps-bind _ _ Keeps-time_now (λ now.
      Keeps-bind _ _ (update_bullets-Intents id (f now)) (λ n.
        Keeps-then _ _ (require_one_row-Intents "bullet" id n)
          (record_transition-Intents bullet_channel id payload)))

  advance-Intents :
      (id : String) (s : BulletStatus) (reason : String)
      → Keeps (Intents is) (advance_bullet_status id s reason)
  unfolding advance_bullet_status update_bullet_status_and_reason
  advance-Intents id s reason = bullet_update-Intents id _ _

  set_url-Intents : (id url : String) → Keeps (Intents is) (set_bullet_pr_url id url)
  unfolding set_bullet_pr_url
  set_url-Intents id url = bullet_update-Intents id _ _

  module _ (error_text : Err → String) (mismatch : String → String → String) where
    conclude-Intents :
        (base : String) (b : BulletRecord) (shown : BulletStatus) (a : Asked MergeStatus)
        → Keeps (Intents is) (conclude_merge error_text mismatch base b shown a)
    unfolding conclude_merge
    conclude-Intents base b shown (refused e) = Keeps-pure _
    conclude-Intents base b shown (said s) = search (keeps_rules, advance-Intents) depth 8

    found-Intents :
        (base : String) (b : BulletRecord) (status : String → Asked MergeStatus)
        (a : Asked (Option String))
        → Keeps (Intents is) (check_found error_text mismatch base b status a)
    unfolding check_found
    found-Intents base b status (refused e) = Keeps-pure _
    found-Intents base b status (said none) = Keeps-pure _
    found-Intents base b status (said (some url)) =
        search (keeps_rules, advance-Intents, set_url-Intents, conclude-Intents) depth 8

    check-Intents :
        (remote : Asked (Unit {0})) (found : Asked (Option String))
        (status : String → Asked MergeStatus) (base : String) (b : BulletRecord)
        → Keeps
            (Intents is)
            (check_bullet_merge_status error_text mismatch remote found status base b)
    unfolding check_bullet_merge_status
    check-Intents (refused e) found status base b = Keeps-pure _
    check-Intents (said _) found status base b =
        search (keeps_rules, found-Intents, conclude-Intents) depth 8

-- The merge check writes no intent, whatever the provider says and whichever statements the
-- database refuses: an intent whose last bullet it marks merged keeps the status it had.
pub check_bullet_merge_status-Intents :
    (error_text : Err → String) (mismatch : String → String → String) (remote : Asked (Unit {0}))
    (found : Asked (Option String)) (status : String → Asked MergeStatus) (base : String)
    (b : BulletRecord) (d : Disk Tables)
    → (check_bullet_merge_status error_text mismatch remote found status base b d).1.db.intents
      ≡ d.db.intents
check_bullet_merge_status-Intents error_text mismatch remote found status base b d =
    ((check-Intents d.db.intents error_text mismatch remote found status base b).at d
      (record { same = refl })).same
