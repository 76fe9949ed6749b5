-- ===== src/Subscription/Settle.antt =====
-- How an attempt that waits for its descriptor write settles, over any sequence of write results.
use esphome_ble_remote.Prelude.{
  ℕ, ◌≡◌, refl, Bool, true, false, List, [], ◌∷◌, arith, ◌==◌, if◌then◌else◌,
}
use esphome_ble_remote.Subscription.{
  SubscriptionAttemptState, SubscriptionDecision, unmatched, retry_cccd, complete, failed, Stage,
  waiting_for_cccd, cccd_result, own_cccd_write_attempted,
}

-- The client answers a retry by its own write (`handle_cccd_result_` calls `write_current_cccd_`).
abbrev pub answer : SubscriptionAttemptState × SubscriptionDecision → SubscriptionAttemptState
answer (s, retry_cccd) = own_cccd_write_attempted s
answer (s, _) = s

-- The decisions on a sequence of write results, a handle and a success each.
pub cccd_results : SubscriptionAttemptState → List (ℕ × Bool) → List SubscriptionDecision
cccd_results s [] = []
cccd_results s ((handle, success) ∷ results) =
    let r = cccd_result s handle success in r.1 ∷ cccd_results (answer r) results

-- What the decisions should be, with no state but whether the attempt is settled and whether the
-- client has written itself.
pub data Progress : Type 0 where
  framework_write own_write settled : Progress

pub verdict : Progress → Bool → SubscriptionDecision × Progress
verdict settled success = (unmatched, settled)
verdict _ true = (complete, settled)
verdict framework_write false = (retry_cccd, own_write)
verdict own_write false = (failed, settled)

abbrev pub verdicts : ℕ → Progress → List (ℕ × Bool) → List SubscriptionDecision
verdicts cccd p [] = []
verdicts cccd p ((handle, success) ∷ results) =
    let v = if handle == cccd then verdict p success else (unmatched, p) in
    v.0 ∷ verdicts cccd v.1 results

pub progress_of : Stage → Bool → Progress
progress_of waiting_for_cccd false = framework_write
progress_of waiting_for_cccd true = own_write
progress_of _ _ = settled

step-verdict :
    (s : SubscriptionAttemptState) (handle : ℕ) (success : Bool)
    → let r = cccd_result s handle success in
      let p = progress_of s.stage s.write_attempted in
      let v = if handle == s.cccd_handle then verdict p success else (unmatched, p) in
      (r.1 ≡ v.0)
      × (progress_of (answer r).stage (answer r).write_attempted ≡ v.1)
      × ((answer r).cccd_handle ≡ s.cccd_handle)
unfolding cccd_result own_cccd_write_attempted verdict progress_of
step-verdict s handle success = ground arith

-- Over any sequence of write results, from any state: a result for another handle is unmatched; a
-- success completes the attempt; a failure leads to one retry if the client has not written
-- itself, and else fails the attempt; once settled, every result is unmatched.
pub cccd_results-verdicts :
    (s : SubscriptionAttemptState) (results : List (ℕ × Bool))
    → cccd_results s results
      ≡ verdicts s.cccd_handle (progress_of s.stage s.write_attempted) results
unfolding cccd_results
cccd_results-verdicts s [] = refl
cccd_results-verdicts s ((handle, success) ∷ results) =
    let r = cccd_result s handle success in
    let (a, b, c) = step-verdict s handle success in
    rw (cccd_results-verdicts (answer r) results, c, b, a)
