-- ===== src/Outbox/Lifecycle/Leases.antt =====
-- Leases and final states (packages/backend/src/closeros/domain/outbox.py): who may change a job.
use closer_os.Prelude.{
  ◌<◌, ◌≡◌, ◌≢◌, ◌⊎◌, inl, inr, refl, Bool, true, false, Option, none, some, ok, err, List, [], ◌∷◌,
  arith, All, ap, ◌∙◌,
}
use closer_os.Outbox.Types.{Uuid, Datetime, Outcome, JobState, cancelled, OutboxError, JobPhase}
use closer_os.Outbox.Job.{OutboxJob}
use closer_os.Outbox.Calls.{
  Call, apply, claims_for_publishing, marks_published, schedules_retry, marks_dead_letter,
  claims_for_processing, marks_succeeded, recovers_publisher_claim, recovers_processor_claim,
  renews_claim, requeues,
}
use closer_os.Outbox.Contract.{apply-Allowed}
use closer_os.Outbox.Invariant.{is_claimed}
use closer_os.Outbox.Lifecycle.{run, settle}

-- The `now` of a call.
abbrev pub time : Call → Datetime
time (claims_for_publishing token worker_id now version) = now
time (marks_published token now version) = now
time (schedules_retry token phase code now version) = now
time (marks_dead_letter token code now version) = now
time (claims_for_processing token worker_id now version) = now
time (marks_succeeded token now version) = now
time (recovers_publisher_claim now) = now
time (recovers_processor_claim now) = now
time (renews_claim token now version) = now
time (requeues now) = now

-- The token that a call presents; a claim brings a new one and does not present it.
abbrev pub presents : Call → Option Uuid
presents (marks_published token now version) = token
presents (schedules_retry token phase code now version) = token
presents (marks_dead_letter token code now version) = token
presents (marks_succeeded token now version) = token
presents (renews_claim token now version) = token
presents _ = none

Outcome-cases :
    (r : Outcome OutboxJob) → ((job : OutboxJob) × (r ≡ ok job)) ⊎ ((e : OutboxError) × (r ≡ err e))
Outcome-cases (ok job) = inl (job, refl)
Outcome-cases (err e) = inr (e, refl)

settle-refused :
    (job : OutboxJob) (r : Outcome OutboxJob)
    → ((job' : OutboxJob) → r ≢ ok job')
    → settle job r ≡ job
settle-refused job (ok job') h = absurd (h job' refl)
settle-refused job (err e) h = refl

-- A call that succeeds while the lease runs presents the token of the claim.
holder_needed :
    (job job' : OutboxJob) (c : Call) (expires_at : Datetime)
    → is_claimed job.state ≡ true
    → job.claim_expires_at ≡ some expires_at
    → time c < expires_at
    → apply job c ≡ ok job'
    → presents c ≡ job.claim_token
holder_needed job job' (claims_for_publishing t w now v) e claimed expiry early h =
    ground (arith, apply-Allowed job (claims_for_publishing t w now v) h)
holder_needed job job' (schedules_retry t p code now v) e claimed expiry early h =
    ground (arith, apply-Allowed job (schedules_retry t p code now v) h)
holder_needed job job' c e claimed expiry early h = ground (arith, apply-Allowed job c h)

module _ (job : OutboxJob) (expires_at : Datetime) where
  -- A call of another worker: made before the lease ends, without the token of the claim.
  abbrev pub Intrudes : Call → Type 0
  Intrudes c = (time c < expires_at) × (presents c ≢ job.claim_token)

  -- While a claimed job's lease runs, no sequence of calls made before its end without the token of
  -- the claim changes the job.
  pub lease_protects :
      (cs : List Call)
      → is_claimed job.state ≡ true
      → job.claim_expires_at ≡ some expires_at
      → All Intrudes cs
      → run job cs ≡ job
  unfolding run
  lease_protects [] claimed expiry tt = refl
  lease_protects (c ∷ cs) claimed expiry (bad, rest) =
      ap (λ j. run j cs)
        (settle-refused job (apply job c)
          (λ job' h. bad.1 (holder_needed job job' c expires_at claimed expiry bad.0 h)))
      ∙ lease_protects cs claimed expiry rest

abbrev pub is_final : JobState → Bool
is_final JobState.succeeded = true
is_final cancelled = true
is_final _ = false

final_refuses :
    (job job' : OutboxJob) (c : Call) → is_final job.state ≡ true → apply job c ≢ ok job'
final_refuses job job' (claims_for_publishing t w now v) f h =
    ground (arith, apply-Allowed job (claims_for_publishing t w now v) h)
final_refuses job job' (schedules_retry t JobPhase.publisher code now v) f h =
    ground (arith, apply-Allowed job (schedules_retry t JobPhase.publisher code now v) h)
final_refuses job job' c f h = ground (arith, apply-Allowed job c h)

-- No sequence of calls changes a job that has succeeded or was cancelled.
pub final_absorbs :
    (job : OutboxJob) (cs : List Call) → is_final job.state ≡ true → run job cs ≡ job
unfolding run
final_absorbs job [] f = refl
final_absorbs job (c ∷ cs) f =
    ap (λ j. run j cs) (settle-refused job (apply job c) (λ job' h. final_refuses job job' c f h))
    ∙ final_absorbs job cs f
