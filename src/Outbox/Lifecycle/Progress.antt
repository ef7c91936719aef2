-- ===== src/Outbox/Lifecycle/Progress.antt =====
-- A job that is neither done nor cancelled can still be carried out
-- (packages/backend/src/closeros/domain/outbox.py).
use closer_os.Prelude.{
  some, ◌+◌, ◌*◌, ◌≡◌, refl, true, false, List, [], ◌∷◌, arith, Option-cases, inl, inr, ap, ◌∙◌,
  ◌⊎◌,
}
use closer_os.Outbox.Types.{
  Uuid, Text, Datetime, JobState, pending, publishing, published, processing, retry_scheduled,
  dead_letter,
}
use closer_os.Outbox.Validate.{worker_id_pattern}
use closer_os.Outbox.Job.{OutboxJob}
use closer_os.Outbox.Calls.{
  Call, claims_for_publishing, marks_published, claims_for_processing, marks_succeeded,
  recovers_publisher_claim, recovers_processor_claim, requeues,
}
use closer_os.Outbox.Contract.{Allowed, LeaseOver, after, apply_of_Allowed}
use closer_os.Outbox.Invariant.{Inv, after-Inv, is_claimed}
use closer_os.Outbox.Lifecycle.{run, settle}
use closer_os.Outbox.Lifecycle.Leases.{is_final}

-- Some calls bring the job to success.
abbrev pub CanSucceed : OutboxJob → Type 0
CanSucceed job = (cs : List Call) × ((run job cs).state ≡ JobState.succeeded)

CanSucceed-step :
    (job : OutboxJob) (c : Call)
    → Inv job
    → Allowed job c
    → CanSucceed (after job c)
    → CanSucceed job
unfolding run
CanSucceed-step job c i a (cs, done) =
    (c ∷ cs, ap (λ r. (run (settle job r) cs).state) (apply_of_Allowed job c i.valid a) ∙ done)

module _ (token : Uuid) (worker_id : Text) (valid_worker : worker_id_pattern worker_id ≡ true) where
  from_published : (job : OutboxJob) → Inv job → job.state ≡ published → CanSucceed job
  unfolding run
  from_published job i s =
      let claim = claims_for_processing token worker_id job.available_at job.version in
      let claimed = after job claim in
      let finish = marks_succeeded (some token) job.available_at claimed.version in
      let a : Allowed job claim = ground arith in
      let b : Allowed claimed finish = (
        refl,
        record {
          same_version = refl;
          same_token = refl;
          expires_at = job.available_at + 300 * 1_000_000;
          expiry = refl;
          running = omega arith;
        },
      ) in
      CanSucceed-step job claim i a
        (CanSucceed-step claimed finish (after-Inv job claim i a) b ([], refl))

  from_pending :
      (job : OutboxJob)
      → Inv job
      → (job.state ≡ pending) ⊎ (job.state ≡ retry_scheduled)
      → CanSucceed job
  from_pending job i s =
      let claim = claims_for_publishing token worker_id job.available_at job.version in
      let claimed = after job claim in
      let publish = marks_published (some token) job.available_at claimed.version in
      let a : Allowed job claim = ground arith in
      let b : Allowed claimed publish = (
        refl,
        record {
          same_version = refl;
          same_token = refl;
          expires_at = job.available_at + 60 * 1_000_000;
          expiry = refl;
          running = omega arith;
        },
      ) in
      let j = after-Inv job claim i a in
      CanSucceed-step job claim i a (
        CanSucceed-step claimed publish j b
          (from_published (after claimed publish) (after-Inv claimed publish j b) refl))

  LeaseOver-of_Inv :
      (job : OutboxJob)
      → Inv job
      → is_claimed job.state ≡ true
      → (now : Datetime) × LeaseOver job now
  LeaseOver-of_Inv job i s = elim (Option-cases job.claim_expires_at) [
    | inl e ↦ absurd (ground arith)
    | inr (now, e) ↦ (now, record { expires_at = now; expiry = e; over = omega arith })
  ]

  from_publishing : (job : OutboxJob) → Inv job → job.state ≡ publishing → CanSucceed job
  from_publishing job i s =
      let (now, over) = LeaseOver-of_Inv job i (ground arith) in
      let c = recovers_publisher_claim now in
      CanSucceed-step job c i (s, over)
        (from_pending (after job c) (after-Inv job c i (s, over)) (inl refl))

  from_processing : (job : OutboxJob) → Inv job → job.state ≡ processing → CanSucceed job
  from_processing job i s =
      let (now, over) = LeaseOver-of_Inv job i (ground arith) in
      let c = recovers_processor_claim now in
      CanSucceed-step job c i (s, over)
        (from_published (after job c) (after-Inv job c i (s, over)) refl)

  from_dead_letter : (job : OutboxJob) → Inv job → job.state ≡ dead_letter → CanSucceed job
  from_dead_letter job i s =
      let c = requeues 0 in
      CanSucceed-step job c i s (from_pending (after job c) (after-Inv job c i s) (inl refl))

  by_state :
      (job : OutboxJob) (s : JobState)
      → Inv job
      → job.state ≡ s
      → is_final s ≡ false
      → CanSucceed job
  by_state job pending i e f = from_pending job i (inl e)
  by_state job retry_scheduled i e f = from_pending job i (inr e)
  by_state job publishing i e f = from_publishing job i e
  by_state job published i e f = from_published job i e
  by_state job processing i e f = from_processing job i e
  by_state job dead_letter i e f = from_dead_letter job i e
  by_state job _ i e f = absurd (ground arith)

  -- From every job that satisfies the invariant and is neither succeeded nor cancelled, some calls
  -- lead to success.
  pub can_succeed : (job : OutboxJob) → Inv job → is_final job.state ≡ false → CanSucceed job
  can_succeed job i f = by_state job job.state i refl f
