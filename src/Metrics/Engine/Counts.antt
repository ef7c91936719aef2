-- ===== src/Metrics/Engine/Counts.antt =====
-- How the figures of a snapshot are related
-- (packages/backend/src/closeros/application/metrics_engine.py, _calculate_values).
use closer_os.Prelude.{
  ℕ, ◌+◌, ◌≡◌, refl, ap, sym, ◌∙◌, Bool, true, false, not, ◌||◌, Option, none, some, List, [], ◌∷◌,
  map, ◌==◌, ==_iff, count, length, Uuid, mem, NoDup, set_of-NoDup, mem-set_of, arith,
}
use closer_os.Metrics.Statistics.{sorted, insert_sorted}
use closer_os.Metrics.Source.{MetricsMessageRow, MetricsSourceData, is_from_customer}
use closer_os.Metrics.Engine.{
  select, first_where, message_at_most, answer_latency, first_response, in_thread, add_response,
  responses, thread_ids_of, figures,
}

-- Sets of UUIDs and their sizes
count-split :
    (p : Uuid → Bool) (xs : List Uuid)
    → count p xs + length (select (λ x. not (p x)) xs) ≡ length xs
count-split p [] = omega arith
count-split p (x ∷ xs) = ground (arith, count-split p xs)

count-absent : (r : Uuid) (xs : List Uuid) → mem r xs ≡ false → count (λ x. r == x) xs ≡ 0
count-absent r [] h = refl
count-absent r (x ∷ xs) h = ground (arith, count-absent r xs)

count-present :
    (r : Uuid) (xs : List Uuid) → NoDup xs → mem r xs ≡ true → count (λ x. r == x) xs ≡ 1
count-present r [] n h = ground arith
count-present r (x ∷ xs) n h = ground (arith, count-present r xs, count-absent r xs)

mem-same : (r x : Uuid) (rs : List Uuid) → (r == x) ≡ true → mem x rs ≡ mem r rs
mem-same r x rs h = ap (λ y. mem y rs) (sym ((==_iff r x).0 h))

count-cons :
    (r : Uuid) (rs xs : List Uuid)
    → mem r rs ≡ false
    → count (λ x. mem x (r ∷ rs)) xs ≡ count (λ x. r == x) xs + count (λ x. mem x rs) xs
count-cons r rs [] h = omega arith
count-cons r rs (x ∷ xs) h = ground (arith, count-cons r rs xs, mem-same r x rs)

count-none : (xs : List Uuid) → count (λ x. mem x []) xs ≡ 0
count-none [] = refl
count-none (x ∷ xs) = count-none xs

count-subset :
    (rs xs : List Uuid)
    → NoDup rs
    → NoDup xs
    → ((x : Uuid) → mem x rs ≡ true → mem x xs ≡ true)
    → count (λ x. mem x rs) xs ≡ length rs
count-subset [] xs n m sub = count-none xs
count-subset (r ∷ rs) xs n m sub =
    let here = count-present r xs m (sub r (ground arith)) in
    let rest = count-subset rs xs n.1 m (λ x h. sub x (ground arith)) in
    omega (arith, count-cons r rs xs n.0, here, rest)

-- Whether some message passes a test
abbrev any : (MetricsMessageRow → Bool) → List MetricsMessageRow → Bool
any p [] = false
any p (x ∷ xs) = p x || any p xs

any-insert_sorted :
    (p : MetricsMessageRow → Bool) (x : MetricsMessageRow) (xs : List MetricsMessageRow)
    → any p (insert_sorted message_at_most x xs) ≡ (p x || any p xs)
unfolding insert_sorted
any-insert_sorted p x [] = refl
any-insert_sorted p x (y ∷ ys) = ground (arith, any-insert_sorted p x ys)

any-sorted :
    (p : MetricsMessageRow → Bool) (xs : List MetricsMessageRow)
    → any p (sorted message_at_most xs) ≡ any p xs
unfolding sorted
any-sorted p [] = refl
any-sorted p (x ∷ xs) =
    any-insert_sorted p x (sorted message_at_most xs) ∙ ap (λ b. p x || b) (any-sorted p xs)

first_where-any :
    (p : MetricsMessageRow → Bool) (xs : List MetricsMessageRow) (x : MetricsMessageRow)
    → first_where p xs ≡ some x
    → any p xs ≡ true
first_where-any p [] x h = ground arith
first_where-any p (y ∷ ys) x h = ground (arith, first_where-any p ys x)

answered :
    (ordered : List MetricsMessageRow) (earliest : Option MetricsMessageRow) (latency : ℕ)
    → answer_latency ordered earliest ≡ some latency
    → (m : MetricsMessageRow) × (earliest ≡ some m)
answered ordered none latency h = ground arith
answered ordered (some m) latency h = (m, refl)

-- A thread with a response has a message of the customer.
first_response-any :
    (messages : List MetricsMessageRow) (latency : ℕ)
    → first_response messages ≡ some latency
    → any is_from_customer messages ≡ true
unfolding first_response
first_response-any messages latency h =
    let ordered = sorted message_at_most messages in
    let (m, found) = answered ordered (first_where is_from_customer ordered) latency h in
    sym (any-sorted is_from_customer messages) ∙ first_where-any is_from_customer ordered m found

any-mem :
    (thread_id : Uuid) (messages : List MetricsMessageRow)
    → any is_from_customer (select (in_thread thread_id) messages) ≡ true
    → mem thread_id (map (λ m. m.conversation_thread_id) (select is_from_customer messages)) ≡ true
any-mem thread_id [] h = ground arith
any-mem thread_id (m ∷ messages) h = ground (arith, any-mem thread_id messages)

module _ (messages : List MetricsMessageRow) where
  any-same :
      (t x : Uuid)
      → (t == x) ≡ true
      → any is_from_customer (select (in_thread t) messages)
        ≡ any is_from_customer (select (in_thread x) messages)
  any-same t x h = ap (λ y. any is_from_customer (select (in_thread y) messages)) ((==_iff t x).0 h)

  responded-any :
      (x : Uuid) (thread_ids : List Uuid)
      → mem x (responses messages thread_ids).responded_threads ≡ true
      → any is_from_customer (select (in_thread x) messages) ≡ true
  unfolding responses
  responded-any x [] h = ground arith
  responded-any x (t ∷ thread_ids) h =
      by_response (first_response (select (in_thread t) messages)) refl (responded-any x thread_ids)
        h
    where
      by_response :
          (o : Option ℕ)
          → first_response (select (in_thread t) messages) ≡ o
          → (mem x (responses messages thread_ids).responded_threads ≡ true
              → any is_from_customer (select (in_thread x) messages) ≡ true)
          → mem x (add_response t o (responses messages thread_ids)).responded_threads ≡ true
          → any is_from_customer (select (in_thread x) messages) ≡ true
      by_response none e later m = later m
      by_response (some latency) e later m =
          ground (arith, any-same t x, first_response-any (select (in_thread t) messages) latency)

  responded-mem :
      (x : Uuid) (thread_ids : List Uuid)
      → mem x thread_ids ≡ false
      → mem x (responses messages thread_ids).responded_threads ≡ false
  unfolding responses
  responded-mem x [] h = refl
  responded-mem x (t ∷ thread_ids) h = ground (arith, responded-mem x thread_ids)

  responded-NoDup :
      (thread_ids : List Uuid)
      → NoDup thread_ids
      → NoDup (responses messages thread_ids).responded_threads
  unfolding responses
  responded-NoDup [] n = tt
  responded-NoDup (t ∷ thread_ids) n =
      ground (arith, responded-NoDup thread_ids, responded-mem t thread_ids)

length-responses :
    (messages : List MetricsMessageRow) (thread_ids : List Uuid)
    → NoDup thread_ids
    → length (responses messages thread_ids).response_latencies
      ≡ length (responses messages thread_ids).responded_threads
unfolding responses
length-responses messages [] n = refl
length-responses messages (t ∷ thread_ids) n =
    ground (arith, length-responses messages thread_ids, responded-mem messages t thread_ids)

-- The responded and the unresponded threads are together those with a message of the customer, and
-- there is one latency for each responded thread.
pub figures-partition :
    (messages : List MetricsMessageRow) (thread_ids sales_case_ids : List Uuid)
    (source_data : MetricsSourceData)
    → let f = figures messages thread_ids sales_case_ids source_data in
      (length f.responded_threads + length f.unresponded_threads ≡ length f.inbound_threads)
      × (length f.response_latencies ≡ length f.responded_threads)
unfolding figures
figures-partition messages thread_ids sales_case_ids source_data =
    let responded = responses messages (thread_ids_of messages) in
    let inbound = thread_ids_of (select is_from_customer messages) in
    let ids = responded.responded_threads in
    let distinct =
      set_of-NoDup (map (λ (m : MetricsMessageRow). m.conversation_thread_id) messages) in
    let known =
      count-subset ids inbound (responded-NoDup messages (thread_ids_of messages) distinct)
        (set_of-NoDup (map (λ m. m.conversation_thread_id) (select is_from_customer messages)))
        (λ x h.
          mem-set_of x (map (λ m. m.conversation_thread_id) (select is_from_customer messages))
          ∙ any-mem x messages (responded-any messages x (thread_ids_of messages) h)) in
    (
      omega (arith, known, count-split (λ t. mem t ids) inbound),
      length-responses messages (thread_ids_of messages) distinct,
    )
