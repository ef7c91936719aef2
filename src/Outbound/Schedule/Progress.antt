-- ===== src/Outbound/Schedule/Progress.antt =====
-- Over whole histories of the outbound tables, the table stays valid and no message goes back
-- (packages/backend/src/closeros/application/outbound_message_service.py and
-- provider_message_send_handler.py).
use closer_os.Prelude.{
  ℕ, ◌≤◌, ◌≡◌, refl, false, some, List, [], ◌∷◌, ok, arith, All, count, Uuid, Text, subst, sym,
  Bool-cases, inl, inr, ap, ◌∙◌,
}
use closer_os.Outbound.Message.{OutboundMessage, new_message}
use closer_os.Outbound.Store.{
  World, get_message, has_message, write_message, updated_row, is_message,
}
use closer_os.Outbound.Store.Table.{
  count-write_message, has_message-get, get-write_message, All-write_message,
}
use closer_os.Outbound.Schedule.{Step, step, run}
use closer_os.Outbound.Schedule.Effects.{stage, Effect, unchanged, moved, added}
use closer_os.Outbound.Schedule.Once.{has_id}
use closer_os.Outbound.Schedule.Steps.{step-Effect}

abbrev pub IsAccepted : OutboundMessage → Type 0
IsAccepted m = new_message m ≡ ok m

-- `__post_init__` accepts every row as it is, and ids are unique.
pub record IsValid (rows : List OutboundMessage) : Type 0 where
  pub accepted : All IsAccepted rows
  pub unique : (id : Uuid) → count (has_id id) rows ≤ 1

updated_row-IsAccepted :
    (new row : OutboundMessage) → IsAccepted new → IsAccepted (updated_row new row)
unfolding new_message
updated_row-IsAccepted new row h = ground arith

count_absent :
    (id : Uuid) (rows : List OutboundMessage)
    → has_message id rows ≡ false
    → count (has_id id) rows ≡ 0
unfolding has_message
count_absent id [] h = refl
count_absent id (row ∷ rows) h = ground (arith, count_absent id rows)

Effect-IsValid :
    (rows rows' : List OutboundMessage) → Effect rows rows' → IsValid rows → IsValid rows'
Effect-IsValid rows rows' (unchanged e) v = subst IsValid (sym e) v
Effect-IsValid rows rows' (moved t id row new m) v = record {
  accepted = subst (All IsAccepted) (sym m.written) (
      All-write_message IsAccepted new rows v.accepted
        (λ r k. updated_row-IsAccepted new r m.valid));
  unique = λ i. ground (
    arith,
    v.unique i,
    count-write_message t id (has_id i) new rows row m.tenant_kept m.id_kept m.found,
  );
}
Effect-IsValid rows rows' (added new e fresh s k) v = record {
  accepted = subst (All IsAccepted) (sym e) (k, v.accepted);
  unique = λ i. ground (arith, v.unique i, count_absent new.id rows fresh);
}

-- From a table in which every message is valid and ids are unique, any history of transactions leads
-- to such a table.
pub run-IsValid :
    (uuid : ℕ → Uuid) (uuid_text : Uuid → Text) (steps : List Step) (world : World)
    → IsValid world.messages
    → IsValid (run uuid uuid_text steps world).messages
unfolding run
run-IsValid uuid uuid_text [] world v = v
run-IsValid uuid uuid_text (s ∷ steps) world v =
    run-IsValid uuid uuid_text steps (step uuid uuid_text s world)
      (Effect-IsValid world.messages _ (step-Effect uuid uuid_text s world) v)

-- The message is stored, and has come as far as `row`, or further.
pub record HasPassed (t id : Uuid) (row : OutboundMessage) (rows : List OutboundMessage)
    : Type 0 where
  pub current : OutboundMessage
  pub stored : get_message t id rows ≡ some current
  pub further : stage row.status ≤ stage current.status
  pub newer : row.version ≤ current.version

get-write_other :
    (t id : Uuid) (new : OutboundMessage) (rows : List OutboundMessage)
    → is_message t id new ≡ false
    → get_message t id (write_message new rows) ≡ get_message t id rows
unfolding get_message write_message
get-write_other t id new [] h = refl
get-write_other t id new (row ∷ rows) h = ground (arith, get-write_other t id new rows h)

get-added :
    (t id : Uuid) (new : OutboundMessage) (rows : List OutboundMessage) (row : OutboundMessage)
    → has_message new.id rows ≡ false
    → get_message t id rows ≡ some row
    → get_message t id (new ∷ rows) ≡ some row
unfolding get_message
get-added t id new rows row fresh g = ground (arith, has_message-get t id rows row g)

Effect-HasPassed :
    (t id : Uuid) (row : OutboundMessage) (rows rows' : List OutboundMessage)
    → Effect rows rows'
    → get_message t id rows ≡ some row
    → HasPassed t id row rows'
Effect-HasPassed t id row rows rows' (unchanged e) g = record {
  current = row;
  stored = ap (get_message t id) e ∙ g;
  further = omega arith;
  newer = omega arith;
}
Effect-HasPassed t id row rows rows' (moved t' id' row' new m) g =
    elim (Bool-cases (is_message t id new)) [
      | inl e ↦ record {
        current = updated_row new row';
        stored =
            ground (arith, get-write_message t' id' new rows row' m.tenant_kept m.id_kept m.found);
        further = ground arith;
        newer = ground arith;
      }
      | inr e ↦ record {
        current = row;
        stored = ap (get_message t id) m.written ∙ get-write_other t id new rows e ∙ g;
        further = omega arith;
        newer = omega arith;
      }
    ]
Effect-HasPassed t id row rows rows' (added new e fresh s k) g = record {
  current = row;
  stored = ap (get_message t id) e ∙ get-added t id new rows row fresh g;
  further = omega arith;
  newer = omega arith;
}

-- A stored message stays stored, and over any history of transactions neither the stage of its
-- status nor its version goes back.
pub run-HasPassed :
    (uuid : ℕ → Uuid) (uuid_text : Uuid → Text) (t id : Uuid) (row : OutboundMessage)
    (steps : List Step) (world : World)
    → get_message t id world.messages ≡ some row
    → HasPassed t id row (run uuid uuid_text steps world).messages
unfolding run
run-HasPassed uuid uuid_text t id row [] world g = record {
  current = row;
  stored = g;
  further = omega arith;
  newer = omega arith;
}
run-HasPassed uuid uuid_text t id row (s ∷ steps) world g =
    let now = Effect-HasPassed t id row world.messages _ (step-Effect uuid uuid_text s world) g in
    let last =
      run-HasPassed uuid uuid_text t id now.current steps (step uuid uuid_text s world)
        now.stored in
    record {
      current = last.current;
      stored = last.stored;
      further = omega (arith, now.further, last.further);
      newer = omega (arith, now.newer, last.newer);
    }
