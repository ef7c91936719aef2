-- ===== src/Metrics/Attribution/Latest.antt =====
-- Which assignment decides
-- (packages/backend/src/closeros/application/manager_attribution.py).
use closer_os.Prelude.{
  ◌<◌, ◌≤◌, ◌≡◌, ◌⊎◌, refl, subst, Bool, true, false, not, ◌&&◌, Option, none, some, List, [], ◌∷◌,
  ltb, ◌==◌, if◌then◌else◌, same_option, Uuid, Datetime, dict_get, dict_set, dict_get-set, All,
  arith, ◌∙◌, ◌||◌, mem, NoDup,
}
use closer_os.Metrics.Source.{MetricsAssignmentRow, MetricsThreadRow}
use closer_os.Metrics.Attribution.{
  assignment_precedence, wins, consider, winning_assignments, threads_by_id, manager_of_thread,
  attribute_each, attribute_threads_to_managers,
}

-- The assignment is on this key and starts by the end of the window.
abbrev pub is_eligible :
    (MetricsAssignmentRow → Option Uuid) → Datetime → Uuid → MetricsAssignmentRow → Bool
is_eligible key_of window_end key a =
    not (ltb window_end a.assigned_at) && same_option (key_of a) (some key)

abbrev pub Occurs : MetricsAssignmentRow → List MetricsAssignmentRow → Type 0
Occurs w [] = ⊥
Occurs w (a ∷ rest) = (w ≡ a) ⊎ Occurs w rest

-- The assignment starts earlier, or at the same time with an identifier that is not greater.
abbrev pub NotLater : (a w : MetricsAssignmentRow) → Type 0
NotLater a w = (a.assigned_at < w.assigned_at) ⊎ ((a.assigned_at ≡ w.assigned_at) × (a.id ≤ w.id))

-- The latest of the assignments that pass a test, if any does
abbrev pub IsLatest :
    (MetricsAssignmentRow → Bool) → List MetricsAssignmentRow → Option MetricsAssignmentRow → Type 0
IsLatest eligible rows none = All (λ a. eligible a ≡ false) rows
IsLatest eligible rows (some w) =
    Occurs w rows × (eligible w ≡ true) × All (λ a. (eligible a ≡ false) ⊎ NotLater a w) rows

abbrev NotBeaten : Option MetricsAssignmentRow → MetricsAssignmentRow → Type 0
NotBeaten none w = Unit
NotBeaten (some c) w = NotLater c w

-- The same, of rows that are met with a winner `current` so far
abbrev IsNext :
    (MetricsAssignmentRow → Bool)
    → List MetricsAssignmentRow
    → (current : Option MetricsAssignmentRow) → Option MetricsAssignmentRow
    → Type 0
IsNext eligible rows current none = (current ≡ none) × All (λ a. eligible a ≡ false) rows
IsNext eligible rows current (some w) =
    ((current ≡ some w) ⊎ (Occurs w rows × (eligible w ≡ true)))
    × NotBeaten current w
    × All (λ a. (eligible a ≡ false) ⊎ NotLater a w) rows

abbrev pick :
    (eligible : Bool)
    → MetricsAssignmentRow
    → Option MetricsAssignmentRow
    → Option MetricsAssignmentRow
pick eligible a current = if eligible && wins a current then some a else current

pick-IsNext :
    (eligible : MetricsAssignmentRow → Bool) (a : MetricsAssignmentRow)
    (rest : List MetricsAssignmentRow) (current r : Option MetricsAssignmentRow)
    → IsNext eligible rest (pick (eligible a) a current) r
    → IsNext eligible (a ∷ rest) current r
unfolding assignment_precedence wins
pick-IsNext eligible a rest none none h = ground arith
pick-IsNext eligible a rest (some c) none h = ground arith
pick-IsNext eligible a rest none (some w) h = ground arith
pick-IsNext eligible a rest (some c) (some w) h = ground arith

module _ (key_of : MetricsAssignmentRow → Option Uuid) (window_end : Datetime) (key : Uuid) where
  get-consider :
      (a : MetricsAssignmentRow) (winning : List (Uuid × MetricsAssignmentRow))
      → dict_get key
          (if ltb window_end a.assigned_at then winning else consider a (key_of a) winning)
        ≡ pick (is_eligible key_of window_end key a) a (dict_get key winning)
  unfolding consider
  get-consider a winning = at_key (key_of a)
    where
      at_key :
          (k : Option Uuid)
          → dict_get key (if ltb window_end a.assigned_at then winning else consider a k winning)
            ≡ pick
                (not (ltb window_end a.assigned_at) && same_option k (some key))
                a
                (dict_get key winning)
      at_key none = ground arith
      at_key (some k) = ground (arith, dict_get-set k key a winning)

  winning-IsNext :
      (rows : List MetricsAssignmentRow) (winning : List (Uuid × MetricsAssignmentRow))
      → IsNext
          (is_eligible key_of window_end key)
          rows
          (dict_get key winning)
          (dict_get key (winning_assignments key_of window_end rows winning))
  unfolding winning_assignments assignment_precedence
  winning-IsNext [] winning = nothing (dict_get key winning)
    where
      nothing :
          (o : Option MetricsAssignmentRow) → IsNext (is_eligible key_of window_end key) [] o o
      nothing none = ground arith
      nothing (some w) = ground arith
  winning-IsNext (a ∷ rest) winning =
      pick-IsNext (is_eligible key_of window_end key) a rest (dict_get key winning) _ (
        subst
          (λ o.
            IsNext (is_eligible key_of window_end key) rest o
              (dict_get key (winning_assignments key_of window_end (a ∷ rest) winning)))
          (get-consider a winning)
          (winning-IsNext rest
            (if ltb window_end a.assigned_at then winning else consider a (key_of a) winning)))

  pub winning-IsLatest :
      (rows : List MetricsAssignmentRow)
      → IsLatest
          (is_eligible key_of window_end key)
          rows
          (dict_get key (winning_assignments key_of window_end rows []))
  winning-IsLatest rows = without_current _ (winning-IsNext rows [])
    where
      without_current :
          (r : Option MetricsAssignmentRow)
          → IsNext (is_eligible key_of window_end key) rows none r
          → IsLatest (is_eligible key_of window_end key) rows r
      without_current none h = h.1
      without_current (some w) h = ground arith

-- Each key of a dict occurs once.
abbrev keys {ℓ} : {Value : Type ℓ} → List (Uuid × Value) → List Uuid
keys [] = []
keys ((k, v) ∷ rest) = k ∷ keys rest

keys-dict_set :
    (x k : Uuid) (thread : MetricsThreadRow) (dict : List (Uuid × MetricsThreadRow))
    → mem x (keys (dict_set k thread dict)) ≡ (k == x || mem x (keys dict))
keys-dict_set x k thread [] = refl
keys-dict_set x k thread ((j, old) ∷ rest) = ground (arith, keys-dict_set x k thread rest)

dict_set-NoDup :
    (k : Uuid) (thread : MetricsThreadRow) (dict : List (Uuid × MetricsThreadRow))
    → NoDup (keys dict)
    → NoDup (keys (dict_set k thread dict))
dict_set-NoDup k thread [] n = (refl, tt)
dict_set-NoDup k thread ((j, old) ∷ rest) n =
    ground (arith, dict_set-NoDup k thread rest, keys-dict_set j k thread rest)

threads_by_id-NoDup :
    (threads : List MetricsThreadRow) (dict : List (Uuid × MetricsThreadRow))
    → NoDup (keys dict)
    → NoDup (keys (threads_by_id threads dict))
threads_by_id-NoDup [] dict n = n
threads_by_id-NoDup (thread ∷ rest) dict n =
    threads_by_id-NoDup rest (dict_set thread.id thread dict)
      (dict_set-NoDup thread.id thread dict n)

module _ (by_thread by_sales_case : List (Uuid × MetricsAssignmentRow)) (thread_id : Uuid) where
  attribute-absent :
      (dict : List (Uuid × MetricsThreadRow))
      → mem thread_id (keys dict) ≡ false
      → dict_get thread_id (attribute_each by_thread by_sales_case dict) ≡ none
  unfolding attribute_each
  attribute-absent [] h = refl
  attribute-absent ((k, thread) ∷ rest) h = ground (arith, attribute-absent rest)

  attribute-present :
      (dict : List (Uuid × MetricsThreadRow)) (thread : MetricsThreadRow)
      → NoDup (keys dict)
      → dict_get thread_id dict ≡ some thread
      → dict_get thread_id (attribute_each by_thread by_sales_case dict)
        ≡ manager_of_thread by_thread by_sales_case thread_id thread
  unfolding attribute_each
  attribute-present [] thread n h = ground arith
  attribute-present ((k, row) ∷ rest) thread n h =
      ground (arith, attribute-present rest thread, attribute-absent rest)

-- The assignment of the sales case, for a thread that has one
abbrev pub IsLatestOfCase :
    Datetime → List MetricsAssignmentRow → Option Uuid → Option MetricsAssignmentRow → Type 0
IsLatestOfCase window_end assignments none assignment = assignment ≡ none
IsLatestOfCase window_end assignments (some sales_case_id) assignment =
    IsLatest (is_eligible (λ a. a.sales_case_id) window_end sales_case_id) assignments assignment

-- The manager of the thread's own assignment, or else of its sales case's
abbrev pub chosen_manager : (own of_case : Option MetricsAssignmentRow) → Option Uuid
chosen_manager (some own) of_case = some own.manager_user_id
chosen_manager none (some of_case) = some of_case.manager_user_id
chosen_manager none none = none

abbrev case_assignment :
    List (Uuid × MetricsAssignmentRow) → Option Uuid → Option MetricsAssignmentRow
case_assignment by_sales_case none = none
case_assignment by_sales_case (some k) = dict_get k by_sales_case

case_assignment-IsLatest :
    (window_end : Datetime) (assignments : List MetricsAssignmentRow) (k : Option Uuid)
    → IsLatestOfCase window_end assignments k
        (case_assignment (winning_assignments (λ a. a.sales_case_id) window_end assignments []) k)
case_assignment-IsLatest window_end assignments none = refl
case_assignment-IsLatest window_end assignments (some k) =
    winning-IsLatest (λ a. a.sales_case_id) window_end k assignments

manager_of_thread-chosen :
    (by_thread by_sales_case : List (Uuid × MetricsAssignmentRow)) (thread_id : Uuid)
    (thread : MetricsThreadRow)
    → manager_of_thread by_thread by_sales_case thread_id thread
      ≡ chosen_manager
          (dict_get thread_id by_thread)
          (case_assignment by_sales_case thread.sales_case_id)
unfolding manager_of_thread
manager_of_thread-chosen by_thread by_sales_case thread_id thread = ground arith

-- For a thread of the source, the manager that attribute_threads_to_managers gives is the one of the
-- thread's latest assignment by the end of the window, if there is one, and else the one of its sales
-- case's latest assignment by then; without both, the thread is not attributed.
pub attribute_threads_to_managers-IsLatest :
    (threads : List MetricsThreadRow) (assignments : List MetricsAssignmentRow)
    (window_end : Datetime) (thread_id : Uuid) (thread : MetricsThreadRow)
    → dict_get thread_id (threads_by_id threads []) ≡ some thread
    → (own : Option MetricsAssignmentRow) × (of_case : Option MetricsAssignmentRow) × IsLatest
        (is_eligible (λ a. a.conversation_thread_id) window_end thread_id)
        assignments
        own
      × IsLatestOfCase window_end assignments thread.sales_case_id of_case
      × (dict_get thread_id (attribute_threads_to_managers threads assignments window_end)
          ≡ chosen_manager own of_case)
unfolding attribute_threads_to_managers
attribute_threads_to_managers-IsLatest threads assignments window_end thread_id thread h =
    let by_thread = winning_assignments (λ a. a.conversation_thread_id) window_end assignments [] in
    let by_sales_case = winning_assignments (λ a. a.sales_case_id) window_end assignments [] in
    (
      dict_get thread_id by_thread,
      case_assignment by_sales_case thread.sales_case_id,
      winning-IsLatest (λ a. a.conversation_thread_id) window_end thread_id assignments,
      case_assignment-IsLatest window_end assignments thread.sales_case_id,
      attribute-present by_thread by_sales_case thread_id (threads_by_id threads []) thread
            (threads_by_id-NoDup threads [] tt) h
          ∙ manager_of_thread-chosen by_thread by_sales_case thread_id thread,
    )
