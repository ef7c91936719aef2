-- ===== src/Metrics/Attribution.antt =====
-- Which manager a thread or a sales case counts for
-- (packages/backend/src/closeros/application/manager_attribution.py). The text of a UUID has a fixed
-- width, so its order is that of the numbers.
use closer_os.Prelude.{
  Bool, true, false, ◌||◌, Option, none, some, List, [], ◌∷◌, ltb, ◌==◌, if◌then◌else◌, Uuid,
  Datetime, dict_get, dict_set, mem, set_add,
}
use closer_os.Metrics.Source.{MetricsAssignmentRow, MetricsThreadRow, MetricsSourceData}
pub mod Latest

pub record ManagerMetricScope : Type 0 where
  pub thread_ids : List Uuid
  pub sales_case_ids : List Uuid

unfoldable pub assignment_precedence : (candidate current : MetricsAssignmentRow) → Bool
assignment_precedence candidate current =
    if candidate.assigned_at == current.assigned_at
    then ltb current.id candidate.id
    else ltb current.assigned_at candidate.assigned_at

-- `if current is None or assignment_precedence(assignment, current)`
unfoldable pub wins : MetricsAssignmentRow → Option MetricsAssignmentRow → Bool
unfolding assignment_precedence
wins assignment none = true
wins assignment (some current) = assignment_precedence assignment current

-- The update of a dict of winning assignments at one key, which an assignment may lack
unfoldable pub consider :
    MetricsAssignmentRow
    → Option Uuid
    → List (Uuid × MetricsAssignmentRow)
    → List (Uuid × MetricsAssignmentRow)
unfolding wins
consider assignment none winning = winning
consider assignment (some key) winning =
    if wins assignment (dict_get key winning) then dict_set key assignment winning else winning

-- The loop over the assignments, for the dict whose key is read by `key_of`. The source fills two such
-- dicts in one loop; neither reads the other.
unfoldable pub winning_assignments :
    (key_of : MetricsAssignmentRow → Option Uuid) (window_end : Datetime)
    → List MetricsAssignmentRow
    → List (Uuid × MetricsAssignmentRow)
    → List (Uuid × MetricsAssignmentRow)
unfolding consider
winning_assignments key_of window_end [] winning = winning
winning_assignments key_of window_end (assignment ∷ rest) winning =
    winning_assignments key_of window_end rest (
      if ltb window_end assignment.assigned_at
      then winning
      else consider assignment (key_of assignment) winning)

-- `{thread.id: thread for thread in threads}`
abbrev pub threads_by_id :
    List MetricsThreadRow → List (Uuid × MetricsThreadRow) → List (Uuid × MetricsThreadRow)
threads_by_id [] dict = dict
threads_by_id (thread ∷ rest) dict = threads_by_id rest (dict_set thread.id thread dict)

abbrev pub manager_of_case : List (Uuid × MetricsAssignmentRow) → Option Uuid → Option Uuid
manager_of_case by_sales_case none = none
manager_of_case by_sales_case (some sales_case_id) = elim (dict_get sales_case_id by_sales_case) [
  | none ↦ none
  | some case_assignment ↦ some case_assignment.manager_user_id
]

-- The manager of one thread: by its own assignment, or by that of its sales case
unfoldable pub manager_of_thread :
    (by_thread by_sales_case : List (Uuid × MetricsAssignmentRow))
    → Uuid
    → MetricsThreadRow
    → Option Uuid
manager_of_thread by_thread by_sales_case thread_id thread = elim (dict_get thread_id by_thread) [
  | some thread_assignment ↦ some thread_assignment.manager_user_id
  | none ↦ manager_of_case by_sales_case thread.sales_case_id
]

-- The loop over the threads; a thread without a manager is left out.
unfoldable pub attribute_each :
    (by_thread by_sales_case : List (Uuid × MetricsAssignmentRow))
    → List (Uuid × MetricsThreadRow)
    → List (Uuid × Uuid)
unfolding manager_of_thread
attribute_each by_thread by_sales_case [] = []
attribute_each by_thread by_sales_case ((thread_id, thread) ∷ rest) =
    elim (manager_of_thread by_thread by_sales_case thread_id thread) [
      | some manager_user_id ↦
          (thread_id, manager_user_id) ∷ attribute_each by_thread by_sales_case rest
      | none ↦ attribute_each by_thread by_sales_case rest
    ]

unfoldable pub attribute_threads_to_managers :
    List MetricsThreadRow → List MetricsAssignmentRow → Datetime → List (Uuid × Uuid)
unfolding winning_assignments attribute_each
attribute_threads_to_managers threads assignments window_end =
    attribute_each (winning_assignments (λ a. a.conversation_thread_id) window_end assignments [])
      (winning_assignments (λ a. a.sales_case_id) window_end assignments [])
      (threads_by_id threads [])

unfoldable pub thread_ids_for_manager : List (Uuid × Uuid) → Uuid → List Uuid
thread_ids_for_manager [] manager_user_id = []
thread_ids_for_manager ((thread_id, attributed_manager) ∷ rest) manager_user_id =
    let others = thread_ids_for_manager rest manager_user_id in
    if attributed_manager == manager_user_id then set_add thread_id others else others

abbrev pub cases_of_manager : Uuid → List (Uuid × MetricsAssignmentRow) → List Uuid
cases_of_manager manager_user_id [] = []
cases_of_manager manager_user_id ((sales_case_id, assignment) ∷ rest) =
    let others = cases_of_manager manager_user_id rest in
    if assignment.manager_user_id == manager_user_id then set_add sales_case_id others else others

abbrev pub add_optional : Option Uuid → List Uuid → List Uuid
add_optional none ids = ids
add_optional (some id) ids = set_add id ids

-- `threads_by_id.get(thread_id)`, and its sales case
abbrev pub case_of_thread : Option MetricsThreadRow → Option Uuid
case_of_thread none = none
case_of_thread (some thread) = thread.sales_case_id

abbrev pub add_thread_cases : List (Uuid × MetricsThreadRow) → List Uuid → List Uuid → List Uuid
add_thread_cases threads [] ids = ids
add_thread_cases threads (thread_id ∷ rest) ids =
    add_thread_cases threads rest (add_optional (case_of_thread (dict_get thread_id threads)) ids)

unfoldable pub resolve_manager_metric_scope :
    MetricsSourceData → (manager_user_id : Uuid) (window_end : Datetime) → ManagerMetricScope
unfolding attribute_threads_to_managers thread_ids_for_manager winning_assignments
resolve_manager_metric_scope source_data manager_user_id window_end =
    let thread_ids =
      thread_ids_for_manager
        (attribute_threads_to_managers source_data.threads source_data.assignments window_end)
        manager_user_id in
    let winning =
      winning_assignments (λ a. a.sales_case_id) window_end source_data.assignments [] in
    record {
      thread_ids = thread_ids;
      sales_case_ids =
          add_thread_cases (threads_by_id source_data.threads []) thread_ids
            (cases_of_manager manager_user_id winning);
    }
