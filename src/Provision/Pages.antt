-- ===== src/Provision/Pages.antt =====
-- The lists of owners by pages: `list_run_tasks` and `list_execution_attempts`.
use Prim.Native.String.{compare}
use text.Mathlib.Text.{is_le}
use ai_auto_test_platform.Prelude.{
  ℕ, ◌-◌, ◌*◌, String, Option, none, some, List, [], ◌∷◌, map, take, drop, length, select, Bool,
  true, false, ◌&&◌, ◌||◌, ◌==◌, ltb, if◌then◌else◌, Result, ok, ◌>>=◌,
}
use ai_auto_test_platform.Idempotency.{member}
use ai_auto_test_platform.Owner.Rows.{RunTask, ExecutionAttempt}
use ai_auto_test_platform.Provision.Requests.{
  TaskResource, task_resource, AttemptResource, attempt_resource,
}
use ai_auto_test_platform.Provision.Store.{Store, Service, Call}

-- `ORDER BY updated_at DESC, id`
abbrev pub before {ℓ} : {A : Type ℓ} → (A → ℕ) → (A → String) → A → A → Bool
before time id a b = ltb (time b) (time a) || (time a == time b && is_le (compare (id a) (id b)))

unfoldable pub insert_row {ℓ} : {A : Type ℓ} → (A → ℕ) → (A → String) → A → List A → List A
insert_row time id a [] = a ∷ []
insert_row time id a (b ∷ bs) =
    let rest = insert_row time id a bs in if before time id a b then a ∷ b ∷ bs else b ∷ rest

unfoldable pub order_rows {ℓ} : {A : Type ℓ} → (A → ℕ) → (A → String) → List A → List A
order_rows time id [] = []
order_rows time id (a ∷ rest) = insert_row time id a (order_rows time id rest)

-- `OFFSET (page - 1) * page_size LIMIT page_size`; the router admits pages from 1 on.
abbrev pub page_of {ℓ} : {A : Type ℓ} → ℕ → ℕ → List A → List A
page_of page page_size rows = take page_size (drop ((page - 1) * page_size) rows)

-- `project_id IN visible`, where None is no value of a set.
abbrev pub is_visible : Option (List String) → Option String → Bool
is_visible none project_id = true
is_visible (some visible) none = false
is_visible (some visible) (some id) = member id visible

abbrev pub visible_tasks : Option (List String) → Store → List RunTask
visible_tasks visible db = select (λ (t : RunTask). is_visible visible t.project_id) db.tasks

abbrev pub visible_attempts : Option (List String) → Store → List ExecutionAttempt
visible_attempts visible db =
    select (λ (a : ExecutionAttempt). is_visible visible a.project_id) db.attempts

-- The items of a page, and the total.
module _ (service : Service) where
  open service use {authentication}

  unfoldable pub list_run_tasks : Call → ℕ → ℕ → Store → Result (List TaskResource × ℕ)
  list_run_tasks call page page_size db =
      authentication.authenticate call.token "list_run_task" >>= λ actor.
      let rows = visible_tasks (authentication.authorized_project_ids actor "PROJECT_VIEW") db in
      let ordered = order_rows (λ (t : RunTask). t.updated_at) (λ t. t.run_task_id) rows in
      ok (map task_resource (page_of page page_size ordered), length rows)

  unfoldable pub list_execution_attempts : Call → ℕ → ℕ → Store → Result (List AttemptResource × ℕ)
  list_execution_attempts call page page_size db =
      authentication.authenticate call.token "list_execution_attempt" >>= λ actor.
      let rows = visible_attempts (authentication.authorized_project_ids actor "PROJECT_VIEW") db in
      let ordered =
        order_rows (λ (a : ExecutionAttempt). a.updated_at) (λ a. a.execution_attempt_id) rows in
      ok (map attempt_resource (page_of page page_size ordered), length rows)
