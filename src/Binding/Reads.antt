-- ===== src/Binding/Reads.antt =====
-- The reading of bindings: `list` and `get` of the binding service.
use ai_auto_test_platform.Prelude.{
  ℕ, ◌-◌, ◌*◌, String, Option, none, some, List, [], ◌∷◌, take, drop, length, select, Bool, true,
  ◌||◌, ◌&&◌, leb, str_eq, if◌then◌else◌, Result, ok, ◌>>=◌,
}
use ai_auto_test_platform.Runtime.{Runtime}
use ai_auto_test_platform.Binding.Rows.{Binding}
use ai_auto_test_platform.Binding.Store.{Store, Encoding, Service, Call, binding_of}
use ai_auto_test_platform.Binding.Resource.{BindingResource, resource}
use ai_auto_test_platform.Binding.Command.{authenticated}

-- `if status:`, which holds of no status and of the empty one alike
abbrev pub of_status : Option String → Binding → Bool
of_status none b = true
of_status (some status) b = str_eq status "" || str_eq b.status status

abbrev pub is_listed : String → Option String → Binding → Bool
is_listed project_id status b = str_eq b.project_id project_id && of_status status b

-- `ORDER BY created_at DESC`, where of two rows of one time the newer one comes first.
unfoldable pub insert_binding_row : Binding → List Binding → List Binding
insert_binding_row b [] = b ∷ []
insert_binding_row b (c ∷ cs) =
    let rest = insert_binding_row b cs in
    if leb c.created_at b.created_at then b ∷ c ∷ cs else c ∷ rest

unfoldable pub order_bindings : List Binding → List Binding
order_bindings [] = []
order_bindings (b ∷ bs) = insert_binding_row b (order_bindings bs)

-- `[self._resource(db, item) for item in items]`, of which the first that raises raises.
unfoldable pub resources : Store → List Binding → Result (List BindingResource)
resources db [] = ok []
resources db (b ∷ bs) = resource db b >>= λ r. resources db bs >>= λ rs. ok (r ∷ rs)

module _ ⦃rt : Runtime⦄ ⦃enc : Encoding⦄ (service : Service) where
  -- The items of a page, and the total; the router admits pages from 1 on.
  unfoldable pub list :
      Call → String → ℕ → ℕ → Option String → Store → Result (List BindingResource × ℕ)
  list call project_id page page_size status db =
      authenticated service call "list_execution_binding_snapshots" project_id "PROJECT_VIEW"
      >>= λ _.
          let rows = select (is_listed project_id status) db.bindings in
          resources db (take page_size (drop ((page - 1) * page_size) (order_bindings rows)))
          >>= λ items. ok (items, length rows)

  unfoldable pub get : Call → String → Store → Result BindingResource
  get call binding_id db = binding_of binding_id db >>= λ b.
      authenticated service call "get_execution_binding_snapshot" b.project_id "PROJECT_VIEW"
      >>= λ _. resource db b
