-- ===== src/Taskiq/Bound.antt =====
-- Every declared message has its task.
use python_xtr_messenger.Base.{
  Dict, List, String, [], ap, get, if_neg, if_pos, some, string_eq, subst, sym, values, ◌∙◌, ◌∷◌,
  ◌≟◌, ◌≡◌, ◌≢◌,
}
use python_xtr_messenger.Envelope.{MessageType, message_type_eq}
use python_xtr_messenger.Registry.{declared_names, name_of}
use python_xtr_messenger.Taskiq.{Runtime}
use python_xtr_messenger.Taskiq.Task.{
  Binding, TaskBody, TaskTable, bind_bus, register_all, run_task,
}

-- A broker finds a task under the name that it was last registered under.
pub record IsTable {B S : Type 0} (table : TaskTable B S) : Type 0 where
  pub find_registered :
      (name : String) (task : TaskBody S) (broker : B)
      → table.find_task name (table.register_task name task broker) ≡ some task
  pub find_other :
      (name other : String) (task : TaskBody S) (broker : B)
      → name ≢ other
      → table.find_task name (table.register_task other task broker) ≡ table.find_task name broker

module _ {B S : Type 0} (table : TaskTable B S) (lawful : IsTable table) where
  kept :
      (task_for : String → TaskBody S) (names : List String) (name : String) (broker : B)
      → table.find_task name broker ≡ some (task_for name)
      → table.find_task name (register_all table task_for names broker) ≡ some (task_for name)
  unfolding register_all
  kept task_for [] name broker h = h
  kept task_for (n ∷ names) name broker h =
      kept task_for names name (table.register_task n (task_for n) broker) (elim (name ≟ n) [
        | yes p ↦
            ap (λ x. table.find_task x (table.register_task n (task_for n) broker)) p
            ∙ lawful.find_registered n (task_for n) broker
            ∙ ap (λ x. some (task_for x)) (sym p)
        | no p ↦ lawful.find_other name n (task_for n) broker p ∙ h
      ])

  registered :
      (task_for : String → TaskBody S) (t : MessageType) (names : Dict MessageType String)
      (name : String) (broker : B)
      → get t names ≡ some name
      → table.find_task name (register_all table task_for (values names) broker)
        ≡ some (task_for name)
  unfolding register_all values get
  registered task_for t [] name broker h = cc h
  registered task_for t ((u, n) ∷ names) name broker h = elim (u ≟ t) [
    | yes p ↦
        let same : some n ≡ some name = sym (if_pos (u ≟ t) p (some n) (get t names)) ∙ h in
        kept task_for (values names) name (table.register_task n (task_for n) broker) (
          subst
            (λ x. table.find_task x (table.register_task n (task_for n) broker) ≡ some (task_for x))
            {x = n} {y = name} (cc same) (lawful.find_registered n (task_for n) broker))
    | no p ↦
        registered task_for t names name (table.register_task n (task_for n) broker)
          (sym (if_neg (u ≟ t) p (some n) (get t names)) ∙ h)
  ]

  -- After the binding, the name under which a message of a declared class is published is that of a
  -- task, which the broker has: the one that rebuilds and handles messages of that name.
  pub find-bind_bus :
      (rt : Runtime) (b : Binding S) (broker : B) (t : MessageType) (name : String)
      → get t rt.registry.name_by_type ≡ some name
      → table.find_task (name_of rt.classes rt.registry t) (bind_bus table rt b broker).1
        ≡ some (run_task rt b (name_of rt.classes rt.registry t))
  unfolding bind_bus declared_names name_of
  find-bind_bus rt b broker t name h =
      rw (h, name_of) (registered (run_task rt b) t rt.registry.name_by_type name broker h)
