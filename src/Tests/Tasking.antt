-- ===== src/Tests/Tasking.antt =====
-- Tasks of taskiq, over the serializer of the tests.
use python_xtr_messenger.Base.{
  ℤ_discrete, Dict, List, String, [], false, get, get-put, if_neg, if_pos, ite, last?, nat_eq, none,
  ok, pos, put, raise, refl, select, some, string_discrete, string_eq, strip_prefix, suc, sym, true,
  ℕ, ℕ_discrete, ◌++◌, ◌+◌, ◌↔◌, ◌∙◌, ◌∷◌, ◌≟◌, ◌≡◌, ◌⊎◌,
}
use python_xtr_messenger.Classes.{default_name}
use python_xtr_messenger.Envelope.{
  Envelope, MessageType-discrete, all, declared, last, plain, type_of_message, with_stamps,
  without_stamps,
}
use python_xtr_messenger.Errors.{value_error}
use python_xtr_messenger.Registry.{name_of, type_for_name}
use python_xtr_messenger.StampRegistry.{stamp_name, stamp_type_for}
use python_xtr_messenger.Stamps.{
  Stamp, Stamp-discrete, StampType, StampType-discrete, Value-discrete, delay, is_non_sendable,
  is_subclass, isinstance, non_sendable_stamp_interface, num, received, redelivery, stamp_eq,
  stamp_type_eq, type_of,
}
use python_xtr_messenger.Taskiq.{
  Delivery, Json, Label, Runtime, attempt_from, checked, count_from, delay_label, headers_from,
  headers_label, headers_of, json_object, milliseconds, number, queue_label, rebuild, retries_from,
  retries_label, text_entries, words,
}
use python_xtr_messenger.Taskiq.Acknowledged.{Dealt, run_task-ok}
use python_xtr_messenger.Taskiq.Alike.{run_task-settle, worker_of}
use python_xtr_messenger.Taskiq.Bound.{IsTable, find-bind_bus}
use python_xtr_messenger.Taskiq.Buried.{AckCount, screen-acks, settled}
use python_xtr_messenger.Taskiq.Poison.{Arrival, PoisonReceiver, bury, poison_reason, screen}
use python_xtr_messenger.Taskiq.Publishing.{TaskiqSender, delay_entry, labels_for}
use python_xtr_messenger.Taskiq.Started.{Brokers, Owner, close_all, close_each, discard}
use python_xtr_messenger.Taskiq.Started.Closed.{Shutdowns, close_all-tried}
use python_xtr_messenger.Taskiq.Task.{
  Binding, TaskBody, TaskTable, bind_bus, queue_discrete, queue_of, rebuilt, receiver_name,
  reset_services, run_task, task_body,
}
use python_xtr_messenger.Taskiq.Trip.{as_items, interface_of, rebuild-labels_for, runtime_of}
use python_xtr_messenger.Tests.Encoding.{
  Stamps-discrete, encoded_order, sent_order, small_process, small_serializer, small_writer-IsExact,
}
use python_xtr_messenger.Tests.Sample.{count_call, sample_classes}
use python_xtr_messenger.Transport.Serialization.Json.{
  append_group, decode, decode_stamps, encode, encode_stamps, group_from, read_stamps,
  restored_type, write_groups, written_as,
}
use python_xtr_messenger.Transport.Serialization.Json.Grouping.{of_type}
use python_xtr_messenger.Worker.{settle}

abbrev sample_json : Json
sample_json = record {
  dumps = λ d. "headers";
  loads = λ s. json_object (as_items encoded_order.headers);
  int_of = λ s. none;
}

abbrev sample_runtime : Runtime
sample_runtime = runtime_of sample_json small_process

abbrev sample_sender : TaskiqSender ℕ
sample_sender = record {
  serializer = interface_of small_process small_serializer;
  queue = some "orders";
  supports_delay = true;
  ensure_started = λ n. (ok tt, n);
  kiq = λ name delivery n. (ok "t-1", suc n);
}

abbrev sample_labels : Dict String Label
sample_labels =
    (retries_label, number (pos 0))
    ∷ (headers_label, words "headers")
    ∷ (queue_label, words "orders")
    ∷ (delay_label, milliseconds (pos 1))
    ∷ []

abbrev sample_delivery : Delivery
sample_delivery = record { body = "7"; labels = sample_labels }

abbrev sample_binding : Binding ℕ
sample_binding = record {
  bus = count_call;
  serializer = interface_of small_process small_serializer;
  dispatcher = none;
  receiver_names = (some "orders", "shop") ∷ (none, "other") ∷ [];
  max_attempts = none;
  resetter = some (λ n. (ok tt, n));
  dead_letter = none;
  render = λ e. "";
}

abbrev rebuilt_order : Envelope
rebuilt_order = record {
  message = plain 1 (num 7);
  stamps = delay (pos 0) ∷ delay (pos 1) ∷ received "shop" ∷ redelivery (pos 0) ∷ [];
}

rebuilds : rebuilt sample_runtime sample_binding "order" sample_delivery ≡ ok rebuilt_order
unfolding rebuild headers_from checked decode decode_stamps read_stamps restored_type receiver_name
    queue_of queue_discrete name_of type_for_name get MessageType-discrete string_discrete
    ℕ_discrete type_of_message stamp_type_for stamp_name attempt_from retries_from count_from
    with_stamps headers_of text_entries strip_prefix default_name
rebuilds = refl

run_task-ok_example :
    ((run_task sample_runtime sample_binding "order" sample_delivery 4).0 ≡ ok tt) ↔ (
      Dealt sample_runtime sample_binding sample_delivery
        (receiver_name sample_binding.receiver_names sample_labels)
        (rebuilt sample_runtime sample_binding "order" sample_delivery)
        4
      × ((reset_services sample_runtime sample_binding
            (task_body sample_runtime sample_binding "order" sample_delivery 4).1).0
          ≡ ok tt))
run_task-ok_example = run_task-ok sample_runtime sample_binding "order" sample_delivery 4

run_task-settle_example :
    (run_task sample_runtime sample_binding "order" sample_delivery 4).1
    ≡ (settle
        (worker_of sample_binding (receiver_name sample_binding.receiver_names sample_labels))
        rebuilt_order
        4).1
run_task-settle_example =
    run_task-settle sample_runtime sample_binding "order" sample_delivery rebuilt_order 4 refl
      rebuilds

abbrev task_dict : TaskTable (Dict String (TaskBody ℕ)) ℕ
task_dict = record { register_task = put; find_task = get }

task_dict-IsTable : IsTable task_dict
task_dict-IsTable = record {
  find_registered =
      λ name task broker. get-put name name task broker ∙ if_pos (name ≟ name) refl _ _;
  find_other = λ name other task broker differ.
      get-put name other task broker ∙ if_neg (other ≟ name) (λ e. differ (sym e)) _ _;
}

find-bind_bus_example :
    get
      (name_of sample_classes small_process.registry (declared 1))
      (bind_bus task_dict sample_runtime sample_binding []).1
    ≡ some (
        run_task sample_runtime sample_binding
          (name_of sample_classes small_process.registry (declared 1)))
unfolding get MessageType-discrete ℕ_discrete
find-bind_bus_example =
    find-bind_bus task_dict task_dict-IsTable sample_runtime sample_binding [] (declared 1) "order"
      refl

rebuild-labels_for_example :
    (stamps : List Stamp) × (rebuild sample_runtime
        (interface_of small_process small_serializer)
        sample_delivery
        (name_of sample_classes small_process.registry (declared 1))
        "shop"
      ≡ ok (
          with_stamps
            (record { message = plain 1 (num 7); stamps = stamps })
            (received "shop" ∷ redelivery (pos 0) ∷ [])))
    × ((t : StampType)
        → select (of_type t) stamps
          ≡ select (of_type t) (without_stamps sent_order non_sendable_stamp_interface).stamps)
unfolding encode name_of type_for_name get MessageType-discrete string_discrete ℕ_discrete
    type_of_message without_stamps select isinstance is_subclass is_non_sendable type_of
    StampType-discrete restored_type stamp_type_for stamp_name encode_stamps group_from append_group
    write_groups written_as put Stamps-discrete Stamp-discrete ℤ_discrete Value-discrete
    default_name labels_for delay_entry last all last?
rebuild-labels_for_example =
    rebuild-labels_for sample_json small_process small_serializer small_writer-IsExact sample_sender
      sent_order encoded_order sample_labels "shop" refl refl (λ e. cc) refl (refl, (refl, tt)) refl

-- A receiver that counts acknowledgements, and whose quarantine fails.
abbrev sample_receiver : PoisonReceiver ℕ
sample_receiver = record {
  parse = λ s. ok s;
  has_task = λ name n. false;
  callback = λ incoming raise_err n. (ok tt, n);
  repr = λ s. s;
  warn = λ reason n. n;
  dead_letter = some (λ content reason n. (raise (value_error "full"), n));
  ack = λ incoming n. (ok tt, suc n);
}

abbrev sample_count : AckCount sample_receiver
sample_count = record {
  acks = λ n. n;
  ack_counts = λ incoming n. refl;
  warn_counts = λ reason n. refl;
  bury_counts = λ content reason n. refl;
}

abbrev sample_arrival : Arrival
sample_arrival = record { content = "unknown"; ackable = true }

screen-acks_example :
    ((poison_reason sample_receiver "unknown" 4 ≡ none)
      × (screen sample_receiver sample_arrival false 4 ≡ (ok tt, 4)))
    ⊎ ((reason : String) × (poison_reason sample_receiver "unknown" 4 ≡ some reason)
        × ((screen sample_receiver sample_arrival false 4).1
            ≡ 4 + settled sample_arrival (bury sample_receiver "unknown" reason 4).0))
screen-acks_example = screen-acks sample_receiver sample_count sample_arrival false 4

-- Brokers whose second does not close.
abbrev sample_brokers : Brokers (List ℕ)
sample_brokers = record {
  is_worker_process = λ b s. false;
  startup = λ b s. (ok tt, s);
  shutdown = λ b s. (ite (b ≟ 2) (raise (value_error "lost")) (ok tt), s ++ b ∷ []);
}

abbrev sample_shutdowns : Shutdowns sample_brokers
sample_shutdowns = record { tried = λ s. s; tries = λ b s. refl }

abbrev sample_owner : Owner (List ℕ)
sample_owner = record { app = []; started = 1 ∷ 2 ∷ 3 ∷ [] }

-- The owner after its brokers were closed.
abbrev closed_owner : Owner (List ℕ)
closed_owner = record { app = 1 ∷ 2 ∷ 3 ∷ []; started = [] }

close_all-tried_example :
    ((close_all sample_brokers sample_owner).1.started ≡ [])
    × ((close_all sample_brokers sample_owner).1.app ≡ [] ++ sample_owner.started)
    × (close_all sample_brokers (close_all sample_brokers sample_owner).1
        ≡ (ok tt, (close_all sample_brokers sample_owner).1))
close_all-tried_example = close_all-tried sample_brokers sample_shutdowns sample_owner

test_close_all :
    close_all sample_brokers sample_owner ≡ (raise (value_error "lost" ∷ []), closed_owner)
unfolding close_all close_each discard select ℕ_discrete
test_close_all = refl
