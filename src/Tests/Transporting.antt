-- ===== src/Tests/Transporting.antt =====
-- Routing, the in-memory transport, the chained receiver and the serializer.
use python_xtr_messenger.Base.{
  Dict, IsDistinct, List, Option, String, [], arith, contains, get, keys, last?, nat_eq, none, ok,
  put, refl, select, some, sorted, string_discrete, string_eq, values, ℕ, ℕ_discrete, ◌∷◌, ◌≡◌,
}
use python_xtr_messenger.Envelope.{
  Envelope, MessageType-discrete, all, declared, last, plain, type_of_message,
}
use python_xtr_messenger.Registry.{empty_registry, first_declared, transports_of}
use python_xtr_messenger.Stamps.{
  StampType-discrete, ack_receipt, is_non_sendable, is_subclass, isinstance, num, received, type_of,
}
use python_xtr_messenger.Tests.Sample.{delayed_order, order, sample_classes, sample_senders}
use python_xtr_messenger.Transport.Chained.{
  Chained, forwarded, settle_on_origin, ticket_number, ticketed,
}
use python_xtr_messenger.Transport.Chained.Tickets.{
  Event, abandoned, arrival, happen_all, resumed, settle_on_origin-again, settle_on_origin-ticketed,
  settlement,
}
use python_xtr_messenger.Transport.InMemory.Factory.{
  FactoryState, create_in_memory, serializer_for, transport_named,
}
use python_xtr_messenger.Transport.InMemory.Factory.Shared.{create_in_memory-again}
use python_xtr_messenger.Transport.Options.{as_bool, reject_unknown_options}
use python_xtr_messenger.Transport.Routes.{
  SendersLocator, Table, check_routes, first_unknown, names_for, new_senders_locator, override_of,
  senders_for, type_key, wildcard,
}
use python_xtr_messenger.Transport.Routes.Fanout.{PairsFrom, aliases, ended, senders_for-IsDistinct}
use python_xtr_messenger.Transport.Routes.Resolution.{senders_for-names_for}
use python_xtr_messenger.Transport.Serialization.{SerializerInterface}

abbrev sample_table : Table
sample_table = (type_key (declared 1), "queue" ∷ "sync" ∷ []) ∷ (wildcard, "queue" ∷ []) ∷ []

abbrev sample_routes : SendersLocator ℕ
sample_routes = record { routes = sample_table; senders = sample_senders }

senders_for-IsDistinct_example :
    IsDistinct (aliases (senders_for sample_classes empty_registry sample_routes order))
    × PairsFrom sample_senders (senders_for sample_classes empty_registry sample_routes order)
senders_for-IsDistinct_example =
    senders_for-IsDistinct sample_classes empty_registry sample_routes order

senders_for-names_for_example :
    (ended (senders_for sample_classes empty_registry sample_routes order) ≡ none)
    × ((a : String)
        → contains (aliases (senders_for sample_classes empty_registry sample_routes order)) a
          ≡ contains (names_for sample_classes empty_registry sample_table order) a)
unfolding new_senders_locator check_routes first_unknown values get string_discrete override_of last
    all select last? transports_of first_declared MessageType-discrete type_of_message
senders_for-names_for_example =
    senders_for-names_for sample_classes empty_registry sample_table sample_senders sample_routes
      order refl refl tt

-- A serializer that writes every envelope to nothing and reads a fixed one.
abbrev lossy : SerializerInterface
lossy = record {
  encode = λ env. ok (record { body = ""; headers = [] });
  decode = λ encoded. ok (record { message = plain 1 (num 7); stamps = [] });
}

abbrev two_names : Option (List String)
two_names = some ("orders" ∷ "mails" ∷ [])

abbrev fresh_chain : Chained
fresh_chain = record { outstanding = []; next_ticket = 1; leftovers = [] }

abbrev ticket : ℕ → Envelope
ticket n = record { message = plain 1 (num 7); stamps = received "mails" ∷ ack_receipt n ∷ [] }

abbrev busy_times : List Event
busy_times = arrival 0 delayed_order ∷ settlement (ticket 2) ∷ abandoned [] ∷ resumed ∷ []

settle_on_origin-ticketed_example :
    (settle_on_origin
      (ticket 1)
      (happen_all two_names busy_times (ticketed two_names 1 order fresh_chain).1)).0
    ≡ some (1, forwarded (ticket 1) order)
unfolding ticket_number last all select last? isinstance is_subclass type_of StampType-discrete
    ℕ_discrete is_non_sendable
settle_on_origin-ticketed_example =
    settle_on_origin-ticketed two_names 1 order (ticket 1) busy_times fresh_chain
      (tt, ((λ e. cc), (tt, (tt, tt)))) refl

settle_on_origin-again_example :
    (settle_on_origin (ticket 1) (
      happen_all two_names
        (settlement (ticket 1) ∷ busy_times)
        (ticketed two_names 1 order fresh_chain).1)).0
    ≡ none
unfolding ticketed ticket_number last all select last? isinstance is_subclass type_of
    StampType-discrete ℕ_discrete is_non_sendable
settle_on_origin-again_example =
    settle_on_origin-again two_names 1 (ticket 1) (ticket 1) busy_times
      (ticketed two_names 1 order fresh_chain).1 (omega arith) refl refl

abbrev no_transports : FactoryState
no_transports = record { made = []; built = [] }

abbrev two_group : List (String × Dict String String)
two_group = ("orders", []) ∷ ("mails", ("serialize", "true") ∷ []) ∷ []

abbrev two_made : FactoryState
two_made = record { made = ("orders", 0) ∷ ("mails", 1) ∷ []; built = none ∷ some lossy ∷ [] }

create_in_memory-again_example :
    create_in_memory
      (some lossy)
      two_group
      (create_in_memory (some lossy) (("bad", ("queue", "q") ∷ []) ∷ []) two_made).1
    ≡ (
      ok (("orders", 0) ∷ ("mails", 1) ∷ []),
      (create_in_memory (some lossy) (("bad", ("queue", "q") ∷ []) ∷ []) two_made).1,
    )
unfolding create_in_memory transport_named serializer_for as_bool reject_unknown_options get put
    string_discrete keys select contains sorted
create_in_memory-again_example =
    create_in_memory-again (some lossy) two_group (("bad", ("queue", "q") ∷ []) ∷ [])
      (("orders", 0) ∷ ("mails", 1) ∷ []) no_transports two_made refl
