-- ===== src/Tests/Registering.antt =====
-- The registries: of messages, of stamps and of handlers.
use python_xtr_messenger.Base.{
  List, [], contains, false, get, nat_eq, ok, put, refl, some, string_discrete, suc, true, ℕ,
  ℕ_discrete, ◌↔◌, ◌∷◌, ◌≡◌,
}
use python_xtr_messenger.Envelope.{MessageType-discrete, declared, object}
use python_xtr_messenger.Handlers.{Decorator, HandlerDescriptor, bound, new_locator}
use python_xtr_messenger.Handlers.Decorated.{RegistryCall, apply_all, decorating, registering}
use python_xtr_messenger.Handlers.Decorated.Applied.{bound-apply_all}
use python_xtr_messenger.Handlers.Signature.{
  Callable, Parameter, check_signature, container_hint, envelope_hint, no_hint,
}
use python_xtr_messenger.Handlers.Signature.Shapes.{check_signature-Callable}
use python_xtr_messenger.Registry.{
  Declaration, Registry, as_message, as_tuple, claim, claim_name, declare_all, empty_registry,
  name_of, not_given, one, register_message, set_transports, type_for_name,
}
use python_xtr_messenger.Registry.Names.{IsConsistent, type_for_name-name_of}
use python_xtr_messenger.Stamps.{null}
use python_xtr_messenger.Tests.Sample.{sample_classes}

abbrev two_declarations : List Declaration
two_declarations =
    record { message_type = declared 1; name = some "order"; transport = one "queue" }
    ∷ record { message_type = declared 2; name = some "order"; transport = not_given }
    ∷ []

abbrev one_name : Registry
one_name =
    (register_message sample_classes (declared 1) (some "order") ("queue" ∷ []) empty_registry).1

empty-IsConsistent : IsConsistent empty_registry
unfolding get
empty-IsConsistent = record { resolves = λ t name e. cc }

type_for_name-name_of_example :
    type_for_name (declare_all sample_classes two_declarations empty_registry) (
      name_of sample_classes
        (declare_all sample_classes two_declarations empty_registry)
        (declared 1))
    ≡ ok (declared 1)
unfolding declare_all as_message register_message claim_name claim set_transports get put
    MessageType-discrete string_discrete ℕ_discrete as_tuple
type_for_name-name_of_example =
    type_for_name-name_of sample_classes two_declarations (declared 1) "order" refl

abbrev mailing : HandlerDescriptor ℕ
mailing = record {
  handler = 1;
  name = "mailing";
  wants_envelope = false;
  call = λ m env n. (ok null, suc n);
}

abbrev renaming : Decorator ℕ
renaming = record { key = 1; wrap = λ d. record d { name = "renamed" } }

abbrev marking : Decorator ℕ
marking = record { key = 2; wrap = λ d. record d { handler = 7 } }

-- Equal to the first.
abbrev renaming_anew : Decorator ℕ
renaming_anew = record { key = 1; wrap = λ d. record d { name = "anew" } }

abbrev some_calls : List (RegistryCall ℕ)
some_calls =
    registering (declared 1) mailing
    ∷ decorating renaming
    ∷ decorating marking
    ∷ registering object mailing
    ∷ decorating renaming_anew
    ∷ []

bound-apply_all_example :
    bound (declared 1) (apply_all some_calls new_locator).handlers
    ≡ record {
      handler = 7;
      name = "anew";
      wants_envelope = false;
      call = λ m env n. (ok null, suc n);
    }
      ∷ []
unfolding contains MessageType-discrete ℕ_discrete
bound-apply_all_example = bound-apply_all some_calls (declared 1)

abbrev injected_parameters : List Parameter
injected_parameters = ("m", no_hint) ∷ ("me", envelope_hint) ∷ ("mes", container_hint) ∷ []

check_signature-Callable_example :
    (check_signature "on_order" injected_parameters ≡ ok true) ↔ Callable injected_parameters true
check_signature-Callable_example =
    check_signature-Callable "on_order" injected_parameters true
      (((λ e. cc), ((λ e. cc), tt)), (((λ e. cc), tt), (tt, tt)))
