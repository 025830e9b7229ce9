-- ===== src/Tests/Telling.antt =====
-- What is logged of a dispatch, and names on middleware classes.
use python_xtr_messenger.Base.{
  Exec, List, String, [], contains, get, nat_eq, ok, put, refl, string_discrete, string_eq, suc,
  true, zero, ℕ, ℕ_discrete, ◌++◌, ◌∷◌, ◌≡◌,
}
use python_xtr_messenger.Chain.Declared.{
  as_middleware, attribute_of, declare_middlewares, middleware_declared_on, no_declarations,
  register_middleware,
}
use python_xtr_messenger.Chain.Declared.Named.{contains-middleware_declared_on}
use python_xtr_messenger.Envelope.{Envelope, plain}
use python_xtr_messenger.Errors.{Error}
use python_xtr_messenger.Middleware.{run}
use python_xtr_messenger.Middleware.Logging.{LogRecord, Logger, log_dispatch}
use python_xtr_messenger.Middleware.Logging.Records.{LogView, records_of, run-log_dispatch}
use python_xtr_messenger.Stamps.{handled, null, num}
use python_xtr_messenger.Tests.Sample.{order}

abbrev list_logger : Logger (List LogRecord)
list_logger = record {
  log = λ r rs. (ok tt, rs ++ r ∷ []);
  type_name = λ t. "OrderPlaced";
  repr_stamp = λ s. "stamp";
}

abbrev list_view : LogView list_logger
list_view = record { view = λ rs. rs; notes = λ r rs. refl; quiet = λ r rs. refl }

-- An order that one handler handled.
abbrev handled_order : Envelope
handled_order = record {
  message = plain 1 (num 7);
  stamps = handled "mailer" null ∷ handled "books" (num 2) ∷ [];
}

abbrev to_handled : Envelope → Exec Error (List LogRecord) Envelope
to_handled env rs = (ok handled_order, rs)

run-log_dispatch_example :
    ((run (log_dispatch list_logger order) to_handled []).0 ≡ ok handled_order)
    × ((run (log_dispatch list_logger order) to_handled []).1
        ≡ [] ++ records_of list_logger list_view (ok handled_order))
run-log_dispatch_example = run-log_dispatch list_logger list_view to_handled order []

-- Class 2 derives from class 1.
abbrev sample_bases : ℕ → List ℕ
sample_bases (suc (suc zero)) = 1 ∷ []
sample_bases _ = []

abbrev sample_declarations : List (String × ℕ)
sample_declarations = ("audit", 1) ∷ ("trace", 2) ∷ []

contains-middleware_declared_on_example :
    contains
      (middleware_declared_on sample_bases 2
        (declare_middlewares sample_bases sample_declarations no_declarations))
      "trace"
    ≡ true
unfolding declare_middlewares as_middleware register_middleware put get string_discrete
contains-middleware_declared_on_example =
    contains-middleware_declared_on sample_bases sample_declarations "trace" 2 refl

-- A class carries the names of its bases too.
test_middleware_declared_on :
    middleware_declared_on sample_bases 2
      (declare_middlewares sample_bases sample_declarations no_declarations)
    ≡ "audit" ∷ "trace" ∷ []
unfolding declare_middlewares as_middleware middleware_declared_on attribute_of put get ℕ_discrete
test_middleware_declared_on = refl
