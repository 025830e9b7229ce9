-- ===== src/Errors.antt =====
-- src/xtr_messenger/exception/: the exceptions that the parts of the library raise, with the
-- attributes that the code reads. The rendering of an exception as text is not modelled.
use python_xtr_messenger.Base.{
  Bool, List, Option, String, [], ap, false, ite, nat_eq, none, refl, some, string_discrete,
  string_eq, suc, true, ℕ, ◌++◌, ◌∷◌, ◌≟◌, ◌≡◌,
}
use python_xtr_messenger.Envelope.{Envelope, MessageType, message_type_eq}

-- `Errors` stands for the dictionary or the tuple of exceptions that an exception carries.
mutual
  pub data Error : Type 0 where
    handler_error : String → String → Error
    handlers_failed : Envelope → Errors → Error
    delayed_message_handling : Envelope → Errors → Error
    no_handler_for_message : MessageType → List String → Error
    no_sender_for_message : MessageType → List String → Error
    unknown_transport : List String → List String → Error
    unsupported_stamp : String → String → Error
    message_decoding_failed : String → Option String → Error
    message_encoding_failed : String → String → Error
    unknown_message_name : String → Error
    name_taken : String → Error
    handler_signature : String → List String → Error
    unknown_middleware : String → List String → Error
    invalid_middleware_arguments : String → String → Error
    invalid_transport_option : String → String → String → Error
    unknown_transport_option : String → List String → List String → Error
    missing_serializer : String → Error
    unsupported_dsn : String → String → Error
    not_consumable : List String → Error
    incompatible_receivers : List String → List String → Error
    value_error : String → Error
    invalid_dsn : String → String → Error

  -- the exceptions by name, in order; a tuple's have no name
  pub data Errors : Type 0 where
    no_errors : Errors
    failure : String → Error → Errors → Errors

-- `type(error).__name__`
unfoldable pub class_name : Error → String
class_name (handler_error c _) = c
class_name (handlers_failed _ _) = "HandlersFailedError"
class_name (delayed_message_handling _ _) = "DelayedMessageHandlingError"
class_name (no_handler_for_message _ _) = "NoHandlerForMessageError"
class_name (no_sender_for_message _ _) = "NoSenderForMessageError"
class_name (unknown_transport _ _) = "UnknownTransportError"
class_name (unsupported_stamp _ _) = "UnsupportedStampError"
class_name (message_decoding_failed _ _) = "MessageDecodingFailedError"
class_name (message_encoding_failed _ _) = "MessageEncodingFailedError"
class_name (unknown_message_name _) = "UnknownMessageNameError"
class_name (name_taken _) = "MessageBusError"
class_name (handler_signature _ _) = "HandlerSignatureError"
class_name (unknown_middleware _ _) = "UnknownMiddlewareError"
class_name (invalid_middleware_arguments _ _) = "InvalidMiddlewareArgumentsError"
class_name (invalid_transport_option _ _ _) = "InvalidTransportOptionError"
class_name (unknown_transport_option _ _ _) = "UnknownTransportOptionError"
class_name (missing_serializer _) = "MissingSerializerError"
class_name (unsupported_dsn _ _) = "UnsupportedDsnError"
class_name (not_consumable _) = "NotConsumableError"
class_name (incompatible_receivers _ _) = "IncompatibleReceiversError"
class_name (value_error _) = "ValueError"
class_name (invalid_dsn _ _) = "InvalidDsnError"

-- The end of the dictionary or tuple, where a new exception goes.
unfoldable pub add : String → Error → Errors → Errors
add n e no_errors = failure n e no_errors
add n e (failure m d es) = failure m d (add n e es)

-- `next(iter(errors.values()), None)`
unfoldable pub first : Errors → Option Error
first no_errors = none
first (failure n e es) = some e

-- `name in errors`
unfoldable pub has_name : String → Errors → Bool
unfolding string_discrete
has_name n no_errors = false
has_name n (failure m e es) = ite (m ≟ n) true (has_name n es)

unfoldable pub names : Errors → List String
names no_errors = []
names (failure n e es) = n ∷ names es

unfoldable pub count_errors : Errors → ℕ
count_errors no_errors = 0
count_errors (failure n e es) = suc (count_errors es)

unfoldable pub raised : Errors → List Error
raised no_errors = []
raised (failure n e es) = e ∷ raised es

pub raised-add : (n : String) (e : Error) (es : Errors) → raised (add n e es) ≡ raised es ++ e ∷ []
unfolding raised add
raised-add n e no_errors = refl
raised-add n e (failure m d es) = ap (◌∷◌ d) (raised-add n e es)

pub names-add : (n : String) (e : Error) (es : Errors) → names (add n e es) ≡ names es ++ n ∷ []
unfolding names add
names-add n e no_errors = refl
names-add n e (failure m d es) = ap (◌∷◌ m) (names-add n e es)
