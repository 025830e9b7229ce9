-- ===== src/Tests/Encoding.antt =====
-- The serializer over a writer for one kind of message and one list of stamps.
-- A writer that writes the number 7 as a message, and one list of delays, and refuses all else.
use python_xtr_messenger.Base.{
  ℤ_discrete, pos, List, Result, String, [], ap, get, none, ok, put, raise, refl, select,
  string_discrete, string_eq, sym, ℕ_discrete, ◌∷◌, ◌≡◌,
}
use python_xtr_messenger.Classes.{default_name}
use python_xtr_messenger.Envelope.{
  Envelope, Message, MessageType, MessageType-discrete, declared, message_type_eq, plain,
  redispatch, type_of_message, without_stamps,
}
use python_xtr_messenger.Registry.{name_of, type_for_name}
use python_xtr_messenger.StampRegistry.{by_name, empty_stamp_registry, stamp_name, stamp_type_for}
use python_xtr_messenger.Stamps.{
  Stamp, Stamp-discrete, StampType, StampType-discrete, Value-discrete, delay, is_non_sendable,
  is_subclass, isinstance, non_sendable_stamp_interface, num, received, stamp_eq, stamp_type_eq,
  type_of,
}
use python_xtr_messenger.Tests.Sample.{no_stamp_names, sample_classes}
use python_xtr_messenger.Transport.Serialization.{EncodedEnvelope}
use python_xtr_messenger.Transport.Serialization.Json.{
  Declared, JsonSerializer, Writer, append_group, decode, encode, encode_stamps, group_from,
  restored_type, update, write_groups, written_as,
}
use python_xtr_messenger.Transport.Serialization.Json.Grouping.{of_type}
use python_xtr_messenger.Transport.Serialization.Json.RoundTrip.{IsExact, decode-encode}

abbrev answer : {P : Type 0} → Dec P → String → Result String String
answer (yes _) body = ok body
answer (no _) body = raise "refused"

answered : {P : Type 0} (d : Dec P) (body value : String) → answer d body ≡ ok value → P
answered (yes p) body value h = p
answered (no d) body value h = cc h

abbrev write_order : Message → Result String String
write_order (plain c v) = answer (Value-discrete v (num 7)) "7"
write_order (redispatch s transports) = raise "refused"

abbrev read_order : MessageType → Result String Message
read_order (declared c) = ok (plain c (num 7))
read_order _ = raise "refused"

abbrev two_delays : List Stamp
two_delays = delay (pos 0) ∷ delay (pos 1) ∷ []

unfoldable pub Stamps-discrete : Discrete (List Stamp)
Stamps-discrete = hlevel Stamp-discrete

abbrev small_writer : Writer
small_writer = record {
  serialize = write_order;
  deserialize = λ t body. read_order t;
  serialize_stamps = λ t ss. answer (Stamps-discrete ss two_delays) "01";
  deserialize_stamps = λ t value. ok two_delays;
}

read_back :
    (m : Message) (body : String) → write_order m ≡ ok body → read_order (type_of_message m) ≡ ok m
unfolding type_of_message
read_back (plain c v) body h =
    ap (λ x. ok (plain c x)) (sym (answered (Value-discrete v (num 7)) "7" body h))
read_back (redispatch s transports) body h = cc h

pub small_writer-IsExact : IsExact small_writer
small_writer-IsExact = record {
  message_back = read_back;
  stamps_back = λ t ss value h. ap ok (sym (answered (Stamps-discrete ss two_delays) "01" value h));
}

abbrev pub small_process : Declared
small_process = record {
  classes = sample_classes;
  registry = record {
    name_by_type = (declared 1, "order") ∷ [];
    type_by_name = ("order", declared 1) ∷ [];
    transports_by_type = [];
  };
  stamp_names = no_stamp_names;
  stamp_registry = empty_stamp_registry;
}

abbrev pub small_serializer : JsonSerializer
small_serializer = record { writer = small_writer; stamp_types = none }

abbrev pub sent_order : Envelope
sent_order = record {
  message = plain 1 (num 7);
  stamps = delay (pos 0) ∷ received "orders" ∷ delay (pos 1) ∷ [];
}

abbrev pub encoded_order : EncodedEnvelope
encoded_order = record {
  body = "7";
  headers = ("type", "order") ∷ ("X-Message-Stamp-DelayStamp", "01") ∷ [];
}

decode-encode_example :
    (stamps : List Stamp) × (decode small_process small_serializer encoded_order
      ≡ ok (record { message = plain 1 (num 7); stamps = stamps }))
    × ((t : StampType)
        → select (of_type t) stamps
          ≡ select (of_type t) (without_stamps sent_order non_sendable_stamp_interface).stamps)
unfolding encode name_of type_for_name get MessageType-discrete string_discrete ℕ_discrete
    type_of_message without_stamps select isinstance is_subclass is_non_sendable type_of
    StampType-discrete restored_type stamp_type_for by_name stamp_name encode_stamps group_from
    append_group write_groups written_as update put Stamps-discrete Stamp-discrete ℤ_discrete
    Value-discrete default_name
decode-encode_example =
    decode-encode small_process small_serializer small_writer-IsExact sent_order encoded_order
      (λ e. cc) refl (refl, (refl, tt)) refl
