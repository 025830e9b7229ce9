-- ===== src/Transport/Serialization/Json.antt =====
-- src/xtr_messenger/transport/serialization/serializer.py, with the serializer that it writes by,
-- of another package, as a parameter.
pub mod Grouping
pub mod Headers
pub mod RoundTrip
use python_xtr_messenger.Base.{
  Dict, List, Option, Result, String, [], get, ite, none, ok, put, raise, some, string_discrete,
  string_eq, strip_prefix, ◌+++◌, ◌++◌, ◌∷◌, ◌≟◌,
}
use python_xtr_messenger.Classes.{Classes}
use python_xtr_messenger.Envelope.{
  Envelope, Message, MessageType, message_type_eq, type_of_message, without_stamps,
}
use python_xtr_messenger.Errors.{Error, message_decoding_failed, message_encoding_failed, names}
use python_xtr_messenger.Registry.{Registry, name_of, type_for_name}
use python_xtr_messenger.StampRegistry.{StampRegistry, by_name, stamp_name, stamp_type_for}
use python_xtr_messenger.Stamps.{
  Stamp, StampType, non_sendable_stamp_interface, stamp_eq, stamp_interface, stamp_type_eq, type_of,
}
use python_xtr_messenger.Transport.Serialization.{EncodedEnvelope}

-- `xtr_serializer.SerializerInterface`, as it is used: on a message's own class and on lists of a
-- stamp class. A failure is the text of a `SerializerError`.
pub record Writer : Type 0 where
  pub serialize : Message → Result String String
  pub deserialize : MessageType → String → Result String Message
  pub serialize_stamps : StampType → List Stamp → Result String String
  pub deserialize_stamps : StampType → String → Result String (List Stamp)

-- What a serializer reads of the process: the message and the stamp registries.
pub record Declared : Type 0 where
  pub classes : Classes
  pub registry : Registry
  pub stamp_names : StampType → String
  pub stamp_registry : StampRegistry

-- A `JsonSerializer`.
pub record JsonSerializer : Type 0 where
  pub writer : Writer
  pub stamp_types : Option (Dict String StampType)

unfoldable pub new_json_serializer :
    (StampType → String) → Writer → Option (List StampType) → JsonSerializer
new_json_serializer names w none = record { writer = w; stamp_types = none }
new_json_serializer names w (some types) = record {
  writer = w;
  stamp_types = some (by_name names types);
}

abbrev pub type_header : String
type_header = "type"

abbrev pub stamp_header_prefix : String
stamp_header_prefix = "X-Message-Stamp-"

-- `grouped.setdefault(key, []).append(stamp)`
unfoldable pub append_group : String → Stamp → Dict String (List Stamp) → Dict String (List Stamp)
unfolding string_discrete
append_group name s [] = (name, s ∷ []) ∷ []
append_group name s ((key, group) ∷ groups) =
    ite (key ≟ name) ((key, group ++ s ∷ []) ∷ groups) ((key, group) ∷ append_group name s groups)

-- the loop that groups stamps
unfoldable pub group_from :
    (StampType → String) → Dict String (List Stamp) → List Stamp → Dict String (List Stamp)
unfolding append_group stamp_name type_of
group_from names groups [] = groups
group_from names groups (s ∷ ss) =
    group_from names (append_group (stamp_name names (type_of s)) s groups) ss

-- the class that a group is written as: that of its first stamp; no group is empty
unfoldable pub written_as : List Stamp → StampType
unfolding type_of
written_as [] = stamp_interface
written_as (s ∷ ss) = type_of s

-- a header and what is left to write
abbrev pub and_header :
    String
    → Result String String
    → Result String (Dict String String)
    → Result String (Dict String String)
and_header header (raise e) rest = raise e
and_header header (ok value) (raise e) = raise e
and_header header (ok value) (ok headers) = ok ((header, value) ∷ headers)

unfoldable pub write_groups : Writer → Dict String (List Stamp) → Result String (Dict String String)
unfolding written_as
write_groups w [] = ok []
write_groups w ((name, group) ∷ groups) =
    and_header (stamp_header_prefix +++ name) (w.serialize_stamps (written_as group) group)
      (write_groups w groups)

-- `_encode_stamps`
unfoldable pub encode_stamps :
    (StampType → String) → Writer → Envelope → Result String (Dict String String)
unfolding group_from write_groups
encode_stamps names w env = write_groups w (group_from names [] env.stamps)

-- `headers.update(d)`
unfoldable pub update : Dict String String → Dict String String → Dict String String
unfolding put string_discrete
update headers [] = headers
update headers ((k, v) ∷ d) = update (put k v headers) d

-- the body and the headers, put together
abbrev pub encoded_from :
    String
    → Result String String
    → Result String (Dict String String)
    → Result Error EncodedEnvelope
encoded_from name (raise e) headers = raise (message_encoding_failed e name)
encoded_from name (ok body) (raise e) = raise (message_encoding_failed e name)
encoded_from name (ok body) (ok headers) =
    ok (record { body = body; headers = update ((type_header, name) ∷ []) headers })

-- `encode`
unfoldable pub encode : Declared → JsonSerializer → Envelope → Result Error EncodedEnvelope
unfolding encode_stamps without_stamps name_of type_of_message update
encode d j env =
    encoded_from (name_of d.classes d.registry (type_of_message env.message))
      (j.writer.serialize env.message)
      (encode_stamps d.stamp_names j.writer (without_stamps env non_sendable_stamp_interface))

-- `_stamp_type_for`
unfoldable pub restored_type : Declared → JsonSerializer → String → Option StampType
unfolding stamp_type_for string_discrete
restored_type d j name = elim j.stamp_types [
  | none ↦ stamp_type_for d.stamp_names d.stamp_registry name
  | some types ↦ get name types
]

-- the class that a header restores, if it is a stamp's and the class is known
abbrev pub header_type : Declared → JsonSerializer → Option String → Option StampType
header_type d j none = none
header_type d j (some name) = restored_type d j name

abbrev pub and_stamps :
    String → Result String (List Stamp) → Result Error (List Stamp) → Result Error (List Stamp)
and_stamps name (raise e) rest = raise (message_decoding_failed e (some name))
and_stamps name (ok stamps) (raise e) = raise e
and_stamps name (ok stamps) (ok more) = ok (stamps ++ more)

-- the list in a header, read as the class that the header names
unfoldable pub read_stamps :
    Declared → JsonSerializer → StampType → String → Result String (List Stamp)
unfolding stamp_name
read_stamps d j t value = elim (j.writer.deserialize_stamps t value) [
  | ok stamps ↦ ok stamps
  | raise e ↦ raise (stamp_name d.stamp_names t +++ " header: " +++ e)
]

-- one header of `_decode_stamps`, and what the others gave
abbrev pub read_header :
    Declared
    → JsonSerializer
    → String
    → Option StampType
    → String
    → Result Error (List Stamp)
    → Result Error (List Stamp)
read_header d j name none value rest = rest
read_header d j name (some t) value rest = and_stamps name (read_stamps d j t value) rest

-- `_decode_stamps`
unfoldable pub decode_stamps :
    Declared → JsonSerializer → Dict String String → String → Result Error (List Stamp)
unfolding strip_prefix restored_type read_stamps
decode_stamps d j [] name = ok []
decode_stamps d j ((header, value) ∷ headers) name =
    read_header d j name (header_type d j (strip_prefix stamp_header_prefix header)) value
      (decode_stamps d j headers name)

abbrev pub decoded_from :
    String → Result String Message → Result Error (List Stamp) → Result Error Envelope
decoded_from name (raise e) stamps = raise (message_decoding_failed e (some name))
decoded_from name (ok message) (raise e) = raise e
decoded_from name (ok message) (ok stamps) = ok (record { message = message; stamps = stamps })

-- what follows the look for the declared class
abbrev pub decode_as :
    Declared
    → JsonSerializer
    → EncodedEnvelope
    → String
    → Result Error MessageType
    → Result Error Envelope
decode_as d j encoded name (raise e) =
    raise (message_decoding_failed "the 'type' header names no declared message" none)
decode_as d j encoded name (ok t) =
    decoded_from name (j.writer.deserialize t encoded.body) (decode_stamps d j encoded.headers name)

-- what follows the look for the header
abbrev pub decode_named :
    Declared → JsonSerializer → EncodedEnvelope → Option String → Result Error Envelope
decode_named d j encoded none = raise (message_decoding_failed "missing 'type' header" none)
decode_named d j encoded (some name) =
    ite (name ≟ "") (raise (message_decoding_failed "missing 'type' header" none))
      (decode_as d j encoded name (type_for_name d.registry name))

-- `decode`
unfoldable pub decode : Declared → JsonSerializer → EncodedEnvelope → Result Error Envelope
unfolding decode_stamps type_for_name get string_discrete
decode d j encoded = decode_named d j encoded (get type_header encoded.headers)
