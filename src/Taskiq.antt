-- ===== src/Taskiq.antt =====
-- src/xtr_messenger/bridge/taskiq/binding.py and labels.py: the labels of a delivery, and the envelope
-- that a task rebuilds from them.
pub mod Task
pub mod Publishing
pub mod Poison
pub mod Started
pub mod Acknowledged
pub mod Alike
pub mod Buried
pub mod Trip
pub mod Bound
use python_xtr_messenger.Base.{
  Bool, Dict, Option, Result, String, [], get, ite, length, nat_eq, none, ok, pos, raise, some,
  string_discrete, string_eq, ℕ, ℕ_discrete, ℤ, ◌∷◌, ◌≟◌,
}
use python_xtr_messenger.Classes.{Classes}
use python_xtr_messenger.Envelope.{Envelope, type_of_message, with_stamps}
use python_xtr_messenger.Errors.{Error, message_decoding_failed}
use python_xtr_messenger.Registry.{Registry, name_of}
use python_xtr_messenger.Stamps.{received, redelivery}
use python_xtr_messenger.Transport.Serialization.{SerializerInterface}

abbrev pub retries_label : String
retries_label = "_retries"

abbrev pub queue_label : String
queue_label = "queue_name"

abbrev pub headers_label : String
headers_label = "mb_headers"

abbrev pub delay_label : String
delay_label = "delay"

-- The value of a label. `milliseconds n` is the float `n / 1000.0`.
pub data Label : Type 0 where
  flag : Bool → Label
  number : ℤ → Label
  milliseconds : ℤ → Label
  words : String → Label
  anything : Label

-- What `json.loads` makes of a text: an error, an object, whose values are texts or something else,
-- or another value.
pub data Parsed : Type 0 where
  not_json other_json : Parsed
  json_object : Dict String (Option String) → Parsed

-- `json.dumps` of texts by name, `json.loads`, and `int` of a text, or none when it raises.
pub record Json : Type 0 where
  pub dumps : Dict String String → String
  pub loads : String → Parsed
  pub int_of : String → Option ℤ

-- A delivery: its body, the one argument of its task, and its labels.
pub record Delivery : Type 0 where
  pub body : String
  pub labels : Dict String Label

-- what `retries_from` makes of the label
unfoldable pub count_from : Json → Option Label → Option ℤ
count_from json (some (number k)) = some k
count_from json (some (words digits)) = json.int_of digits
count_from json _ = none

-- `retries_from`
unfoldable pub retries_from : Json → Dict String Label → Option ℤ
unfolding count_from string_discrete
retries_from json labels = count_from json (get retries_label labels)

-- `_LOST_LABEL_ATTEMPT`
abbrev pub lost_label_attempt : ℤ
lost_label_attempt = pos 1000000

-- `_attempt_from`
unfoldable pub attempt_from : Json → Dict String Label → ℤ
unfolding retries_from
attempt_from json labels = elim (retries_from json labels) [
  | none ↦ lost_label_attempt
  | some retries ↦ retries
]

-- the entries whose value is a text
unfoldable pub text_entries : Dict String (Option String) → Dict String String
text_entries [] = []
text_entries ((k, none) ∷ items) = text_entries items
text_entries ((k, some v) ∷ items) = (k, v) ∷ text_entries items

abbrev pub bad_headers : String → Error
bad_headers task_name =
    message_decoding_failed "headers label must hold a JSON object of strings" (some task_name)

-- what follows `json.loads`
unfoldable pub headers_of : String → Parsed → Result Error (Dict String String)
unfolding text_entries
headers_of task_name (json_object items) =
    ite (ℕ_discrete (length (text_entries items)) (length items)) (ok (text_entries items))
      (raise (bad_headers task_name))
headers_of task_name _ = raise (bad_headers task_name)

-- `_headers_from`
unfoldable pub headers_from : Json → Option Label → String → Result Error (Dict String String)
unfolding headers_of
headers_from json (some (words raw)) task_name = headers_of task_name (json.loads raw)
headers_from json _ task_name = ok (("type", task_name) ∷ [])

-- What a task reads of the process besides its binding.
pub record Runtime : Type 0 where
  pub json : Json
  pub classes : Classes
  pub registry : Registry

abbrev pub other_message : String → Error
other_message task_name =
    message_decoding_failed "decoded message is another than the task's" (some task_name)

-- what follows `decode`
unfoldable pub checked :
    Runtime → Dict String Label → String → String → Result Error Envelope → Result Error Envelope
unfolding name_of attempt_from with_stamps type_of_message string_discrete
checked rt labels task_name name (raise e) = raise e
checked rt labels task_name name (ok env) =
    ite (name_of rt.classes rt.registry (type_of_message env.message) ≟ task_name)
      (ok (with_stamps env (received name ∷ redelivery (attempt_from rt.json labels) ∷ [])))
      (raise (other_message task_name))

abbrev pub decode_with :
    SerializerInterface → String → Result Error (Dict String String) → Result Error Envelope
decode_with serializer body (raise e) = raise e
decode_with serializer body (ok headers) =
    serializer.decode (record { body = body; headers = headers })

-- `_rebuild`
unfoldable pub rebuild :
    Runtime → SerializerInterface → Delivery → String → String → Result Error Envelope
unfolding headers_from checked string_discrete
rebuild rt serializer delivery task_name name = checked rt delivery.labels task_name name (
    decode_with serializer delivery.body
      (headers_from rt.json (get headers_label delivery.labels) task_name))
