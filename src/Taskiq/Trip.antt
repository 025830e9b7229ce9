-- ===== src/Taskiq/Trip.antt =====
-- What a sender publishes, a task rebuilds.
use python_xtr_messenger.Base.{
  All, Dict, List, Option, Result, String, [], ap, get, if_pos, length, ok, pos, raise, refl,
  select, some, string_discrete, string_eq, suc, sym, ℕ_discrete, ◌++◌, ◌∙◌, ◌∷◌, ◌≟◌, ◌≡◌, ◌≢◌,
}
use python_xtr_messenger.Envelope.{Envelope, last, type_of_message, with_stamps, without_stamps}
use python_xtr_messenger.Errors.{Error}
use python_xtr_messenger.Registry.{name_of, type_for_name}
use python_xtr_messenger.Stamps.{
  Stamp, StampType, delay_stamp, non_sendable_stamp_interface, received, redelivery, stamp_eq,
  stamp_type_eq,
}
use python_xtr_messenger.Taskiq.{
  Json, Label, Runtime, attempt_from, bad_headers, checked, count_from, decode_with, headers_from,
  headers_label, headers_of, json_object, other_message, rebuild, retries_from, text_entries,
}
use python_xtr_messenger.Taskiq.Publishing.{
  TaskiqSender, and_labels, delay_entry, labels_for, own_labels,
}
use python_xtr_messenger.Transport.Serialization.{EncodedEnvelope, SerializerInterface}
use python_xtr_messenger.Transport.Serialization.Json.{Declared, JsonSerializer, decode, encode}
use python_xtr_messenger.Transport.Serialization.Json.Grouping.{of_type}
use python_xtr_messenger.Transport.Serialization.Json.RoundTrip.{IsExact, Restores, decode-encode}

abbrev pub as_items : Dict String String → Dict String (Option String)
as_items [] = []
as_items ((k, v) ∷ d) = (k, some v) ∷ as_items d

text_entries-as_items : (d : Dict String String) → text_entries (as_items d) ≡ d
unfolding text_entries
text_entries-as_items [] = refl
text_entries-as_items ((k, v) ∷ d) = ap (◌∷◌ (k, v)) (text_entries-as_items d)

length-as_items : (d : Dict String String) → length (as_items d) ≡ length d
length-as_items [] = refl
length-as_items ((k, v) ∷ d) = ap suc (length-as_items d)

headers_of-as_items :
    (task_name : String) (d : Dict String String)
    → headers_of task_name (json_object (as_items d)) ≡ ok d
unfolding headers_of
headers_of-as_items task_name d =
    if_pos (ℕ_discrete (length (text_entries (as_items d))) (length (as_items d)))
      (ap length (text_entries-as_items d) ∙ sym (length-as_items d))
      (ok (text_entries (as_items d))) (raise (bad_headers task_name))
    ∙ ap ok (text_entries-as_items d)

-- The serializer that a `JsonSerializer` is.
abbrev pub interface_of : Declared → JsonSerializer → SerializerInterface
interface_of d j = record { encode = encode d j; decode = decode d j }

abbrev pub runtime_of : Json → Declared → Runtime
runtime_of json d = record { json = json; classes = d.classes; registry = d.registry }

module _ {S : Type 0} (rt : Runtime) (sender : TaskiqSender S) where
  and_labels-ok :
      (first_labels labels : Dict String Label) (r : Result Error (Dict String Label))
      → and_labels first_labels r ≡ ok labels
      → (more : Dict String Label) × (labels ≡ first_labels ++ more)
  and_labels-ok first_labels labels (ok more) h = (more, cc h)
  and_labels-ok first_labels labels (raise e) h = cc h

  -- The labels that a sender gives are read back: the headers as they were, and no retry.
  labels_read :
      (env : Envelope) (headers : Dict String String) (labels : Dict String Label)
      (task_name : String)
      → labels_for rt sender env headers ≡ ok labels
      → (headers_from rt.json (get headers_label labels) task_name
          ≡ headers_of task_name (rt.json.loads (rt.json.dumps headers)))
        × (attempt_from rt.json labels ≡ pos 0)
  unfolding labels_for delay_entry get headers_from attempt_from retries_from count_from
      string_discrete
  labels_read env headers labels task_name h =
      let (more, shape) =
        and_labels-ok (own_labels rt.json sender.queue headers) labels
          (delay_entry sender.supports_delay (last env delay_stamp)) h in
      rw shape (refl, refl)

module _ {S : Type 0} (json : Json) (d : Declared) (j : JsonSerializer) (exact : IsExact j.writer)
    (sender : TaskiqSender S) where
  -- What a sender publishes of an envelope, its encoded body and its labels, a task of the message's
  -- name rebuilds on its first delivery, if the labels could be made and JSON reads the headers
  -- back: the same message, with the sendable stamps, those of each class in their order, and then
  -- the transport that it was received from and an attempt of zero, when the name is not empty
  -- and stands for the class and the class name of each stamp restores its class.
  pub rebuild-labels_for :
      (env : Envelope) (encoded : EncodedEnvelope) (labels : Dict String Label) (transport : String)
      → json.loads (json.dumps encoded.headers) ≡ json_object (as_items encoded.headers)
      → labels_for (runtime_of json d) sender env encoded.headers ≡ ok labels
      → name_of d.classes d.registry (type_of_message env.message) ≢ ""
      → type_for_name d.registry (name_of d.classes d.registry (type_of_message env.message))
        ≡ ok (type_of_message env.message)
      → All (Restores d j exact) (without_stamps env non_sendable_stamp_interface).stamps
      → encode d j env ≡ ok encoded
      → (stamps : List Stamp) × (rebuild
            (runtime_of json d)
            (interface_of d j)
            (record { body = encoded.body; labels = labels })
            (name_of d.classes d.registry (type_of_message env.message))
            transport
          ≡ ok (
              with_stamps
                (record { message = env.message; stamps = stamps })
                (received transport ∷ redelivery (pos 0) ∷ [])))
        × ((t : StampType)
            → select (of_type t) stamps
              ≡ select (of_type t) (without_stamps env non_sendable_stamp_interface).stamps)
  unfolding rebuild checked
  rebuild-labels_for env encoded labels transport back made n t r e =
      let rt = runtime_of json d in
      let name = name_of d.classes d.registry (type_of_message env.message) in
      let (stamps, decoded, ordered) = decode-encode d j exact env encoded n t r e in
      let (heads, attempt) = labels_read rt sender env encoded.headers labels name made in
      let shown : Envelope = record { message = env.message; stamps = stamps } in
      (
        stamps,
        ap (λ h. checked rt labels name transport (decode_with (interface_of d j) encoded.body h))
              (heads ∙ ap (headers_of name) back ∙ headers_of-as_items name encoded.headers)
            ∙ ap (checked rt labels name transport) decoded
            ∙ if_pos (name ≟ name) refl
                (ok (
                  with_stamps shown
                    (received transport ∷ redelivery (attempt_from json labels) ∷ [])))
                (raise (other_message name))
            ∙ ap (λ k. ok (with_stamps shown (received transport ∷ redelivery k ∷ []))) attempt,
        ordered,
      )
