-- ===== src/Transport/Serialization/Json/RoundTrip.antt =====
-- `JsonSerializer.decode` of what `JsonSerializer.encode` wrote.
-- The serializer that writes the parts reads back what it wrote, or refuses to write it.
use python_xtr_messenger.Base.{
  All, All-right, Dict, List, Result, String, [], ap, get, if_neg, if_pos, none, ok, raise, refl,
  select, some, string_eq, strip_prefix, strip_prefix-append, subst, sym, ◌+++◌, ◌∙◌, ◌∷◌, ◌≟◌, ◌≡◌,
  ◌≢◌,
}
use python_xtr_messenger.Envelope.{Envelope, Message, type_of_message, without_stamps}
use python_xtr_messenger.Registry.{name_of, type_for_name}
use python_xtr_messenger.Stamps.{
  Stamp, StampType, non_sendable_stamp_interface, stamp_eq, stamp_type_eq, type_of,
}
use python_xtr_messenger.Transport.Serialization.{EncodedEnvelope}
use python_xtr_messenger.Transport.Serialization.Json.{
  Declared, JsonSerializer, Writer, and_stamps, decode, decode_as, decode_named, decode_stamps,
  decoded_from, encode, encode_stamps, encoded_from, group_from, header_type, read_header,
  read_stamps, restored_type, stamp_header_prefix, type_header, update, write_groups, written_as,
}
use python_xtr_messenger.Transport.Serialization.Json.Grouping.{
  Grouped, flat, flat-group_from, group_from-All, group_from-Grouped, header_name, of_type,
}
use python_xtr_messenger.Transport.Serialization.Json.Headers.{
  and_header_ok, type_has_no_prefix, update_type,
}

pub record IsExact (w : Writer) : Type 0 where
  pub message_back :
      (m : Message) (body : String)
      → w.serialize m ≡ ok body
      → w.deserialize (type_of_message m) body ≡ ok m
  pub stamps_back :
      (t : StampType) (ss : List Stamp) (value : String)
      → w.serialize_stamps t ss ≡ ok value
      → w.deserialize_stamps t value ≡ ok ss

module _ (d : Declared) (j : JsonSerializer) (exact : IsExact j.writer) where
  -- A stamp whose class is the one that its class name restores.
  abbrev pub Restores : Stamp → Type 0
  Restores s = restored_type d j (header_name d.stamp_names s) ≡ some (type_of s)

  read_back :
      (t : StampType) (ss : List Stamp) (value : String)
      → j.writer.serialize_stamps t ss ≡ ok value
      → read_stamps d j t value ≡ ok ss
  unfolding read_stamps
  read_back t ss value e = rw (exact.stamps_back t ss value e, read_stamps)

  header_type_of :
      (key : String) (s : Stamp)
      → header_name d.stamp_names s ≡ key
      → Restores s
      → header_type d j (strip_prefix stamp_header_prefix (stamp_header_prefix +++ key))
        ≡ some (type_of s)
  header_type_of key s e r =
      ap (header_type d j) (strip_prefix-append stamp_header_prefix key)
      ∙ ap (restored_type d j) (sym e)
      ∙ r

  decode_groups :
      (name : String) (groups : Dict String (List Stamp)) (headers : Dict String String)
      → Grouped d.stamp_names groups
      → All Restores (flat groups)
      → write_groups j.writer groups ≡ ok headers
      → decode_stamps d j headers name ≡ ok (flat groups)
  unfolding write_groups decode_stamps written_as
  decode_groups name [] headers g r e =
      subst (λ h. decode_stamps d j h name ≡ ok []) {x = []} {y = headers} (cc e) refl
  decode_groups name ((k, []) ∷ groups) headers (g, _, _) r e = absurd g
  decode_groups name ((k, s ∷ ss) ∷ groups) headers ((named, _), others, gs) (r, rs) e =
      let (value, more, wrote, rest, shape) =
        and_header_ok (stamp_header_prefix +++ k) (j.writer.serialize_stamps (type_of s) (s ∷ ss))
          (write_groups j.writer groups) headers e in
      ap (λ h. decode_stamps d j h name) shape
      ∙ ap (λ t. read_header d j name t value (decode_stamps d j more name))
          (header_type_of k s named r)
      ∙ ap (λ x. and_stamps name x (decode_stamps d j more name))
          (read_back (type_of s) (s ∷ ss) value wrote)
      ∙ ap (and_stamps name (ok (s ∷ ss)))
          (decode_groups name groups more gs (All-right Restores ss (flat groups) rs) rest)

  encoded_from_ok :
      (name : String) (a : Result String String) (b : Result String (Dict String String))
      (encoded : EncodedEnvelope)
      → encoded_from name a b ≡ ok encoded
      → (body : String) × (headers : Dict String String) × (a ≡ ok body)
        × (b ≡ ok headers)
        × (encoded ≡ record { body = body; headers = update ((type_header, name) ∷ []) headers })
  encoded_from_ok name (raise e) b encoded h = cc h
  encoded_from_ok name (ok body) (raise e) encoded h = cc h
  encoded_from_ok name (ok body) (ok headers) encoded h = (body, headers, refl, refl, cc h)

  decode_type :
      (name : String) (headers : Dict String String)
      → decode_stamps d j ((type_header, name) ∷ headers) name ≡ decode_stamps d j headers name
  unfolding decode_stamps
  decode_type name headers =
      ap (λ o. read_header d j name (header_type d j o) name (decode_stamps d j headers name))
        type_has_no_prefix

  decode_encoded :
      (m : Message) (name body : String) (headers : Dict String String) (stamps : List Stamp)
      → name ≢ ""
      → type_for_name d.registry name ≡ ok (type_of_message m)
      → j.writer.serialize m ≡ ok body
      → decode_stamps d j headers name ≡ ok stamps
      → decode d j (record { body = body; headers = (type_header, name) ∷ headers })
        ≡ ok (record { message = m; stamps = stamps })
  unfolding decode get
  decode_encoded m name body headers stamps n t b s =
      let encoded : EncodedEnvelope = record {
        body = body;
        headers = (type_header, name) ∷ headers;
      } in
      ap (decode_named d j encoded) (if_pos (type_header ≟ type_header) refl (some name) none)
      ∙ if_neg (name ≟ "") n _ _
      ∙ ap (decode_as d j encoded name) t
      ∙ ap (λ x. decoded_from name x (decode_stamps d j ((type_header, name) ∷ headers) name))
          (exact.message_back m body b)
      ∙ ap (decoded_from name (ok m)) (decode_type name headers ∙ s)

  -- What was encoded decodes to the same message, under a name that is not empty and stands for its class, with the
  -- sendable stamps, those of each class in their order, when the class name of each stamp restores
  -- its class.
  pub decode-encode :
      (env : Envelope) (encoded : EncodedEnvelope)
      → name_of d.classes d.registry (type_of_message env.message) ≢ ""
      → type_for_name d.registry (name_of d.classes d.registry (type_of_message env.message))
        ≡ ok (type_of_message env.message)
      → All Restores (without_stamps env non_sendable_stamp_interface).stamps
      → encode d j env ≡ ok encoded
      → (stamps : List Stamp) × (decode d j encoded
          ≡ ok (record { message = env.message; stamps = stamps }))
        × ((t : StampType)
            → select (of_type t) stamps
              ≡ select (of_type t) (without_stamps env non_sendable_stamp_interface).stamps)
  unfolding encode encode_stamps select
  decode-encode env encoded n t r e =
      let name = name_of d.classes d.registry (type_of_message env.message) in
      let sendable = (without_stamps env non_sendable_stamp_interface).stamps in
      let groups = group_from d.stamp_names [] sendable in
      let grouped = group_from-Grouped d.stamp_names [] sendable tt in
      let (body, headers, wrote, heads, shape) =
        encoded_from_ok name (j.writer.serialize env.message) (write_groups j.writer groups) encoded
          e in
      (
        flat groups,
        ap (decode d j) (
              shape
              ∙ ap (λ h. record { body = body; headers = h })
                  (update_type j.writer d.stamp_names groups headers name grouped heads))
            ∙ decode_encoded env.message name body headers (flat groups) n t wrote (
                decode_groups name groups headers grouped
                  (group_from-All d.stamp_names Restores [] sendable tt r) heads),
        λ c. flat-group_from d.stamp_names c [] sendable tt,
      )
