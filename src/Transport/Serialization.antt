-- ===== src/Transport/Serialization.antt =====
-- src/xtr_messenger/transport/serialization/encoded_envelope.py and serializer_interface.py.
pub mod Json
use python_xtr_messenger.Base.{Dict, Result, String, string_eq}
use python_xtr_messenger.Envelope.{Envelope}
use python_xtr_messenger.Errors.{Error}

pub record EncodedEnvelope : Type 0 where
  pub body : String
  pub headers : Dict String String

-- `SerializerInterface`
pub record SerializerInterface : Type 0 where
  pub encode : Envelope → Result Error EncodedEnvelope
  pub decode : EncodedEnvelope → Result Error Envelope
