-- ===== src/Classes.antt =====
-- What Python's runtime tells about the application's message classes: `__mro__`, `__module__`
-- and `__qualname__`. The application defines its classes, so this is a parameter.
use Prim.Native.String
use python_xtr_messenger.Base.{Bool, List, String, contains, string_eq}
use python_xtr_messenger.Envelope.{MessageType, MessageType-discrete, message_type_eq}

pub record Classes : Type 0 where
  pub mro : MessageType → List MessageType
  pub module_name : MessageType → String
  pub qual_name : MessageType → String

-- `issubclass(c, base)`
unfoldable pub issubclass : Classes → MessageType → MessageType → Bool
unfolding contains MessageType-discrete
issubclass k c base = contains (k.mro c) base

-- `_default_name` of src/xtr_messenger/message_registry.py
unfoldable pub default_name : Classes → MessageType → String
default_name k c = String.◌++◌ (k.module_name c) (String.◌++◌ ":" (k.qual_name c))
