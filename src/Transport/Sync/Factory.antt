-- ===== src/Transport/Sync/Factory.antt =====
-- src/xtr_messenger/transport/sync/sync_transport_factory.py. A configuration is given by its
-- settings.
use python_xtr_messenger.Base.{
  Bool, Dict, List, Result, String, [], false, ite, keys, ok, raise, string_eq, true, ◌∷◌, ◌≟◌,
}
use python_xtr_messenger.Errors.{Error}
use python_xtr_messenger.Transport.Options.{reject_unknown_options}
use python_xtr_messenger.Transport.Sender.{Sender}
use python_xtr_messenger.Transport.Sync.{sync_transport}

-- `supports`
abbrev pub supports_sync : String → Bool
supports_sync scheme = ite (scheme ≟ "sync") true false

-- the loop of `create`
unfoldable pub check_group : Dict String (Dict String String) → Result Error (Unit {0})
unfolding reject_unknown_options
check_group [] = ok tt
check_group ((name, settings) ∷ group) =
    let rest = check_group group in
    elim (reject_unknown_options "sync" settings []) [ ok _ ↦ rest | raise e ↦ raise e ]

-- what `create` returns
abbrev pub sync_each : {W : Type 0} → List String → Dict String (Sender W)
sync_each [] = []
sync_each (name ∷ names) = (name, sync_transport) ∷ sync_each names

-- `create`
unfoldable pub create_sync :
    {W : Type 0} → Dict String (Dict String String) → Result Error (Dict String (Sender W))
unfolding check_group keys
create_sync group = elim (check_group group) [
  | ok _ ↦ ok (sync_each (keys group))
  | raise e ↦ raise e
]
