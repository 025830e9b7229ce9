-- ===== src/Worker/Events.antt =====
-- src/xtr_messenger/event/: the events that a worker announces.
use python_xtr_messenger.Base.{Bool, Exec, List, Result, String, false, string_eq, true}
use python_xtr_messenger.Envelope.{Envelope, with_stamps}
use python_xtr_messenger.Errors.{Error}
use python_xtr_messenger.Stamps.{Stamp, stamp_eq}

pub data WorkerEvent : Type 0 where
  started running stopped_event : WorkerEvent

pub data Announced : Type 0 where
  received_event handled_event : Announced
  failed_event : Error → Announced

-- An `AbstractWorkerMessageEvent`, with the fields of the three classes that derive from it.
pub record MessageEvent : Type 0 where
  pub kind : Announced
  pub envelope : Envelope
  pub receiver_name : String
  pub will_handle : Bool
  pub will_retry : Bool

abbrev pub new_event : Announced → Envelope → String → MessageEvent
new_event kind env name = record {
  kind = kind;
  envelope = env;
  receiver_name = name;
  will_handle = true;
  will_retry = false;
}

-- `AbstractWorkerMessageEvent.add_stamps`
unfoldable pub add_stamps : MessageEvent → List Stamp → MessageEvent
add_stamps event stamps = record event { envelope = with_stamps event.envelope stamps }

-- `WorkerMessageReceivedEvent.should_handle`, given a value
unfoldable pub set_should_handle : Bool → MessageEvent → MessageEvent
set_should_handle value event = record event { will_handle = value }

-- `WorkerMessageFailedEvent.set_for_retry`
unfoldable pub set_for_retry : MessageEvent → MessageEvent
set_for_retry event = record event { will_retry = true }

-- `EventDispatcherInterface`: what the listeners raised, and the event as they left it.
pub record Dispatcher (S : Type 0) : Type 0 where
  pub dispatch_event : MessageEvent → S → Result Error Unit × MessageEvent × S
  pub announce : WorkerEvent → Exec Error S Unit
