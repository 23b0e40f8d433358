-- ===== src/Server/Notify.antt =====
-- src/server/controlchan/notify.rs and src/notification/event.rs: the middleware that tells the
-- listeners of a server what happened on a connection. The trace identifier, which is another one for
-- each connection, is left out.
pub mod Numbering
use libunftp.Prelude.{ℕ, ◌+◌, ◌%◌, ◌^◌, Bytes, Option, none, some, List, [], ◌∷◌, text}
use libunftp.Server.Messages.{
  ControlChanMsg, sent_data, written_data, rm_dir_success, del_file_success, mk_dir_success,
  rename_success, auth_success, exit_control_loop, Event, command, internal_msg,
}

pub data PresenceEvent : Type 0 where
  logged_in logged_out : PresenceEvent

pub data DataEvent : Type 0 where
  got put : (path : Bytes) (bytes : ℕ) → DataEvent
  deleted made_dir removed_dir : (path : Bytes) → DataEvent
  renamed : (from to : Bytes) → DataEvent

pub record EventMeta : Type 0 where
  pub username : Bytes
  pub sequence_number : ℕ

-- What one of the two listeners receives.
pub data Received : Type 0 where
  data_event : DataEvent → EventMeta → Received
  presence_event : PresenceEvent → EventMeta → Received

pub record EventDispatcher : Type 0 where
  pub sequence_nr : ℕ
  pub username : Bytes

unfoldable pub new : EventDispatcher
unfolding text
new = record { sequence_nr = 0; username = text "unknown" }

-- `sequence_nr` is a `u64`.
abbrev pub u64 : ℕ
u64 = 2 ^ 64

presence_of : ControlChanMsg → Option PresenceEvent
presence_of (auth_success username) = some logged_in
presence_of exit_control_loop = some logged_out
presence_of _ = none

data_of : ControlChanMsg → Option DataEvent
data_of (sent_data path bytes) = some (got path bytes)
data_of (written_data path bytes) = some (put path bytes)
data_of (rm_dir_success path) = some (removed_dir path)
data_of (del_file_success path) = some (deleted path)
data_of (mk_dir_success path) = some (made_dir path)
data_of (rename_success old_path new_path) = some (renamed old_path new_path)
data_of _ = none

identified : ControlChanMsg → EventDispatcher → EventDispatcher
identified (auth_success username) self = record self { username = username }
identified _ self = self

counted : EventDispatcher → EventDispatcher
counted self = record self { sequence_nr = (self.sequence_nr + 1) % u64 }

meta : EventDispatcher → EventMeta
meta self = record { username = self.username; sequence_number = self.sequence_nr }

-- An event for both listeners would be counted and go to neither.
dispatched :
    Option DataEvent → Option PresenceEvent → EventDispatcher → EventDispatcher × Option Received
unfolding counted meta
dispatched none none self = (self, none)
dispatched (some event) none self = (counted self, some (data_event event (meta (counted self))))
dispatched none (some event) self =
    (counted self, some (presence_event event (meta (counted self))))
dispatched (some event) (some other) self = (counted self, none)

unfoldable pub handle : Event → EventDispatcher → EventDispatcher × Option Received
unfolding presence_of data_of identified dispatched
handle (command c) self = (self, none)
handle (internal_msg msg) self = dispatched (data_of msg) (presence_of msg) (identified msg self)

abbrev received : Option Received → List Received → List Received
received none rest = rest
received (some r) rest = r ∷ rest

-- What the listeners receive of the events of a connection.
pub handle_all : List Event → EventDispatcher → List Received
unfolding handle
handle_all [] self = []
handle_all (event ∷ events) self =
    let rest = handle_all events (handle event self).0 in received (handle event self).1 rest
