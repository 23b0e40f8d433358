-- ===== src/Server/Notify/Numbering.antt =====
-- Which events of a connection its listeners hear of, under which name and with which number.
use libunftp.Prelude.{ℕ, ◌+◌, ◌%◌, Bytes, ◌≡◌, Option, none, some, List, [], ◌∷◌}
use libunftp.Server.Messages
use libunftp.Server.Messages.{ControlChanMsg, Event, command, internal_msg}
use libunftp.Server.Notify.{
  PresenceEvent, DataEvent, EventMeta, Received, data_event, presence_event, EventDispatcher, u64,
  handle_all,
}

-- What a listener hears of a message, once it is known who is meant and which number it has.
abbrev pub heard_of : ControlChanMsg → Option (EventMeta → Received)
heard_of (Messages.sent_data path bytes) = some (data_event (DataEvent.got path bytes))
heard_of (Messages.written_data path bytes) = some (data_event (DataEvent.put path bytes))
heard_of (Messages.rm_dir_success path) = some (data_event (DataEvent.removed_dir path))
heard_of (Messages.del_file_success path) = some (data_event (DataEvent.deleted path))
heard_of (Messages.mk_dir_success path) = some (data_event (DataEvent.made_dir path))
heard_of (Messages.rename_success from to) = some (data_event (DataEvent.renamed from to))
heard_of (Messages.auth_success name) = some (presence_event PresenceEvent.logged_in)
heard_of Messages.exit_control_loop = some (presence_event PresenceEvent.logged_out)
heard_of _ = none

abbrev user_after : ControlChanMsg → Bytes → Bytes
user_after (Messages.auth_success name) user = name
user_after _ user = user

abbrev signed :
    Option (EventMeta → Received)
    → Bytes
    → List (Bytes × (EventMeta → Received))
    → List (Bytes × (EventMeta → Received))
signed none user rest = rest
signed (some hear) user rest = (user, hear) ∷ rest

-- The messages that are heard of, each with the user who logged in last.
abbrev pub labelled : (user : Bytes) → List Event → List (Bytes × (EventMeta → Received))
labelled user [] = []
labelled user (command c ∷ events) = labelled user events
labelled user (internal_msg msg ∷ events) =
    let rest = labelled (user_after msg user) events in
    signed (heard_of msg) (user_after msg user) rest

-- They are numbered in their order.
abbrev pub numbered : (last : ℕ) → List (Bytes × (EventMeta → Received)) → List Received
numbered last [] = []
numbered last ((user, hear) ∷ rest) =
    hear (record { username = user; sequence_number = (last + 1) % u64 })
    ∷ numbered ((last + 1) % u64) rest

module _ (events : List Event) where
  abbrev IsNumbered : EventDispatcher → Type 0
  IsNumbered self =
      handle_all events self ≡ numbered self.sequence_nr (labelled self.username events)
