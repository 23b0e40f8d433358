-- ===== src/Server/Shutdown.antt =====
-- src/server/shutdown.rs: how the connections of a server are told to end, and how it waits for them.
-- Of a channel on which nobody sends it counts who holds a sender: a receiver waits while one is held.
pub mod Ending
use libunftp.Prelude.{
  ℕ, ◌+◌, ◌≡◌, refl, Bool, true, false, not, ◌&&◌, List, [], ◌∷◌, ◌++◌, ◌==◌, if◌then◌else◌,
}

-- Which of its senders the server still has.
pub record Notifier : Type 0 where
  pub shutdown_tx : Bool
  pub shutdown_complete_tx : Bool

pub record Listener : Type 0 where
  pub shutdown : Bool
  pub shutdown_rx : Bool
  pub shutdown_complete_tx : Bool

-- A call of `listen` returns, waits, or panics as there is no receiver to unwrap.
pub data Listening : Type 0 where
  returned : Listener → Listening
  waiting panicked : Listening

abbrev pub new : Notifier
new = record { shutdown_tx = true; shutdown_complete_tx = true }

-- `notify` takes the two senders, each under a lock of its own.
unfoldable pub take_shutdown : Notifier → Notifier
take_shutdown self = record self { shutdown_tx = false }

unfoldable pub take_complete : Notifier → Notifier
take_complete self = record self { shutdown_complete_tx = false }

unfoldable pub subscribe : Notifier → Listener
subscribe self = record {
  shutdown = not self.shutdown_tx;
  shutdown_rx = self.shutdown_tx;
  shutdown_complete_tx = self.shutdown_complete_tx;
}

-- The wait for the receiver, which ends when the server has dropped its sender.
received : (shutdown_tx shutdown_rx : Bool) → Listener → Listening
received shutdown_tx false self = panicked
received true true self = waiting
received false true self = returned (record self { shutdown = true })

unfoldable pub listen : Notifier → Listener → Listening
unfolding received
listen notifier self =
    if self.shutdown then returned self else received notifier.shutdown_tx self.shutdown_rx self

-- How many of the listeners hold a sender by which the server waits for them.
unfoldable pub holders : List Listener → ℕ
holders [] = 0
holders (l ∷ listeners) =
    let rest = holders listeners in if l.shutdown_complete_tx then 1 + rest else rest

-- Whether `linger` returns.
unfoldable pub linger : Notifier → List Listener → Bool
unfolding holders
linger self listeners = not self.shutdown_complete_tx && holders listeners == 0

-- The notifier of a server, and the listeners of the connections that are left.
pub record Ends : Type 0 where
  pub notifier : Notifier
  pub listeners : List Listener

pub data Step : Ends → Ends → Type 0 where
  subscribes : (w : Ends) → Step w (record w { listeners = subscribe w.notifier ∷ w.listeners })
  notifies : (w : Ends) → Step w (record w { notifier = take_shutdown w.notifier })
  completes :
      (w : Ends)
      → w.notifier.shutdown_tx ≡ false
      → Step w (record w { notifier = take_complete w.notifier })
  hears :
      (n : Notifier) (before later : List Listener) (l heard : Listener)
      → listen n l ≡ returned heard
      → Step
          (record { notifier = n; listeners = before ++ l ∷ later })
          (record { notifier = n; listeners = before ++ heard ∷ later })
  -- The connection of a listener has ended.
  drops :
      (n : Notifier) (before later : List Listener) (l : Listener)
      → Step
          (record { notifier = n; listeners = before ++ l ∷ later })
          (record { notifier = n; listeners = before ++ later })

pub data Reach (w : Ends) : Ends → Type 0 where
  here : Reach w w
  next : {u v : Ends} → Reach w u → Step u v → Reach w v

abbrev pub start : Ends
start = record { notifier = new; listeners = [] }
