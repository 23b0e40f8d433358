-- ===== src/Proxy/Listener/Dispatch.antt =====
-- The proxy loop as a step relation, and whose data connections a session is given.
use mathlib.Core.Path.{subst}
use libunftp.Prelude.{
  ℕ, ◌<◌, ◌≡◌, refl, sym, ap, ◌∙◌, Bool, true, Option, none, some, List, [], ◌∷◌, Option-cases, inl,
  inr, arith,
}
use libunftp.Std.HashMap
use libunftp.Server.Handled.{Env, Config}
use libunftp.Proxy.{ProxyConnection, ProxySession, hash_key}
use libunftp.Proxy.Switchboard.{
  Board, u16, unregister_hash, unregister_this, get_session_by_incoming_data_connection,
}
use libunftp.Server.Options.{PortRange}
use libunftp.Proxy.Switchboard.Entries.{entry-remove, entry_of_session}
use libunftp.Proxy.Listener.{
  ProxyLoopMsg, proxy_header_received, Listener, Effect, spawn_processing, Outcome, continues,
  set_session, contains, accept_control, dispatched, dispatch_data_connection, refuse_port,
  header_received, receive,
}
use libunftp.Proxy.Listener.Ownership.{IsKnown, Holds, IsOwned, entry_of, set_session-keeps}
use libunftp.Proxy.Listener.Keeping.{receive-Keeps, Keeps}

not-lt-zero : (n : ℕ) → n < 0 → ⊥
not-lt-zero n l = omega arith

module _ {User : Type 0} (env : Env User) (config : Config) (external_control_port : ℕ)
    (passive_ports : PortRange) where
  -- The loop handles a message, or PASV prepares the session that it is about to ask a port for.
  pub data Step : Listener → Listener → Type 0 where
    message :
        {s t : Listener} (random : ℕ) (shutdown_ok : Bool) (msg : ProxyLoopMsg)
        (effects : List Effect)
        → IsKnown msg s
        → receive env config external_control_port passive_ports random shutdown_ok msg s
          ≡ continues effects t
        → Step s t
    prepared :
        {s : Listener} (id channel : ℕ)
        → Step s (record s {
          sessions =
              set_session id (record (s.sessions id) { control_msg_tx = some channel }) s.sessions;
        })

  pub data Reachable : Listener → Type 0 where
    started :
        (sessions : ℕ → ProxySession)
        → Reachable (record { switchboard = some []; sessions = sessions; count = 0 })
    next : {s t : Listener} → Reachable s → Step s t → Reachable t

  Step-IsOwned :
      (passive_ports.start < passive_ports.end)
      → passive_ports.end < u16
      → {s t : Listener} → Step s t
      → IsOwned s
      → IsOwned t
  Step-IsOwned nonempty below (message random shutdown_ok msg effects known e) h = subst Keeps e (
      receive-Keeps env config external_control_port passive_ports nonempty below random shutdown_ok
        msg _ known h)
  Step-IsOwned nonempty below (prepared {s} id channel) h =
      let x = record (s.sessions id) { control_msg_tx = some channel } in
      record {
        controlled = λ k small.
            set_session-keeps id x s.sessions
              (λ x. (d : ProxyConnection) × (x.proxy_control ≡ some d)) k
              (λ same. h.controlled id (subst (λ j. j < s.count) (sym same) small))
              (λ _. h.controlled k small);
        owned = λ key k there.
            let (small, holds) = h.owned key k there in
            (
              small,
              set_session-keeps id x s.sessions (λ x. Holds x key) k
                  (λ same. subst (λ j. Holds (s.sessions j) key) (sym same) holds) (λ _. holds),
            );
      }

  Reachable-IsOwned :
      (passive_ports.start < passive_ports.end)
      → passive_ports.end < u16
      → {s : Listener} → Reachable s
      → IsOwned s
  unfolding HashMap.get
  Reachable-IsOwned nonempty below (started sessions) = record {
    controlled = λ id l. elim (not-lt-zero id l) [ ];
    owned = λ key id there. ground arith;
  }
  Reachable-IsOwned nonempty below (next r step) =
      Step-IsOwned nonempty below step (Reachable-IsOwned nonempty below r)

  -- A data connection that is handed over reaches the session that holds its key, and frees it.
  abbrev Delivers : Listener → ProxyConnection → Outcome → Type 0
  Delivers s c (continues (spawn_processing id d ∷ effects) t) =
      (d ≡ c)
      × (Holds (s.sessions id) (hash_key c)
          × ((contains passive_ports c.destination.port ≡ true)
              × (entry_of t.switchboard (hash_key c) ≡ none)))
  Delivers s c _ = Unit

  dispatch-Delivers :
      (c : ProxyConnection) (s : Listener) (b : Option Board)
      → s.switchboard ≡ b
      → IsOwned s
      → contains passive_ports c.destination.port ≡ true
      → Delivers s c (dispatch_data_connection env config external_control_port passive_ports c s b)
  unfolding dispatch_data_connection dispatched unregister_this unregister_hash
  dispatch-Delivers c s none e h inside = tt
  dispatch-Delivers c s (some board) e h inside =
      elim (Option-cases (get_session_by_incoming_data_connection c board)) [
        | inl unknown ↦ rw unknown tt
        | inr (id, found) ↦
            let there = ap (λ b. entry_of b (hash_key c)) e ∙ entry_of_session c board id found in
            rw found (
              refl,
              (
                (h.owned (hash_key c) id there).1,
                (inside, entry-remove (hash_key c) (hash_key c) board ∙ ground arith),
              ),
            )
      ]

  header-Delivers :
      (c : ProxyConnection) (shutdown_ok : Bool) (s : Listener)
      → IsOwned s
      → Delivers s c
          (header_received env config external_control_port passive_ports c shutdown_ok s)
  unfolding header_received accept_control refuse_port
  header-Delivers c shutdown_ok s h = ground (arith, dispatch-Delivers c s s.switchboard refl h)

  -- Of a passive range that is not empty and ends below 2^16: in every state that the loop reaches, a
  -- data connection that is handed to a session goes to a port of the range, the session has noted
  -- that port for the connection's source address, its control connection came from the same address,
  -- and the port is free for that address afterwards.
  pub dispatched-Holds :
      (passive_ports.start < passive_ports.end)
      → passive_ports.end < u16
      → {s : Listener} → Reachable s
      → (random : ℕ) (shutdown_ok : Bool) (c : ProxyConnection) (t : Listener) (id : ℕ)
      → receive env config external_control_port passive_ports random shutdown_ok
          (proxy_header_received c)
          s
        ≡ continues (spawn_processing id c ∷ []) t
      → Holds (s.sessions id) (hash_key c)
        × ((contains passive_ports c.destination.port ≡ true)
            × (entry_of t.switchboard (hash_key c) ≡ none))
  unfolding receive
  dispatched-Holds nonempty below {s} r random shutdown_ok c t id e =
      (subst (Delivers s c) e
        (header-Delivers c shutdown_ok s (Reachable-IsOwned nonempty below r))).1
