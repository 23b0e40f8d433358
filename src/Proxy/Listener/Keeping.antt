-- ===== src/Proxy/Listener/Keeping.antt =====
-- Each message of the proxy loop leaves every kept port with its owner.
use mathlib.Core.Path.{subst}
use libunftp.Prelude.{
  ℕ, ◌<◌, ◌≡◌, refl, sym, ap, ◌∙◌, Bool, Option, none, some, Option-cases, inl, inr, arith,
}
use libunftp.Server.Handled.{Env, Config}
use libunftp.Proxy.{ProxyConnection, new_key, hash_key}
use libunftp.Proxy.Switchboard.{
  Board, u16, Reserved, reserved, failed, panicked, unregister_hash, unregister_this,
  get_session_by_incoming_data_connection,
}
use libunftp.Server.Options.{PortRange}
use libunftp.Proxy.Switchboard.Reservation.{IsFair, reserve-IsFair}
use libunftp.Proxy.Listener.{
  ProxyLoopMsg, proxy_header_received, assign_data_port_command, close_data_port_command, Listener,
  Outcome, continues, returns, panics, control_session, accept_control, dispatched,
  dispatch_data_connection, refuse_port, header_received, register,
  select_and_register_passive_port, receive,
}
use libunftp.Proxy.Listener.Ownership.{
  IsKnown, Holds, IsOwned, entry_of, set_session-keeps, removed-IsOwned, close-IsOwned,
  after_claim-cases,
}

abbrev pub Keeps : Outcome → Type 0
Keeps (continues effects t) = IsOwned t
Keeps (returns effects) = Unit
Keeps panics = Unit

module _ {User : Type 0} (env : Env User) (config : Config) (external_control_port : ℕ)
    (passive_ports : PortRange) where
  accept_control-Keeps :
      (c : ProxyConnection) (s : Listener)
      → IsOwned s
      → Keeps (accept_control env config external_control_port passive_ports c s)
  unfolding accept_control
  accept_control-Keeps c s h = record {
    controlled = λ id l.
        set_session-keeps s.count (control_session s.count c) s.sessions
          (λ x. (d : ProxyConnection) × (x.proxy_control ≡ some d)) id (λ _. (c, refl))
          λ differ. h.controlled id (omega arith);
    owned = λ key id e.
        let (small, holds) = h.owned key id e in
        let absent : s.count ≡ id → id < s.count → ⊥ = omega arith in
        (
          omega arith,
          set_session-keeps s.count (control_session s.count c) s.sessions (λ x. Holds x key) id
              (λ same. elim (absent same small) [ ]) λ _. holds,
        );
  }

  dispatch-Keeps :
      (c : ProxyConnection) (s : Listener) (b : Option Board)
      → s.switchboard ≡ b
      → IsOwned s
      → Keeps (dispatch_data_connection env config external_control_port passive_ports c s b)
  unfolding dispatch_data_connection dispatched unregister_this unregister_hash
  dispatch-Keeps c s none e h = h
  dispatch-Keeps c s (some board) e h =
      elim (Option-cases (get_session_by_incoming_data_connection c board)) [
        | inl unknown ↦ rw unknown h
        | inr (id, found) ↦ rw found (removed-IsOwned (hash_key c) board s e h)
      ]

  register-Keeps :
      (id : ℕ) (s : Listener) (board : Board) (control : ProxyConnection) (r : Reserved)
      → id < s.count
      → s.switchboard ≡ some board
      → (s.sessions id).proxy_control ≡ some control
      → IsOwned s
      → IsFair passive_ports id (s.sessions id) board control.source.ip r
      → Keeps (register env config external_control_port passive_ports id r s)
  unfolding register
  register-Keeps id s board control (reserved port b session) l e through h
        (low, (high, (free, (same, entries)))) =
      let hash = new_key control.source.ip port in
      let proxied : session.proxy_control ≡ some control =
        ap (λ x. x.proxy_control) same ∙ through in
      record {
        controlled = λ k small.
            set_session-keeps id session s.sessions
              (λ x. (d : ProxyConnection) × (x.proxy_control ≡ some d)) k (λ _. (control, proxied))
              (λ _. h.controlled k small);
        owned = λ key k there.
            let cases =
              after_claim-cases id k hash key (s.sessions id).proxy_active_datachan board
                (sym (entries key) ∙ there) in
            elim cases [
              | inl (mine, claimed) ↦ (
                subst (λ j. j < s.count) mine l,
                set_session-keeps id session s.sessions (λ x. Holds x key) k
                    (λ _. (
                      ap (λ x. x.proxy_active_datachan) same ∙ ap some claimed,
                      (control, (proxied, ap (λ x. x.source) claimed)),
                    ))
                    (λ differ. elim (differ mine) [ ]),
              )
              | inr (old, kept) ↦
                  let (small, holds) = h.owned key k (ap (λ x. entry_of x key) e ∙ old) in
                  (
                    small,
                    set_session-keeps id session s.sessions (λ x. Holds x key) k
                        (λ mine.
                          elim (kept
                            (ap (λ j. (s.sessions j).proxy_active_datachan) mine ∙ holds.0)) [ ])
                        (λ _. holds),
                  )
            ];
      }
  register-Keeps id s board control (failed error) l e through h fair = h
  register-Keeps id s board control panicked l e through h fair = tt

  module _ (nonempty : passive_ports.start < passive_ports.end)
      (below : passive_ports.end < u16) where
    assign-Keeps :
        (id random : ℕ) (s : Listener) (b : Option Board)
        → id < s.count
        → s.switchboard ≡ b
        → IsOwned s
        → Keeps (
            select_and_register_passive_port env config external_control_port passive_ports id
              random s b)
    unfolding select_and_register_passive_port
    assign-Keeps id random s none l e h = tt
    assign-Keeps id random s (some board) l e h =
        let (control, through) = h.controlled id l in
        register-Keeps id s board control _ l e through h (
          reserve-IsFair passive_ports random id (s.sessions id) board control nonempty below
            through)

    header-Keeps :
        (c : ProxyConnection) (shutdown_ok : Bool) (s : Listener)
        → IsOwned s
        → Keeps (header_received env config external_control_port passive_ports c shutdown_ok s)
    unfolding header_received refuse_port
    header-Keeps c shutdown_ok s h =
        ground (arith, accept_control-Keeps c s h, dispatch-Keeps c s s.switchboard refl h)

    pub receive-Keeps :
        (random : ℕ) (shutdown_ok : Bool) (msg : ProxyLoopMsg) (s : Listener)
        → IsKnown msg s
        → IsOwned s
        → Keeps (receive env config external_control_port passive_ports random shutdown_ok msg s)
    unfolding receive
    receive-Keeps random shutdown_ok (proxy_header_received c) s l h =
        header-Keeps c shutdown_ok s h
    receive-Keeps random shutdown_ok (assign_data_port_command id) s l h =
        assign-Keeps id random s s.switchboard l refl h
    receive-Keeps random shutdown_ok (close_data_port_command id) s l h =
        close-IsOwned s (s.sessions id).proxy_active_datachan s.switchboard refl h
