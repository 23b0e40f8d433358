-- ===== src/Proxy/Listener/Ownership.antt =====
-- The states of the proxy loop in which every kept port is owned by one session of its client.
use mathlib.Core.Path.{subst}
use libunftp.Prelude.{
  ℕ, ◌<◌, ◌≡◌, ◌≢◌, ◌⊎◌, refl, sym, ap, ◌∙◌, Bool, true, false, Option, none, some, Bool-cases, inl,
  inr, ◌==◌, ==_iff, if◌then◌else◌, arith,
}
use libunftp.Std.HashMap
use libunftp.Proxy.{ProxyConnection, ProxyHashKey, ProxySession, key_eq, key_eq_iff}
use libunftp.Proxy.Switchboard.{Board, unregister_hash}
use libunftp.Proxy.Switchboard.Entries.{entry, stale, after_claim, entry-remove}
use libunftp.Proxy.Listener.{
  ProxyLoopMsg, proxy_header_received, assign_data_port_command, close_data_port_command, Listener,
  set_session, unregister_active,
}

-- The sessions that a message names have a control connection.
abbrev pub IsKnown : ProxyLoopMsg → Listener → Type 0
IsKnown (proxy_header_received c) s = Unit
IsKnown (assign_data_port_command id) s = id < s.count
IsKnown (close_data_port_command id) s = id < s.count

abbrev pub entry_of : Option Board → ProxyHashKey → Option (Option ℕ)
entry_of none key = none
entry_of (some board) key = entry key board

-- The session's client holds the key, and has noted it.
abbrev pub Holds : ProxySession → ProxyHashKey → Type 0
Holds session key =
    (session.proxy_active_datachan ≡ some key)
    × ((c : ProxyConnection) × ((session.proxy_control ≡ some c) × (c.source.ip ≡ key.source)))

-- Every entry of the board belongs to a session of the client's address, which has noted it.
pub record IsOwned (s : Listener) : Type 0 where
  pub controlled :
      (id : ℕ) → id < s.count → (c : ProxyConnection) × ((s.sessions id).proxy_control ≡ some c)
  pub owned :
      (key : ProxyHashKey) (id : ℕ)
      → entry_of s.switchboard key ≡ some (some id)
      → (id < s.count) × Holds (s.sessions id) key

set_session-same :
    (id : ℕ) (x : ProxySession) (sessions : ℕ → ProxySession) → set_session id x sessions id ≡ x
unfolding set_session
set_session-same id x sessions = ground arith

set_session-other :
    (id k : ℕ) (x : ProxySession) (sessions : ℕ → ProxySession)
    → id ≢ k
    → set_session id x sessions k ≡ sessions k
unfolding set_session
set_session-other id k x sessions differ = ground arith

kept_cases :
    {v : Option ℕ} (b : Bool) (o : Option (Option ℕ))
    → (if b then none else o) ≡ some v
    → (b ≡ false) × (o ≡ some v)
kept_cases true o e = ground arith
kept_cases false o e = (refl, e)

-- A session that is set to one with what it had keeps what it had.
module _ (id : ℕ) (x : ProxySession) (sessions : ℕ → ProxySession) (P : ProxySession → Type 0) where
  pub set_session-keeps :
      (k : ℕ) → (id ≡ k → P x) → (id ≢ k → P (sessions k)) → P (set_session id x sessions k)
  set_session-keeps k here there = elim (Bool-cases (id == k)) [
    | inl same ↦
        let e : id ≡ k = (==_iff id k).0 same in
        subst (λ j. P (set_session id x sessions j)) e
          (subst P (sym (set_session-same id x sessions)) (here e))
    | inr differ ↦
        let e : id ≢ k = ground arith in
        subst P (sym (set_session-other id k x sessions e)) (there e)
  ]

pub removed-IsOwned :
    (key : ProxyHashKey) (board : Board) (s : Listener)
    → s.switchboard ≡ some board
    → IsOwned s
    → IsOwned (record s { switchboard = some (HashMap.remove key_eq key board) })
removed-IsOwned key board s e h = record {
  controlled = h.controlled;
  owned = λ j id there.
      h.owned j id (
        rw e
          (kept_cases (key_eq key j) (entry j board) (sym (entry-remove key j board) ∙ there)).1);
}

pub close-IsOwned :
    (s : Listener) (active : Option ProxyHashKey) (b : Option Board)
    → s.switchboard ≡ b
    → IsOwned s
    → IsOwned (record s { switchboard = unregister_active b active })
unfolding unregister_active unregister_hash
close-IsOwned s active none e h = subst (λ b. IsOwned (record s { switchboard = b })) e h
close-IsOwned s none (some board) e h = subst (λ b. IsOwned (record s { switchboard = b })) e h
close-IsOwned s (some key) (some board) e h = removed-IsOwned key board s e h

not_given_up :
    (hash key : ProxyHashKey) (active : Option ProxyHashKey)
    → stale hash active key ≡ false
    → key_eq hash key ≡ false
    → active ≢ some key
not_given_up hash key none current old = ground arith
not_given_up hash key (some a) current old =
    λ e. let same : a ≡ key = cc in ground (arith, ap (λ k. k.source) same, ap (λ k. k.port) same)

-- The entry of a board after a claim is the new one, or an old one that is not given up.
pub after_claim-cases :
    (id k : ℕ) (hash key : ProxyHashKey) (active : Option ProxyHashKey) (board : Board)
    → after_claim id hash active board key ≡ some (some k)
    → ((id ≡ k) × (hash ≡ key)) ⊎ ((entry key board ≡ some (some k)) × (active ≢ some key))
after_claim-cases id k hash key active board e =
    let (current, there) = kept_cases (stale hash active key) _ e in
    elim (Bool-cases (key_eq hash key)) [
      | inl new ↦
          let pair : some (some id) ≡ some (some k) =
            sym (ap (λ b. if b then some (some id) else entry key board) new) ∙ there in
          inl (cc, (key_eq_iff hash key).0 new)
      | inr old ↦ inr (
        sym (ap (λ b. if b then some (some id) else entry key board) old) ∙ there,
        not_given_up hash key active current old,
      )
    ]
