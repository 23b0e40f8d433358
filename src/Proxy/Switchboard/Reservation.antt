-- ===== src/Proxy/Switchboard/Reservation.antt =====
-- What `reserve_next_free_port` does to the board: its bounds, and that it misses no free port.
use libunftp.Prelude.{
  ℕ, zero, suc, ◌+◌, ◌≤◌, ◌<◌, ◌≡◌, ◌≢◌, ◌↔◌, refl, sym, ap, ◌∙◌, Option, none, some, Bool-cases,
  inl, inr, ◌==◌, ==_iff, arith,
}
use libunftp.Proxy.{ProxyConnection, ProxyHashKey, ProxySession, new_key}
use libunftp.Proxy.Switchboard.{
  ProxyProtocolError, max_retries_error, Board, u16, claim, try_and_claim, Reserved, reserved,
  failed, panicked, range_size, tried_port, claimed, attempt, round, reserve_from,
  reserve_next_free_port,
}
use libunftp.Server.Options.{PortRange}
use libunftp.Proxy.Switchboard.Entries.{entry, after_claim, entry-unregister, entry-insert}
use libunftp.Proxy.Switchboard.Ports.{range_size-pos, tried_port-bounds, index_of_port}

module _ (range : PortRange) (id : ℕ) (session : ProxySession) (board : Board) (source : ℕ) where
  -- What a reservation for a client may be.
  abbrev pub IsFair : Reserved → Type 0
  IsFair (reserved port b s) =
      (range.start ≤ port)
      × ((port < range.end)
          × ((entry (new_key source port) board ≡ none)
              × ((s ≡ record session { proxy_active_datachan = some (new_key source port) })
                  × ((key : ProxyHashKey)
                      → entry key b
                        ≡ after_claim id (new_key source port) session.proxy_active_datachan board
                            key))))
  IsFair (failed e) = e ≡ max_retries_error
  IsFair panicked = ⊥

  attempt-IsFair :
      (random port : ℕ) (o : Option (Option ℕ)) (rest : Reserved)
      → range.start ≤ port
      → port < range.end
      → entry (new_key source port) board ≡ o
      → IsFair rest
      → IsFair (
          attempt range random id session board
            (new_key source port)
            (claim (new_key source port) id board o)
            rest)
  unfolding attempt claim claimed
  attempt-IsFair random port (some x) rest l h e f = f
  attempt-IsFair random port none rest l h e f = (
    l,
    (
      h,
      (
        e,
        (
          refl,
          λ key.
              entry-unregister range (new_key source port) key session.proxy_active_datachan _
              ∙ rw (entry-insert (new_key source port) key (some id) board) refl,
        ),
      ),
    ),
  )

attempt-taken :
    (range : PortRange) (random id : ℕ) (session : ProxySession) (board : Board)
    (hash : ProxyHashKey) (o : Option (Option ℕ)) (rest : Reserved) (error : ProxyProtocolError)
    → attempt range random id session board hash (claim hash id board o) rest ≡ failed error
    → (o ≢ none) × (rest ≡ failed error)
unfolding attempt claim claimed
attempt-taken range random id session board hash none rest error r = ground arith
attempt-taken range random id session board hash (some x) rest error r = (ground arith, r)

module _ (range : PortRange) (random id : ℕ) (session : ProxySession) (board : Board)
    (control : ProxyConnection) (h : range.start < range.end) (k : range.end < u16)
    (e : session.proxy_control ≡ some control) where
  key_at : ℕ → ProxyHashKey
  key_at i = new_key control.source.ip (tried_port range random i)

  reserve_from-suc :
      (tries i : ℕ)
      → reserve_from range random id session board (suc tries) i
        ≡ attempt range random id session board
            (key_at i)
            (claim (key_at i) id board (entry (key_at i) board))
            (reserve_from range random id session board tries (suc i))
  unfolding reserve_from round try_and_claim key_at
  reserve_from-suc tries i =
      let rest = reserve_from range random id session board tries (suc i) in
      rw (range_size-pos range h k) (ap (λ c. round range random id session board c i rest) e)

  reserve_from-IsFair :
      (tries i : ℕ)
      → IsFair range id session board control.source.ip
          (reserve_from range random id session board tries i)
  unfolding reserve_from key_at
  reserve_from-IsFair zero i = refl
  reserve_from-IsFair (suc tries) i =
      let (low, high) = tried_port-bounds range random i h k in
      rw (reserve_from-suc tries i) (
        attempt-IsFair range id session board control.source.ip random _ _ _ low high refl
          (reserve_from-IsFair tries (suc i)))

  pub reserve-IsFair :
      IsFair range id session board control.source.ip
        (reserve_next_free_port range random id session board)
  unfolding reserve_next_free_port
  reserve-IsFair = reserve_from-IsFair (suc (range_size range)) 0

  -- Where no try gets a port, each one found its port taken.
  reserve_from-taken :
      (tries i : ℕ) (error : ProxyProtocolError)
      → reserve_from range random id session board tries i ≡ failed error
      → (j : ℕ) → i ≤ j
      → j < i + tries
      → entry (key_at j) board ≢ none
  reserve_from-taken zero i error r j l m = omega arith
  reserve_from-taken (suc tries) i error r j l m =
      let (taken, failing) =
        attempt-taken range random id session board (key_at i) (entry (key_at i) board)
          (reserve_from range random id session board tries (suc i)) error
          (sym (reserve_from-suc tries i) ∙ r) in
      elim (Bool-cases (i == j)) [
        | inl here ↦ rw (sym ((==_iff i j).0 here)) taken
        | inr later ↦ reserve_from-taken tries (suc i) error failing j (ground arith) (omega arith)
      ]

  failed-taken :
      random + range_size range < u16
      → (error : ProxyProtocolError)
      → reserve_next_free_port range random id session board ≡ failed error
      → (port : ℕ) → range.start ≤ port
      → port < range.end
      → entry (new_key control.source.ip port) board ≢ none
  unfolding reserve_next_free_port key_at
  failed-taken nowrap error r port low high =
      let (i, (tried, same)) = index_of_port range random h k port nowrap low high in
      rw⁻¹ same
        (reserve_from-taken (suc (range_size range)) 0 error r i (omega arith) (omega arith))

  taken-failed :
      (r : Reserved)
      → IsFair range id session board control.source.ip r
      → ((port : ℕ)
          → range.start ≤ port
          → port < range.end
          → entry (new_key control.source.ip port) board ≢ none)
      → r ≡ failed max_retries_error
  taken-failed (reserved port b s) (low, (high, (free, _))) taken =
      elim (taken port low high free) [ ]
  taken-failed (failed _) e taken = ap failed e
  taken-failed panicked bad taken = elim bad [ ]

  -- A client that came through the proxy is refused a passive port exactly where every port of the
  -- range is kept for a client of its address, provided that the range is not empty, that it ends
  -- below 2^16, and that the random start and the size of the range together stay below 2^16.
  pub reserve-failed_iff :
      random + range_size range < u16
      → (reserve_next_free_port range random id session board ≡ failed max_retries_error) ↔ (
          (port : ℕ)
          → range.start ≤ port
          → port < range.end
          → entry (new_key control.source.ip port) board ≢ none)
  reserve-failed_iff nowrap = (
    λ r. failed-taken nowrap max_retries_error r,
    taken-failed (reserve_next_free_port range random id session board) reserve-IsFair,
  )
