-- ===== src/Server/DataChan/Spawning.antt =====
-- A data connection is taken over from the right address, and once.
use mathlib.Core.Path.{subst}
use libunftp.Prelude.{
  ℕ, ◌≡◌, ◌≢◌, refl, sym, ap, true, ◌&&◌, Option, none, some, ◌==◌, ==_iff, Bool-cases, inl, inr,
}
use libunftp.Server.Session.{Session}
use libunftp.Server.DataChan.{
  DataCommandExecutor, Spawned, spawned, take_abort_rx, take_cmd_rx, with_sender, spawn_processing,
}

module _ {User : Type 0} where
  -- The executor and the session are those of the address, the receivers and the settings that the
  -- session had, and the session's receivers are gone.
  abbrev pub IsTaken : ℕ → Session User → Spawned User → Type 0
  IsTaken peer s (spawned executor t) =
      (s.source_ip ≡ peer)
      × ((s.data_cmd_rx ≡ some executor.data_cmd_rx)
          × ((s.data_abort_rx ≡ some executor.data_abort_rx)
              × ((executor.user ≡ s.user)
                  × ((executor.cwd ≡ s.cwd)
                      × ((executor.ftps_mode ≡ s.data_tls && s.ftps_config)
                          × (t ≡ record s {
                            data_cmd_rx = none;
                            data_abort_rx = none;
                            data_busy = true;
                          }))))))
  IsTaken peer s _ = Unit

  take_abort_rx-IsTaken :
      (s : Session User) (cmd_rx : ℕ) (o : Option ℕ)
      → s.data_cmd_rx ≡ some cmd_rx
      → s.data_abort_rx ≡ o
      → IsTaken s.source_ip s (take_abort_rx s cmd_rx o)
  unfolding take_abort_rx
  take_abort_rx-IsTaken s cmd_rx none e f = tt
  take_abort_rx-IsTaken s cmd_rx (some x) e f = (refl, (e, (f, (refl, (refl, (refl, refl))))))

  take_cmd_rx-IsTaken :
      (s : Session User) (o : Option ℕ)
      → s.data_cmd_rx ≡ o
      → IsTaken s.source_ip s (take_cmd_rx s o)
  unfolding take_cmd_rx
  take_cmd_rx-IsTaken s none e = tt
  take_cmd_rx-IsTaken s (some x) e = take_abort_rx-IsTaken s x s.data_abort_rx e refl

  with_sender-IsTaken :
      (s : Session User) (tx : Option ℕ) → IsTaken s.source_ip s (with_sender s tx)
  unfolding with_sender
  with_sender-IsTaken s none = tt
  with_sender-IsTaken s (some tx) = take_cmd_rx-IsTaken s s.data_cmd_rx refl

  spawn_processing-IsTaken :
      (peer : ℕ) (tx : Option ℕ) (s : Session User)
      → IsTaken peer s (spawn_processing (some peer) tx s)
  unfolding spawn_processing
  spawn_processing-IsTaken peer tx s = elim (Bool-cases (s.source_ip == peer)) [
    | inl same ↦
        let e = (==_iff s.source_ip peer).0 same in
        rw same (subst (λ p. IsTaken p s (with_sender s tx)) e (with_sender-IsTaken s tx))
    | inr differ ↦ rw differ tt
  ]

  -- Without its receiver, a session has no data connection taken over.
  abbrev IsIdle : Spawned User → Type 0
  IsIdle (spawned executor t) = ⊥
  IsIdle _ = Unit

  with_sender-IsIdle :
      (s : Session User) (tx : Option ℕ) → s.data_cmd_rx ≡ none → IsIdle (with_sender s tx)
  unfolding with_sender take_cmd_rx
  with_sender-IsIdle s none e = tt
  with_sender-IsIdle s (some tx) e = subst (λ o. IsIdle (take_cmd_rx s o)) (sym e) tt

  spawn_processing-IsIdle :
      (peer tx : Option ℕ) (s : Session User)
      → s.data_cmd_rx ≡ none
      → IsIdle (spawn_processing peer tx s)
  unfolding spawn_processing
  spawn_processing-IsIdle none tx s e = tt
  spawn_processing-IsIdle (some peer) tx s e = elim (Bool-cases (s.source_ip == peer)) [
    | inl same ↦ rw same (with_sender-IsIdle s tx e)
    | inr differ ↦ rw differ tt
  ]

  -- A data connection that is taken over comes from the address of the control connection, uses the
  -- receivers, the user, the directory and the protection that the session has, makes the session
  -- busy, and is the only one: no further connection is taken over before the session gets new
  -- receivers.
  pub spawned-once :
      (peer : ℕ) (tx : Option ℕ) (s t : Session User) (executor : DataCommandExecutor User)
      → spawn_processing (some peer) tx s ≡ spawned executor t
      → IsTaken peer s (spawned executor t)
        × ((other sender : Option ℕ) (x : DataCommandExecutor User) (v : Session User)
            → spawn_processing other sender t ≢ spawned x v)
  spawned-once peer tx s t executor e =
      let taken = subst (IsTaken peer s) e (spawn_processing-IsTaken peer tx s) in
      (
        taken,
        λ other sender x v run.
            subst IsIdle run
              (spawn_processing-IsIdle other sender t (ap (λ z. z.data_cmd_rx) taken.1.1.1.1.1.1)),
      )
