-- ===== src/Server/Middleware/NoPanic.antt =====
-- The handlers unwrap the user and the user name of the session, and PORT indexes the numbers of its
-- parameter: when they panic.
use mathlib.Core.Path.{subst}
use mathlib.Core.Bool.{true≢false}
use libunftp.Server.Options.{PortRange}
use libunftp.Prelude.{
  ◌≢◌, ℕ, ◌≤◌, ◌<◌, ◌+◌, ◌-◌, ◌^◌, Option, none, some, sym, ◌∙◌, ◌≡◌, Bool, true, false, arith,
  refl, Bool-cases, inl, inr, Option-cases,
}
use libunftp.Command.{Command}
use libunftp.Server.Session.{Session, SessionState, new, wait_pass, wait_cmd}
use libunftp.Server.Messages.{command}
use libunftp.Server.Handled.{Config, Env, Handled, Outcome, panicked, no_listener}
use libunftp.Server.Middleware.{event_chain, is_exempt, primary}
use libunftp.Server.Middleware.Passing.{event_chain-passes}
use libunftp.Server.Middleware.Gate.{IsRefused, replied, broken, is_exempt-IsRefused}
use libunftp.Server.Sound.{IsSound, is_some, ready}
use libunftp.Server.Commands.{handle_command}
use libunftp.Server.Commands.Login
use libunftp.Server.Commands.Settings
use libunftp.Server.Commands.Files
use libunftp.Server.Commands.Transfer
use libunftp.Server.Commands.Transfer.{socket_of, port_numbers, bind_socket}
use libunftp.Server.Commands.Transfer.PortRange.{Bound, FitsFrom, try_port_range-Fits}

abbrev pub is_panicked : Outcome → Bool
is_panicked panicked = true
is_panicked _ = false

abbrev port_of : Bound → ℕ
port_of (Bound.bound port) = port
port_of _ = 0

module _ {User : Type 0} (env : Env User) (config : Config) where
  -- What PASV rests on without a proxy: a socket that was bound listens, and without a binder the
  -- passive ports are a range in order of fewer than 2^16 ports, and the system gives random bytes.
  pub record FindsPort : Type 0 where
    pub listens : (port : ℕ) → env.listen port ≢ no_listener
    pub ordered : env.binder ≡ none → config.passive_ports.start ≤ config.passive_ports.end
    pub below : env.binder ≡ none → config.passive_ports.end < 2 ^ 16
    pub partial :
        env.binder ≡ none → config.passive_ports.end < config.passive_ports.start + (2 ^ 16 - 1)
    pub random : env.binder ≡ none → (i : ℕ) → (env.rounds i).entropy ≡ true

  -- PORT is given six numbers at least; for PASV there is a port, or a proxy loop that takes messages.
  abbrev pub IsProvided : Command → Type 0
  IsProvided (Command.port addr) = is_some (socket_of (port_numbers addr)) ≡ true
  IsProvided Command.pasv =
      (config.proxy_mode ≡ true → env.proxy_loop ≡ true) × (config.proxy_mode ≡ false → FindsPort)
  IsProvided _ = Unit

  bound-no_panic :
      (binder : Option (PortRange → Option ℕ))
      → env.binder ≡ binder
      → FindsPort
      → bind_socket env config binder ≢ Bound.panicked
  unfolding bind_socket
  bound-no_panic none e h p =
      let (j, (l, out)) = subst (FitsFrom config.passive_ports env.rounds 9 0) p (
        try_port_range-Fits config.passive_ports env.rounds (h.ordered e) (h.below e)
          (h.partial e)) in
      true≢false (sym (h.random e j) ∙ out)
  bound-no_panic (some bind) e h p = elim (Option-cases (bind config.passive_ports)) [
    | inl o ↦ ground (arith, o, p)
    | inr (port, o) ↦ ground (arith, o, p)
  ]

  pasv-no_panic :
      (s : Session User)
      → IsProvided Command.pasv
      → is_panicked (Transfer.pasv env config s).outcome ≡ false
  unfolding Transfer.pasv
  pasv-no_panic s (proxied, alone) = elim (Bool-cases config.proxy_mode) [
    | inl m ↦ rw (m, proxied m) refl
    | inr m ↦
        let h = alone m in
        let b = bound-no_panic env.binder refl h in
        ground (arith, m, b, h.listens (port_of (bind_socket env config env.binder)))
  ]

  exempt-no_panic :
      (c : Command) (s : Session User)
      → is_exempt (command c) ≡ true
      → is_panicked (handle_command env config c s).outcome ≡ false
  unfolding handle_command is_exempt
  exempt-no_panic (Command.user username) s e = unfold Login.user in ground arith
  exempt-no_panic (Command.pass password) s e = unfold Login.pass in ground arith
  exempt-no_panic (Command.auth protocol) s e = unfold Login.auth in ground arith
  exempt-no_panic (Command.prot param) s e = unfold Login.prot in ground arith
  exempt-no_panic Command.quit s e = unfold Login.quit in ground arith
  exempt-no_panic Command.pbsz s e = unfold Login.pbsz in ground arith
  exempt-no_panic Command.help s e = unfold Settings.help in ground arith
  exempt-no_panic Command.feat s e = unfold Settings.feat in ground arith
  exempt-no_panic Command.noop s e = unfold Settings.noop in ground arith
  exempt-no_panic (Command.opts option) s e = unfold Settings.opts in ground arith
  exempt-no_panic c s e = ground arith

  user-no_panic :
      (c : Command) (s : Session User)
      → is_some s.user ≡ true
      → is_some s.username ≡ true
      → IsProvided c
      → is_panicked (handle_command env config c s).outcome ≡ false
  unfolding handle_command
  user-no_panic (Command.user username) s u n a = unfold Login.user in ground arith
  user-no_panic (Command.pass password) s u n a = unfold Login.pass in ground arith
  user-no_panic (Command.auth protocol) s u n a = unfold Login.auth in ground arith
  user-no_panic (Command.prot param) s u n a = unfold Login.prot in ground arith
  user-no_panic Command.quit s u n a = unfold Login.quit in ground arith
  user-no_panic (Command.cwd path) s u n a = unfold Files.cwd in ground arith
  user-no_panic (Command.rmd path) s u n a = unfold Files.rmd in ground arith
  user-no_panic (Command.rnto path) s u n a = unfold Files.rnto in ground arith
  user-no_panic (Command.md5 path) s u n a = unfold Files.md5 in ground arith
  user-no_panic (Command.stat path) s u n a = unfold Files.stat in ground arith
  user-no_panic Command.pasv s u n a = pasv-no_panic s a
  user-no_panic (Command.port addr) s u n a = unfold Transfer.port in ground arith
  user-no_panic c s u n a =
      unfold Login.acct Login.pbsz Login.ccc Settings.syst Settings.type_ Settings.stru
        Settings.mode Settings.help Settings.noop Settings.opts Settings.allo Settings.feat
        Settings.rest Files.pwd Files.mkd Files.dele Files.rnfr Files.size Files.mdtm Files.cdup
        Transfer.retr Transfer.stor Transfer.list Transfer.nlst Transfer.stou Transfer.abor in
      ground arith

  abbrev Quiet : Handled User → Type 0
  Quiet h = is_panicked h.outcome ≡ false

  IsRefused-Quiet : {s : Session User} {h : Handled User} → IsRefused s h → Quiet h
  IsRefused-Quiet (replied code message k e) = rw e refl
  IsRefused-Quiet (broken kind e) = rw e refl

  handled-Quiet :
      (c : Command) (s : Session User)
      → Quiet (handle_command env config c s)
      → Quiet (event_chain env config (command c) s)
  unfolding primary
  handled-Quiet c s h =
      event_chain-passes Quiet s (λ code m. refl) (λ k. refl) env config (command c) h

  wait_cmd-no_panic :
      (state : SessionState) (c : Command) (s : Session User)
      → s.state ≡ state
      → ready state (is_some s.user) (is_some s.username) ≡ true
      → IsProvided c
      → is_exempt (command c) ≡ false
      → Quiet (event_chain env config (command c) s)
  wait_cmd-no_panic new c s e k a x =
      IsRefused-Quiet (is_exempt-IsRefused env config c s x (rw e (λ q. cc)))
  wait_cmd-no_panic wait_pass c s e k a x =
      IsRefused-Quiet (is_exempt-IsRefused env config c s x (rw e (λ q. cc)))
  wait_cmd-no_panic wait_cmd c s e k a x =
      handled-Quiet c s (user-no_panic c s (ground arith) (ground arith) a)

  -- In a sound session no command makes its handler panic, but for a PORT of fewer than six numbers and
  -- a PASV without a port or a proxy loop.
  pub event_chain-no_panic :
      (c : Command) (s : Session User)
      → IsSound config.ftps_required_control_chan s
      → IsProvided c
      → is_panicked (event_chain env config (command c) s).outcome ≡ false
  event_chain-no_panic c s h a = elim (Bool-cases (is_exempt (command c))) [
    | inl x ↦ handled-Quiet c s (exempt-no_panic c s x)
    | inr x ↦ wait_cmd-no_panic s.state c s refl h.known a x
  ]
