-- ===== src/Server/Shutdown/Ending.antt =====
-- What the connections of a server hear of its shutdown, and when it has waited long enough for them.
use mathlib.Core.Path.{subst}
use mathlib.Core.Path.{subst}
use mathlib.Core.Path.{subst}
use mathlib.Core.Path.{subst}
use mathlib.Core.Bool.{false≢true}
use libunftp.Prelude.{
  ℕ, ◌+◌, ◌≡◌, refl, sym, ap, ◌∙◌, Bool, true, false, not, ◌&&◌, ◌||◌, List, [], ◌∷◌, ◌++◌, ◌==◌,
  if◌then◌else◌, All, All-append, All-left, All-right, All-map, All-left, All-right, All-map,
  All-left, All-right, All-map, All-left, All-right, All-map, All-left, All-right, All-map, arith,
}
use libunftp.Server.Shutdown.{
  Notifier, Listener, Listening, returned, waiting, take_shutdown, take_complete, subscribe, listen,
  received, holders, linger, Ends, Step, subscribes, notifies, completes, hears, drops, Reach, here,
  next, start,
}

-- A listener knows only of a shutdown there is, and has a receiver while it knows of none.
abbrev flags_fit : (running shutdown rx : Bool) → Bool
flags_fit running shutdown rx = (not shutdown || not running) && (shutdown || rx)

abbrev Fits : (running : Bool) → Listener → Type 0
Fits running l = flags_fit running l.shutdown l.shutdown_rx ≡ true

-- What a call of `listen` comes to: it waits before the shutdown, and returns after it.
abbrev pub Hears : (shutdown_tx : Bool) → Listening → Type 0
Hears true waiting = Unit {0}
Hears false (returned l) = l.shutdown ≡ true
Hears _ _ = ⊥

flags-Hears :
    (running shutdown rx : Bool) (l : Listener)
    → l.shutdown ≡ shutdown
    → flags_fit running shutdown rx ≡ true
    → Hears running (if shutdown then returned l else received running rx l)
unfolding received
flags-Hears true true rx l e f = false≢true f
flags-Hears false true rx l e f = e
flags-Hears true false true l e f = tt
flags-Hears false false true l e f = refl
flags-Hears true false false l e f = false≢true f
flags-Hears false false false l e f = false≢true f

listen-Hears :
    (n : Notifier) (l : Listener) → Fits n.shutdown_tx l → Hears n.shutdown_tx (listen n l)
unfolding listen
listen-Hears n l f = flags-Hears n.shutdown_tx l.shutdown l.shutdown_rx l refl f

-- What has been heard fits still, since it is heard only after the shutdown.
heard-Fits : (running : Bool) (l : Listener) → Hears running (returned l) → Fits running l
heard-Fits true l h = absurd h
heard-Fits false l h = rw h refl

subscribe-Fits : (running : Bool) → flags_fit running (not running) running ≡ true
subscribe-Fits true = refl
subscribe-Fits false = refl

shut-Fits : (running : Bool) (l : Listener) → Fits running l → Fits false l
shut-Fits running l f = ground arith

abbrev AllFit : Ends → Type 0
AllFit w = All (Fits w.notifier.shutdown_tx) w.listeners

Step-AllFit : {u v : Ends} → Step u v → AllFit u → AllFit v
unfolding subscribe take_shutdown take_complete
Step-AllFit (subscribes w) i = (subscribe-Fits w.notifier.shutdown_tx, i)
Step-AllFit (notifies w) i = All-map (λ l f. shut-Fits w.notifier.shutdown_tx l f) w.listeners i
Step-AllFit (completes w e) i = i
Step-AllFit (hears n before later l heard e) i =
    let tell =
      subst (λ o. Hears n.shutdown_tx o) e
        (listen-Hears n l (All-right (Fits n.shutdown_tx) before (l ∷ later) i).0) in
    All-append (Fits n.shutdown_tx) before (heard ∷ later)
      (All-left (Fits n.shutdown_tx) before (l ∷ later) i)
      (heard-Fits n.shutdown_tx heard tell, (All-right (Fits n.shutdown_tx) before (l ∷ later) i).1)
Step-AllFit (drops n before later l) i =
    All-append (Fits n.shutdown_tx) before later
      (All-left (Fits n.shutdown_tx) before (l ∷ later) i)
      (All-right (Fits n.shutdown_tx) before (l ∷ later) i).1

Reach-AllFit : {w : Ends} → Reach start w → AllFit w
Reach-AllFit here = tt
Reach-AllFit (next r s) = Step-AllFit s (Reach-AllFit r)

-- Whenever connections come and go, and at whatever time they ask: while the server has not been told
-- to shut down each of them that waits for it goes on waiting, from then on each of them is told,
-- also one that came only afterwards, and none panics.
pub Reach-Hears :
    (w : Ends)
    → Reach start w
    → All (λ l. Hears w.notifier.shutdown_tx (listen w.notifier l)) w.listeners
Reach-Hears w r = All-map (λ l f. listen-Hears w.notifier l f) w.listeners (Reach-AllFit r)

-- The senders that are dropped with a listener, in a step and in a run.
abbrev held : Listener → ℕ
held l = if l.shutdown_complete_tx then 1 else 0

abbrev step_drops : {u v : Ends} → Step u v → ℕ
step_drops (drops n before later l) = held l
step_drops _ = 0

abbrev pub dropped : {u v : Ends} → Reach u v → ℕ
dropped here = 0
dropped (next r s) = step_drops s + dropped r

holders-cons : (l : Listener) (ls : List Listener) → holders (l ∷ ls) ≡ held l + holders ls
unfolding holders
holders-cons l ls = ground arith

holders-append :
    (before later : List Listener) → holders (before ++ later) ≡ holders before + holders later
unfolding holders
holders-append [] later = omega arith
holders-append (l ∷ ls) later = ground (arith, holders-append ls later)

abbrev complete_of : Bool → Listening → Bool
complete_of d (returned l) = l.shutdown_complete_tx
complete_of d _ = d

received_complete :
    (running rx : Bool) (l : Listener)
    → complete_of l.shutdown_complete_tx (received running rx l) ≡ l.shutdown_complete_tx
unfolding received
received_complete running false l = refl
received_complete true true l = refl
received_complete false true l = refl

flags_complete :
    (running shutdown rx : Bool) (l : Listener)
    → complete_of l.shutdown_complete_tx (if shutdown then returned l else received running rx l)
      ≡ l.shutdown_complete_tx
flags_complete running true rx l = refl
flags_complete running false rx l = received_complete running rx l

-- A listener that hears of the shutdown keeps its sender.
heard-held : (n : Notifier) (l heard : Listener) → listen n l ≡ returned heard → held heard ≡ held l
unfolding listen
heard-held n l heard e =
    ap (λ c. if c then 1 else 0)
      (sym (ap (λ o. complete_of l.shutdown_complete_tx o) e)
        ∙ flags_complete n.shutdown_tx l.shutdown l.shutdown_rx l)

Step-holders :
    {u v : Ends} (s : Step u v)
    → u.notifier.shutdown_complete_tx ≡ false
    → (v.notifier.shutdown_complete_tx ≡ false)
      × (step_drops s + holders v.listeners ≡ holders u.listeners)
unfolding subscribe take_shutdown take_complete
Step-holders (subscribes w) e = (
  e,
  omega (
    arith,
    holders-cons (subscribe w.notifier) w.listeners,
    ap {B = ℕ} (λ c. if c then 1 else 0) e,
  ),
)
Step-holders (notifies w) e = (e, omega arith)
Step-holders (completes w h) e = (refl, omega arith)
Step-holders (hears n before later l heard h) e = (
  e,
  omega (
    arith,
    holders-append before (heard ∷ later),
    holders-append before (l ∷ later),
    holders-cons heard later,
    holders-cons l later,
    heard-held n l heard h,
  ),
)
Step-holders (drops n before later l) e = (
  e,
  omega
      (arith, holders-append before later, holders-append before (l ∷ later), holders-cons l later),
)

Reach-holders :
    {u v : Ends} (r : Reach u v)
    → u.notifier.shutdown_complete_tx ≡ false
    → (v.notifier.shutdown_complete_tx ≡ false)
      × (dropped r + holders v.listeners ≡ holders u.listeners)
Reach-holders here e = (e, omega arith)
Reach-holders (next r s) e =
    let (shut, sum) = Reach-holders r e in
    let (left, one) = Step-holders s shut in (left, omega (arith, sum, one))

-- From the end of `notify` on the server has waited long enough exactly if as many of the connections
-- with a sender have ended as there were then: each connection that was there is waited for, and no
-- connection that comes afterwards makes the shutdown longer.
pub linger-dropped :
    {u v : Ends} (r : Reach u v)
    → u.notifier.shutdown_complete_tx ≡ false
    → linger v.notifier v.listeners ≡ dropped r == holders u.listeners
unfolding linger
linger-dropped r e = let (left, sum) = Reach-holders r e in ground (arith, left, sum)
