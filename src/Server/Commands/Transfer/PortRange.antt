-- ===== src/Server/Commands/Transfer/PortRange.antt =====
-- src/server/controlchan/commands/pasv.rs: the passive port of a connection without a proxy.
use libunftp.Prelude.{
  Bool-cases, ==_iff, inl, inr, refl, arith, ℕ, zero, suc, ◌+◌, ◌-◌, ◌%◌, ◌^◌, ◌≤◌, ◌<◌, ◌≡◌, refl,
  Bool, true, false, ◌==◌, if◌then◌else◌, arith,
}
use mathlib.Core.Path.{subst}
use native.Mathlib.Nat.{mod-lt}
use libunftp.Server.Options.{PortRange}

abbrev pub bind_retries : ℕ
bind_retries = 10

-- What one round meets: whether the system gives random bytes, the `u32` they are, whether there is a
-- socket, and whether it can be bound to the port.
pub record Round : Type 0 where
  pub entropy : Bool
  pub random : ℕ
  pub socket : Bool
  pub bind : ℕ → Bool

pub data Bound : Type 0 where
  bound : (port : ℕ) → Bound
  no_socket in_use panicked : Bound

module _ (passive_ports : PortRange) (rounds : ℕ → Round) where
  -- A `u16`, which wraps around.
  unfoldable pub rng_length : ℕ
  rng_length = (passive_ports.end + 2 ^ 16 - passive_ports.start + 1) % 2 ^ 16

  -- The sum is a `u32`, of which the port keeps 16 bits.
  unfoldable pub random_port : ℕ → ℕ
  unfolding rng_length
  random_port random = (random % rng_length + passive_ports.start) % 2 ^ 32 % 2 ^ 16

  attempt : Round → ℕ → Bound → Bound
  attempt r port rest = if r.socket then (if r.bind port then bound port else rest) else no_socket

  try_from : (tries i : ℕ) → Bound
  unfolding attempt random_port rng_length
  try_from zero i = in_use
  try_from (suc tries) i =
      let rest = try_from tries (suc i) in
      if (rounds i).entropy
      then (if rng_length == 0
          then panicked
          else attempt (rounds i) (random_port (rounds i).random) rest)
      else panicked

  unfoldable pub try_port_range : Bound
  unfolding try_from
  try_port_range = try_from (bind_retries - 1) 0

  -- The outcomes that a range allows, from the `i`th round on.
  abbrev pub FitsFrom : (tries i : ℕ) → Bound → Type 0
  FitsFrom tries i (bound port) =
      (passive_ports.start ≤ port)
      × ((port ≤ passive_ports.end) × ((j : ℕ) × ((j < i + tries) × ((rounds j).bind port ≡ true))))
  FitsFrom tries i no_socket = Unit
  FitsFrom tries i in_use =
      (j : ℕ) → i ≤ j → j < i + tries → (rounds j).bind (random_port (rounds j).random) ≡ false
  FitsFrom tries i panicked = (j : ℕ) × ((j < i + tries) × ((rounds j).entropy ≡ false))

  module _ (ordered : passive_ports.start ≤ passive_ports.end) (below : passive_ports.end < 2 ^ 16)
      (partial : passive_ports.end < passive_ports.start + (2 ^ 16 - 1)) where
    rng_length-sub : rng_length ≡ passive_ports.end + 1 - passive_ports.start
    unfolding rng_length
    rng_length-sub = omega arith

    random_port-bounds :
        (random : ℕ)
        → (passive_ports.start ≤ random_port random) × (random_port random ≤ passive_ports.end)
    unfolding random_port
    random_port-bounds random =
        let pos : 0 < passive_ports.end + 1 - passive_ports.start = omega arith in
        rw rng_length-sub omega (arith, mod-lt random pos)

    later-FitsFrom :
        (tries i : ℕ) (rest : Bound)
        → (rounds i).bind (random_port (rounds i).random) ≡ false
        → FitsFrom tries (suc i) rest
        → FitsFrom (suc tries) i rest
    later-FitsFrom tries i (bound port) taken (low, (high, (j, (l, free)))) =
        (low, (high, (j, (omega arith, free))))
    later-FitsFrom tries i no_socket taken h = tt
    later-FitsFrom tries i in_use taken h = λ j l m. elim (Bool-cases (i == j)) [
      | inl here ↦
          subst (λ k. (rounds k).bind (random_port (rounds k).random) ≡ false) ((==_iff i j).0 here)
            taken
      | inr later ↦ h j (ground arith) (omega arith)
    ]
    later-FitsFrom tries i panicked taken (j, (l, e)) = (j, (omega arith, e))

    attempt-FitsFrom :
        (tries i : ℕ) (socket free : Bool) (rest : Bound)
        → (rounds i).bind (random_port (rounds i).random) ≡ free
        → FitsFrom tries (suc i) rest
        → FitsFrom (suc tries) i (
            if socket
            then (if free then bound (random_port (rounds i).random) else rest)
            else no_socket)
    attempt-FitsFrom tries i false free rest e h = tt
    attempt-FitsFrom tries i true true rest e h =
        let (low, high) = random_port-bounds (rounds i).random in
        (low, (high, (i, (omega arith, e))))
    attempt-FitsFrom tries i true false rest e h = later-FitsFrom tries i rest e h

    try_from-FitsFrom : (tries i : ℕ) → FitsFrom tries i (try_from tries i)
    unfolding try_from attempt
    try_from-FitsFrom zero i = λ j l m. absurd (omega arith)
    try_from-FitsFrom (suc tries) i =
        let nonempty : (rng_length == 0) ≡ false = ground (arith, rng_length-sub) in
        elim (Bool-cases (rounds i).entropy) [
          | inl e ↦
              rw (e, nonempty)
                (attempt-FitsFrom tries i (rounds i).socket _ _ refl
                  (try_from-FitsFrom tries (suc i)))
          | inr e ↦ rw e (i, (omega arith, e))
        ]

    -- Of a range in order that is not all 2^16 ports, the port that is bound is one from its start to
    -- its end, the end included, and one of the nine rounds could bind it. Where all ports are in
    -- use, the port of each of the nine rounds was. The search panics only if the system gives no
    -- random bytes in one of the nine rounds.
    pub try_port_range-Fits : FitsFrom (bind_retries - 1) 0 try_port_range
    unfolding try_port_range
    try_port_range-Fits = try_from-FitsFrom (bind_retries - 1) 0
