-- ===== src/Proxy/Switchboard/Ports.antt =====
-- The ports that are tried: their bounds, and that none is missed.
use native.Mathlib.Nat.{mod-lt, mod-add-div, add-mod-mod, add-mul-mod_self_left, mod-eq_of_lt}
use libunftp.Prelude.{ℕ, suc, ◌+◌, ◌-◌, ◌*◌, ◌/◌, ◌%◌, ◌≤◌, ◌<◌, ◌≡◌, ap, ◌∙◌, false, ◌==◌, arith}
use libunftp.Proxy.Switchboard.{u16, range_size, tried_port}
use libunftp.Server.Options.{PortRange}

range_size-sub :
    (range : PortRange)
    → range.start < range.end
    → range.end < u16
    → range_size range ≡ range.end - range.start
unfolding range_size
range_size-sub range h k = omega arith

pub tried_port-bounds :
    (range : PortRange) (random i : ℕ)
    → range.start < range.end
    → range.end < u16
    → (range.start ≤ tried_port range random i) × (tried_port range random i < range.end)
unfolding tried_port
tried_port-bounds range random i h k =
    let pos : 0 < range.end - range.start = omega arith in
    rw (range_size-sub range h k) omega (arith, mod-lt ((random + i) % u16) pos)

pub range_size-pos :
    (range : PortRange)
    → range.start < range.end
    → range.end < u16
    → (range_size range == 0) ≡ false
range_size-pos range h k = ground (arith, range_size-sub range h k)

-- A search that wraps around comes by every number, wherever it starts.
index_of_mod : (random n q : ℕ) → q < n → (i : ℕ) × ((i < n) × ((random + i) % n ≡ q))
index_of_mod random n q p =
    let pos : 0 < n = omega arith in
    let i = (q + n - random % n) % n in
    let small : random % n < n = mod-lt random pos in
    let whole : random + (q + n - random % n) ≡ q + n * suc (random / n) =
      grind (arith, mod-add-div random n) in
    (
      i,
      (
        mod-lt (q + n - random % n) pos,
        add-mod-mod random (q + n - random % n) n
            ∙ ap (λ x. x % n) whole
            ∙ add-mul-mod_self_left q n (suc (random / n))
            ∙ mod-eq_of_lt p,
      ),
    )

module _ (range : PortRange) (random : ℕ) (h : range.start < range.end) (k : range.end < u16) where
  tried_port-hit :
      (port i : ℕ)
      → random + i < u16
      → range.start ≤ port
      → port < range.end
      → (random + i) % (range.end - range.start) ≡ port - range.start
      → tried_port range random i ≡ port
  unfolding tried_port
  tried_port-hit port i fits low high hits =
      rw (range_size-sub range h k, mod-eq_of_lt fits, hits) omega arith

  -- With no wrap-around of the 16 bits, every port of the range is tried.
  pub index_of_port :
      (port : ℕ)
      → random + range_size range < u16
      → range.start ≤ port
      → port < range.end
      → (i : ℕ) × ((i < suc (range_size range)) × (tried_port range random i ≡ port))
  index_of_port port nowrap low high =
      let size = range_size-sub range h k in
      let (i, (small, hits)) =
        index_of_mod random (range.end - range.start) (port - range.start) (omega arith) in
      (i, (omega (arith, size), tried_port-hit port i (omega (arith, size)) low high hits))
