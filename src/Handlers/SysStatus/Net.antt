-- ===== src/Handlers/SysStatus/Net.antt =====
-- `read_net_mbps` of src/asyd/handlers/sys_status.c.
use asys.Base.{
  ℕ, zero, suc, ◌+◌, ◌-◌, ◌*◌, ◌/◌, ◌%◌, ◌^◌, Bool, false, ◌&&◌, none, some, List, [], ◌∷◌, ltb,
  leb, ◌==◌, if◌then◌else◌, length,
}
use asys.Scan.{Directive, lit, white, number, until, Value, str, num, scan, fgets, c_string}
use asys.Reports.{Host, StatusCache}

-- " %31[^:]: %llu %llu %llu %llu %llu %llu %llu %llu %llu"
abbrev net_format : List Directive
net_format =
    white
    ∷ until b':' 31
    ∷ lit b':'
    ∷ white
    ∷ number 64
    ∷ white
    ∷ number 64
    ∷ white
    ∷ number 64
    ∷ white
    ∷ number 64
    ∷ white
    ∷ number 64
    ∷ white
    ∷ number 64
    ∷ white
    ∷ number 64
    ∷ white
    ∷ number 64
    ∷ white
    ∷ number 64
    ∷ []

abbrev is_loopback : List ℕ → Bool
is_loopback (c ∷ d ∷ iface) = c == b'l' && d == b'o'
is_loopback _ = false

-- The totals after a line's values.
note_iface : List Value → ℕ × ℕ → ℕ × ℕ
note_iface
      (str iface ∷ num rx ∷ num _ ∷ num _ ∷ num _ ∷ num _ ∷ num _ ∷ num _ ∷ num _ ∷ num tx ∷ [])
      (rx_total, tx_total) =
    if is_loopback iface
    then (rx_total, tx_total)
    else ((rx_total + rx) % 2 ^ 64, (tx_total + tx) % 2 ^ 64)
note_iface _ totals = totals

-- The loop over the lines. Each takes a byte at least, so the file's length is fuel enough.
unfoldable pub net_lines : (fuel : ℕ) → ℕ × ℕ → List ℕ → ℕ × ℕ
unfolding fgets c_string scan note_iface
net_lines zero totals file = totals
net_lines (suc fuel) totals file =
    let (line, rest) = fgets 255 file in
    let later = net_lines fuel (note_iface (scan net_format (c_string line)).0 totals) rest in
    if length line == 0 then totals else later

-- `prev_rx`, `prev_tx` and `prev_net_ms`
pub record NetCache : Type 0 where
  pub rx : ℕ
  pub tx : ℕ
  pub net_ms : ℕ

unfoldable pub mbps : (prev now delta_ms : ℕ) → ℕ
mbps prev now delta_ms =
    let delta = (if leb prev now then now - prev else 0) in
    let val = delta * 8 % 2 ^ 64 / delta_ms / 1000 in if ltb 0xFFFF val then 0xFFFF else val

unfoldable pub rate : (prev_ms now_ms prev now : ℕ) → ℕ
unfolding mbps
rate prev_ms now_ms prev now =
    if ltb 0 prev_ms && ltb prev_ms now_ms then mbps prev now (now_ms - prev_ms) else 0

unfoldable pub read_net_mbps : Host → StatusCache → ℕ × ℕ × NetCache
unfolding fgets net_lines rate
read_net_mbps host cache = elim host.net_dev [
  | none ↦ (0, 0, record { rx = cache.prev_rx; tx = cache.prev_tx; net_ms = cache.prev_net_ms })
  | some file ↦
      let (rx_total, tx_total) =
        net_lines (length file + 1) (0, 0) (fgets 255 (fgets 255 file).1).1 in
      let t = host.time_net in
      (
        rate cache.prev_net_ms t cache.prev_rx rx_total,
        rate cache.prev_net_ms t cache.prev_tx tx_total,
        record { rx = rx_total; tx = tx_total; net_ms = t },
      )
]
