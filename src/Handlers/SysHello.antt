-- ===== src/Handlers/SysHello.antt =====
-- The 0x01 SYS_HELLO handler: src/asyd/handlers/sys_hello.c.
use asys.Base.{
  ℕ, ◌+◌, ◌-◌, ◌*◌, ◌%◌, ◌^◌, ◌&&◌, Option, none, some, List, [], ◌∷◌, ◌++◌, ltb, leb, ◌==◌,
  if◌then◌else◌, length, put_u32, put_u64,
}
use asys.Handlers.{HandlerFn, sw_write, sw_sys_err}

abbrev hello_resp_len : ℕ
hello_resp_len = 18

-- The value of a hexadecimal digit.
nibble : ℕ → Option ℕ
nibble c =
    if leb b'0' c && leb c b'9'
    then some (c - b'0')
    else if leb b'a' c && leb c b'f'
    then some (c - b'a' + 10)
    else if leb b'A' c && leb c b'F'
    then some (c - b'A' + 10)
    else none

-- `uid = (uid << 4) | nib` on 32 bits, digit by digit; a bad digit gives 0.
parse_uid : ℕ → List ℕ → ℕ
unfolding nibble
parse_uid uid [] = uid
parse_uid uid (c ∷ cs) = elim (nibble c) [
  | none ↦ 0
  | some nib ↦ parse_uid (uid * 16 % 2 ^ 32 + nib) cs
]

-- The eight bytes that `fread` takes from /etc/machine-id, if it gets them.
read_node_uid : Option (List ℕ) → ℕ
unfolding parse_uid
read_node_uid none = 0
read_node_uid (some chars) = if length chars == 8 then parse_uid 0 chars else 0

timestamp_ns : Option (ℕ × ℕ) → ℕ
timestamp_ns none = 0
timestamp_ns (some (sec, nsec)) = (sec * 1000000000 + nsec) % 2 ^ 64

unfoldable pub handler_sys_hello : HandlerFn
unfolding read_node_uid timestamp_ns
handler_sys_hello io w req sz session_id =
    if ltb sz hello_resp_len then (some (sw_write sw_sys_err), w) else (
      some (
          put_u32 0x41535953
          ++ (put_u32 (read_node_uid io.machine_id)
              ++ (put_u64 (timestamp_ns io.realtime) ++ (0x90 ∷ 0x00 ∷ [])))),
      w,
    )
