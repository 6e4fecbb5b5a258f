-- ===== src/Handlers/SysCaps.antt =====
-- The 0x00 SYS_CAPS handler: src/asyd/handlers/sys_caps.c.
use asys.Base.{
  ℕ, zero, suc, ◌+◌, ◌*◌, ◌/◌, ◌%◌, ◌^◌, Option, none, some, List, [], ◌∷◌, ◌++◌, ltb, ◌==◌,
  if◌then◌else◌, length, bytes_eq, take, codes, put_u16, put_u32, byte_at,
}
use asys.Scan.{Directive, lit, white, word, number, Value, num, scan, key_and_number}
use asys.Reports.{Host, File, Statfs, cpus}
use asys.Handlers.{HandlerFn, sw_write, sw_sys_err, core_caps_bitmap, ext_caps_bitmap}

abbrev pub caps_resp_len : ℕ
caps_resp_len = 36

abbrev pub arch_x86_64 : ℕ
arch_x86_64 = 0x0001

abbrev pub arch_aarch64 : ℕ
arch_aarch64 = 0x0002

abbrev pub arch_riscv64 : ℕ
arch_riscv64 = 0x0003

abbrev pub arch_unknown : ℕ
arch_unknown = 0xFFFF

abbrev pub fs_unknown : ℕ
fs_unknown = 0xFFFF

abbrev pub rpi_native_kernel : ℕ
rpi_native_kernel = 0x01

abbrev pub rpi_user_simulated : ℕ
rpi_user_simulated = 0x02

-- `strncmp(machine, …, n) == 0` for a text of length `n`.
unfoldable pub detect_arch : List ℕ → ℕ
detect_arch machine =
    if bytes_eq (take 6 machine) (codes "x86_64")
    then arch_x86_64
    else if bytes_eq (take 7 machine) (codes "aarch64")
    then arch_aarch64
    else if bytes_eq (take 7 machine) (codes "riscv64")
    then arch_riscv64
    else arch_unknown

-- "%u.%u.%u"
abbrev release_format : List Directive
release_format = number 32 ∷ lit b'.' ∷ number 32 ∷ lit b'.' ∷ number 32 ∷ []

-- `major`, `minor` and `patch` keep 0 when they are not assigned.
abbrev release_numbers : List Value → ℕ × ℕ × ℕ
release_numbers (num major ∷ num minor ∷ num patch ∷ vs) = (major, minor, patch)
release_numbers (num major ∷ num minor ∷ []) = (major, minor, 0)
release_numbers (num major ∷ []) = (major, 0, 0)
release_numbers _ = (0, 0, 0)

unfoldable pub build_kernel_hash : List ℕ → List ℕ
unfolding scan
build_kernel_hash release =
    let (major, minor, patch) = release_numbers (scan release_format release).0 in
    byte_at major 0 ∷ byte_at minor 0 ∷ byte_at patch 8 ∷ byte_at patch 0 ∷ []

unfoldable pub detect_fs_type : ℕ → ℕ
detect_fs_type f_type =
    if f_type == 0xEF53
    then 0x0001
    else if f_type == 0x58465342
    then 0x0002
    else if f_type == 0x9123683E
    then 0x0003
    else if f_type == 0x01021994
    then 0x0004
    else if f_type == 0x6969
    then 0x0005
    else fs_unknown

unfoldable pub detect_rpi_type : Host → ℕ
detect_rpi_type host = if host.has_pressure then rpi_native_kernel else rpi_user_simulated

-- "%31s %lu %7s\n"
abbrev meminfo_format : List Directive
meminfo_format = word 31 ∷ white ∷ number 64 ∷ white ∷ word 7 ∷ white ∷ []

-- The two totals after a line of /proc/meminfo.
abbrev note_total : List ℕ → ℕ → ℕ × ℕ → ℕ × ℕ
note_total key val (ram, swap) =
    let mb = val / 1024 % 2 ^ 32 in
    if bytes_eq key (codes "MemTotal:")
    then (mb, swap)
    else if bytes_eq key (codes "SwapTotal:")
    then (ram, mb)
    else (ram, swap)

-- The loop over the file. Each pass that goes on takes at least a key, so the file's length is fuel
-- enough.
read_totals : (fuel : ℕ) → ℕ × ℕ → List ℕ → ℕ × ℕ
unfolding scan
read_totals zero totals file = totals
read_totals (suc fuel) totals file =
    let (values, rest) = scan meminfo_format file in
    elim (key_and_number values) [
      | none ↦ totals
      | some (key, val) ↦ read_totals fuel (note_total key val totals) rest
    ]

unfoldable pub mem_totals_mb : File → ℕ × ℕ
unfolding read_totals
mem_totals_mb none = (0, 0)
mem_totals_mb (some file) = read_totals (length file + 1) (0, 0) file

-- The root partition's size in MB and the code of its type.
unfoldable pub root_fs : Option Statfs → ℕ × ℕ
unfolding detect_fs_type
root_fs none = (0, fs_unknown)
root_fs (some sfs) =
    let bsz = (if sfs.f_frsize == 0 then sfs.f_bsize else sfs.f_frsize) in
    (sfs.f_blocks * bsz % 2 ^ 64 / (1024 * 1024) % 2 ^ 32, detect_fs_type sfs.f_type)

-- Bytes 10 to 17: kernel hash, number of processors, architecture.
unfoldable pub kernel_static : Host → List ℕ
unfolding build_kernel_hash detect_arch
kernel_static host = elim host.uname [
  | none ↦ 0 ∷ 0 ∷ 0 ∷ 0 ∷ 0 ∷ 0 ∷ put_u16 arch_unknown
  | some uts ↦
      build_kernel_hash uts.release ++ (put_u16 (cpus host) ++ put_u16 (detect_arch uts.machine))
]

unfoldable pub handler_sys_caps : HandlerFn
unfolding kernel_static mem_totals_mb root_fs detect_rpi_type
handler_sys_caps io w req sz session_id =
    let host = io.host in
    let (total_ram_mb, total_swap_mb) = mem_totals_mb host.meminfo in
    let (root_size_mb, fs_code) = root_fs host.statfs in
    if ltb sz caps_resp_len then (some (sw_write sw_sys_err), w) else (
      some (
          put_u32 core_caps_bitmap
          ++ (put_u32 ext_caps_bitmap
              ++ (put_u16 0x0100
                  ++ (kernel_static host
                      ++ (put_u32 total_ram_mb
                          ++ (put_u32 total_swap_mb
                              ++ (put_u32 root_size_mb
                                  ++ (put_u16 fs_code
                                      ++ (detect_rpi_type host ∷ 0x00 ∷ 0x90 ∷ 0x00 ∷ []))))))))),
      w,
    )
