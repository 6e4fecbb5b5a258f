-- ===== src/Dispatcher.antt =====
-- The instruction dispatcher: src/asyd/core/dispatcher.c and the bitmaps of dispatcher.h.
--
-- The handlers are function pointers in two tables; here they are a record. The callers pass no
-- NULL request and no NULL buffer.
pub mod Guarded
pub mod Sizes
pub mod Locality
pub mod Isolation
pub mod Pools
pub mod Effects
pub mod Capabilities
use asys.Base.{
  ℕ, ◌+◌, ◌-◌, ◌*◌, ◌/◌, ◌%◌, ◌^◌, ◌≤◌, ◌<◌, ◌≡◌, ◌∙◌, ◌⊎◌, inl, inr, refl, Bool, true, false, not,
  ◌&&◌, ◌||◌, Option, none, some, List, [], ◌∷◌, ltb, leb, ◌==◌, if◌then◌else◌, length, holds_below,
  holds_below_at, Bool-cases, Option-cases, arith,
}
use asys.Handlers.{
  core_caps_bitmap, ext_caps_bitmap, Request, Io, World, Reply, HandlerFn, sw_write, sw_not_found,
  sw_not_supported, sw_sys_err, disp_resp_max,
}

-- The entries of `core_table` and `standard_table` that are not NULL.
pub record Handlers : Type 0 where
  pub sys_caps : HandlerFn
  pub sys_hello : HandlerFn
  pub sys_status : HandlerFn
  pub sys_procs : HandlerFn
  pub task_query : HandlerFn
  pub proc_throttle : HandlerFn
  pub svc_restart : HandlerFn

-- `(BITMAP >> ins) & 1`
unfoldable pub in_caps_bitmap : ℕ → Bool
in_caps_bitmap ins =
    if leb ins 0x1F
    then core_caps_bitmap / 2 ^ ins % 2 == 1
    else if leb ins 0x3F
    then ext_caps_bitmap / 2 ^ (ins - 0x20) % 2 == 1
    else false

-- What is sent for a handler's return value; `n < 0` is the reply `none`.
abbrev pub reply_bytes : Reply → List ℕ
reply_bytes none = sw_write sw_sys_err
reply_bytes (some bytes) = bytes

module _ (h : Handlers) where
  unfoldable pub core_table : ℕ → Option HandlerFn
  core_table ins =
      if ins == 0x00
      then some h.sys_caps
      else if ins == 0x01
      then some h.sys_hello
      else if ins == 0x02
      then some h.sys_status
      else if ins == 0x03
      then some h.sys_procs
      else if ins == 0x11
      then some h.task_query
      else none

  unfoldable pub standard_table : ℕ → Option HandlerFn
  standard_table i =
      if i == 0x00 then some h.proc_throttle else if i == 0x02 then some h.svc_restart else none

  unfoldable pub handler_for : ℕ → Option HandlerFn
  unfolding core_table standard_table
  handler_for ins =
      if leb ins 0x1F
      then core_table ins
      else if leb ins 0x2F
      then standard_table (ins - 0x20)
      else none

  unfoldable pub dispatch : Io → World → Request → ℕ → ℕ → List ℕ × World
  dispatch io w req resp_size session_id =
      let ins = req.frame.ins in
      if ltb resp_size 2
      then (sw_write sw_sys_err, w)
      else if not (in_caps_bitmap ins)
      then (sw_write sw_not_found, w)
      else elim (handler_for ins) [
        | none ↦ (sw_write sw_not_supported, w)
        | some fn ↦ let (reply, w') = fn io w req resp_size session_id in (reply_bytes reply, w')
      ]

-- The instructions that the daemon has, as the README lists them.
abbrev pub is_instruction : ℕ → Bool
is_instruction ins = leb ins 3 || ins == 0x11 || ins == 0x20 || ins == 0x22

caps_table_ok : ℕ → Bool
caps_table_ok ins = (if is_instruction ins then in_caps_bitmap ins else not (in_caps_bitmap ins))

caps_table : holds_below caps_table_ok 256 ≡ true
unfolding holds_below caps_table_ok in_caps_bitmap
caps_table = refl

-- The bitmap has exactly the instructions' bits.
pub in_caps_bitmap_lem : (ins : ℕ) → ins < 256 → in_caps_bitmap ins ≡ is_instruction ins
unfolding caps_table_ok
in_caps_bitmap_lem ins h = ground (arith, holds_below_at caps_table_ok 256 caps_table ins h)

module _ (h : Handlers) where
  no_handler : (ins : ℕ) → handler_for h ins ≡ none → is_instruction ins ≡ false
  unfolding handler_for core_table standard_table
  no_handler ins e = ground arith

  has_handler :
      (ins : ℕ) → is_instruction ins ≡ true → (fn : HandlerFn) × (handler_for h ins ≡ some fn)
  has_handler ins e = elim (Option-cases (handler_for h ins)) [
    | inl e' ↦ ground (arith, no_handler ins e')
    | inr found ↦ found
  ]

  -- An instruction byte that is not one of the seven is answered with 0x6A81 and nothing else
  -- happens; one of the seven runs its handler, whose reply is sent, or 0x6F00 if it reports an
  -- internal error. The answer 0x6D00 (no handler) is never given.
  pub dispatch_lem :
      (io : Io) (w : World) (req : Request) (resp_size session_id : ℕ)
      → req.frame.ins < 256
      → 2 ≤ resp_size
      → (is_instruction req.frame.ins ≡ false
          → dispatch h io w req resp_size session_id ≡ (sw_write sw_not_found, w))
        × (is_instruction req.frame.ins ≡ true
            → (fn : HandlerFn) × (handler_for h req.frame.ins ≡ some fn)
              × (dispatch h io w req resp_size session_id ≡ (
                reply_bytes (fn io w req resp_size session_id).0,
                (fn io w req resp_size session_id).1,
              )))
  unfolding dispatch
  dispatch_lem io w req resp_size session_id small room =
      let bits = in_caps_bitmap_lem req.frame.ins small in
      (
        (λ no. ground (arith, bits, no)),
        (λ yes.
            let (fn, found) = has_handler req.frame.ins yes in
            let big : ltb resp_size 2 ≡ false = ground arith in
            let known : in_caps_bitmap req.frame.ins ≡ true = bits ∙ yes in
            (fn, found, rw (big, known, found) refl)),
      )
