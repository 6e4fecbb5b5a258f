-- ===== src/Startup/Options.antt =====
-- The command line: parse_args in src/asyd/asyd.c, on the options that getopt_long returns one by
-- one.
use asys.Base.{
  ℕ, ◌%◌, ◌^◌, ◌≤◌, ◌<◌, ◌≡◌, subst, ap, Bool, true, false, none, some, List, [], ◌∷◌, ◌==◌,
  if◌then◌else◌, length, length-take, take, codes, arith,
}
use asys.Scan.{skip_white, scan_number}

-- An option with its argument, a C string; `unknown` is '?'.
pub data Opt : Type 0 where
  port listen : (arg : List ℕ) → Opt
  debug version help unknown : Opt

pub record AsydConfig : Type 0 where
  pub port : ℕ
  pub listen : List ℕ
  pub debug : Bool

-- `exits` is the call of exit with that code.
pub data Args : Type 0 where
  config : AsydConfig → Args
  exits : (code : ℕ) → Args

abbrev pub default_config : AsydConfig
default_config = record { port = 7816; listen = codes "0.0.0.0"; debug = false }

-- `(uint16_t)atoi(arg)`
unfoldable pub port_of : List ℕ → ℕ
unfolding skip_white scan_number
port_of arg = elim (scan_number 32 (skip_white arg)) [ none ↦ 0 | some (n, rest) ↦ n % 2 ^ 16 ]

-- The loop, from a configuration on.
unfoldable pub parse_opts : AsydConfig → List Opt → Args
unfolding port_of
parse_opts cfg [] = config cfg
parse_opts cfg (port arg ∷ opts) =
    let rest = parse_opts (record cfg { port = port_of arg }) opts in
    if port_of arg == 0 then exits 1 else rest
parse_opts cfg (listen arg ∷ opts) = parse_opts (record cfg { listen = take 45 arg }) opts
parse_opts cfg (debug ∷ opts) = parse_opts (record cfg { debug = true }) opts
parse_opts cfg (version ∷ opts) = exits 0
parse_opts cfg (help ∷ opts) = exits 0
parse_opts cfg (unknown ∷ opts) = exits 1

unfoldable pub parse_args : List Opt → Args
unfolding parse_opts
parse_args = parse_opts default_config

-- The port can be listened on, and the address fits its array.
pub record IsConfig (cfg : AsydConfig) : Type 0 where
  pub port_low : 0 < cfg.port
  pub port_high : cfg.port < 2 ^ 16
  pub address : length cfg.listen ≤ 45

config_of : AsydConfig → Args → AsydConfig
config_of cfg (config cfg') = cfg'
config_of cfg (exits code) = cfg

port_small : (arg : List ℕ) → port_of arg < 2 ^ 16
unfolding port_of
port_small arg = ground arith

port_goes_on :
    (cfg cfg' : AsydConfig) (arg : List ℕ) (opts : List Opt)
    → parse_opts cfg (port arg ∷ opts) ≡ config cfg'
    → (0 < port_of arg) × (parse_opts (record cfg { port = port_of arg }) opts ≡ config cfg')
unfolding parse_opts
port_goes_on cfg cfg' arg opts e = ground (arith, e)

parse_opts-IsConfig :
    (cfg' : AsydConfig) (opts : List Opt) (cfg : AsydConfig)
    → IsConfig cfg
    → parse_opts cfg opts ≡ config cfg'
    → IsConfig cfg'
unfolding parse_opts config_of
parse_opts-IsConfig cfg' [] cfg v e = subst IsConfig (ap (config_of cfg) e) v
parse_opts-IsConfig cfg' (port arg ∷ opts) cfg v e =
    let (low, rest) = port_goes_on cfg cfg' arg opts e in
    parse_opts-IsConfig cfg' opts (record cfg { port = port_of arg })
      (record { port_low = low; port_high = port_small arg; address = v.address }) rest
parse_opts-IsConfig cfg' (listen arg ∷ opts) cfg v e =
    parse_opts-IsConfig cfg' opts (record cfg { listen = take 45 arg })
      (record {
        port_low = v.port_low;
        port_high = v.port_high;
        address = omega (arith, length-take 45 arg);
      })
      e
parse_opts-IsConfig cfg' (debug ∷ opts) cfg v e =
    parse_opts-IsConfig cfg' opts (record cfg { debug = true })
      (record { port_low = v.port_low; port_high = v.port_high; address = v.address }) e
parse_opts-IsConfig cfg' (version ∷ opts) cfg v e = cc
parse_opts-IsConfig cfg' (help ∷ opts) cfg v e = cc
parse_opts-IsConfig cfg' (unknown ∷ opts) cfg v e = cc

-- If the options are accepted, whatever they are, then the port is one of 1 to 65535 and the
-- address has at most the 45 characters that its array has room for.
pub parse_args-IsConfig :
    (opts : List Opt) (cfg : AsydConfig) → parse_args opts ≡ config cfg → IsConfig cfg
unfolding parse_args
parse_args-IsConfig opts cfg =
    parse_opts-IsConfig cfg opts default_config
      (record { port_low = omega arith; port_high = omega arith; address = omega arith })
