-- ===== src/Config/CommandLine/Rendered.antt =====
-- Command lines as a user writes them, and what src/config/command_line.cpp makes of them.
use tinykvcache.Prelude.{
  ℕ, suc, ◌+◌, ◌^◌, ◌≤◌, ◌<◌, ◌≡◌, refl, sym, subst, ap, ◌∙◌, Bool, true, false, List, [], ◌∷◌,
  ◌++◌, some, arith, length, ◌==◌, if◌then◌else◌, All, leb, ◌*◌, ◌-◌,
}
use tinykvcache.Prelude.Int.{pos, int_max}
use tinykvcache.Prelude.Text.{codes, to_string}
use tinykvcache.Core.FrameCodec.{Bytes}
use tinykvcache.Core.CommandParser.Numbers.{
  Digits, read_from, decimal-Digits, read_from-decimal, digit-bounds, decimal-cons,
}
use tinykvcache.Config.{
  AppConfig, PollerBackend, auto, poll, epoll, LogLevel, debug, info, warn, error, off, valid,
  and_then, parse_poller_backend, parse_poller_backend_name, parse_log_level, auto_count,
}
use tinykvcache.Config.CommandLine.{
  require_next_value, starts_with, matches_option, parse_inline_value, inline_or_mismatch,
  read_option_value, with_value, override_host, override_port, override_poller,
  override_sub_reactors, override_log_level, apply_argument, apply_command_line_overrides,
  digits_loop, digits, natural, parse_int, parse_size,
}
use tinykvcache.Config.CommandLine.Unroll.{apply_lem}

pub data Setting : Type 0 where
  config_is host_is : Bytes → Setting
  port_is sub_reactors_are : ℕ → Setting
  poller_is : PollerBackend → Setting
  log_level_is : LogLevel → Setting

abbrev level_text : LogLevel → Bytes
level_text debug = codes "debug"
level_text info = codes "info"
level_text warn = codes "warn"
level_text error = codes "error"
level_text off = codes "off"

abbrev pub option_of : Setting → Bytes
option_of (config_is path) = codes "--config"
option_of (host_is host) = codes "--host"
option_of (port_is n) = codes "--port"
option_of (sub_reactors_are n) = codes "--sub-reactors"
option_of (poller_is b) = codes "--poller"
option_of (log_level_is l) = codes "--log-level"

abbrev pub text_of : Setting → Bytes
text_of (config_is path) = path
text_of (host_is host) = host
text_of (port_is n) = to_string n
text_of (sub_reactors_are n) = to_string n
text_of (poller_is b) = parse_poller_backend_name b
text_of (log_level_is l) = level_text l

-- `--option=value`, or `--option value`.
abbrev pub render : List (Bool × Setting) → List Bytes
render [] = []
render ((true, s) ∷ ss) = (option_of s ++ (b'=' ∷ text_of s)) ∷ render ss
render ((false, s) ∷ ss) = option_of s ∷ text_of s ∷ render ss

-- What a setting does to the configuration.
abbrev pub effect : ℕ → Setting → AppConfig → AppConfig
effect cores (config_is path) c = c
effect cores (host_is host) c = record c { host = host }
effect cores (port_is n) c = record c { port = pos n }
effect cores (sub_reactors_are n) c = record c {
  reactor = record c.reactor { sub_reactor_count = if n == 0 then auto_count cores else n };
}
effect cores (poller_is b) c = record c { reactor = record c.reactor { poller_backend = b } }
effect cores (log_level_is l) c = record c { log_level = l }

abbrev pub effects : ℕ → List (Bool × Setting) → AppConfig → AppConfig
effects cores [] c = c
effects cores ((form, s) ∷ ss) c = effects cores ss (effect cores s c)

-- A value that is not empty, and a number that its type holds.
abbrev pub IsUsable : Setting → Type 0
IsUsable (config_is path) = (length path == 0) ≡ false
IsUsable (host_is host) = (length host == 0) ≡ false
IsUsable (port_is n) = n ≤ int_max
IsUsable (sub_reactors_are n) = n < 2 ^ 64
IsUsable (poller_is b) = Unit {0}
IsUsable (log_level_is l) = Unit {0}

digits_loop-Digits : (r : ℕ) (cs : Bytes) → Digits cs → digits_loop r cs ≡ some (read_from r cs)
unfolding digits_loop read_from
digits_loop-Digits r [] h = refl
digits_loop-Digits r (c ∷ cs) (h, hs) =
    ground (arith, digit-bounds c h, digits_loop-Digits (r * 10 + (c - 48)) cs hs)

record Reads (n : ℕ) (text : Bytes) : Type 0 where
  filled : (length text == 0) ≡ false
  as_int : n ≤ int_max → parse_int text ≡ valid (pos n)
  as_size : n < 2 ^ 64 → parse_size text ≡ valid n

Reads-cons : (n c : ℕ) (cs : Bytes) → Digits (c ∷ cs) → read_from 0 (c ∷ cs) ≡ n → Reads n (c ∷ cs)
unfolding parse_int parse_size digits natural and_then
Reads-cons n c cs h e =
    let some_n : digits_loop 0 (c ∷ cs) ≡ some n = digits_loop-Digits 0 (c ∷ cs) h ∙ ap some e in
    let b = digit-bounds c h.0 in
    let unsigned : (c == b'-') ≡ false = ground arith in
    record {
      filled = ground arith;
      as_int =
          λ small. let fits : leb n int_max ≡ true = ground arith in rw (unsigned, some_n, fits);
      as_size = λ small. let fits : leb n (2 ^ 64 - 1) ≡ true = ground arith in rw (some_n, fits);
    }

Reads-to_string : (n : ℕ) → Reads n (to_string n)
Reads-to_string n =
    let (c, cs, e) = decimal-cons n in
    let h : Digits (c ∷ cs) = subst Digits e (unfold to_string in decimal-Digits (suc n) n) in
    let r : read_from 0 (c ∷ cs) ≡ n =
      subst (λ (t : Bytes). read_from 0 t ≡ n) e
        (unfold to_string in read_from-decimal (suc n) n (omega arith)) in
    subst (Reads n) (sym e) (Reads-cons n c cs h r)

IsUsable-filled : (s : Setting) → IsUsable s → (length (text_of s) == 0) ≡ false
unfolding parse_poller_backend_name
IsUsable-filled (config_is path) h = h
IsUsable-filled (host_is host) h = h
IsUsable-filled (port_is n) h = (Reads-to_string n).filled
IsUsable-filled (sub_reactors_are n) h = (Reads-to_string n).filled
IsUsable-filled (poller_is auto) h = refl
IsUsable-filled (poller_is poll) h = refl
IsUsable-filled (poller_is epoll) h = refl
IsUsable-filled (log_level_is debug) h = refl
IsUsable-filled (log_level_is info) h = refl
IsUsable-filled (log_level_is warn) h = refl
IsUsable-filled (log_level_is error) h = refl
IsUsable-filled (log_level_is off) h = refl

parse_poller-name :
    (b : PollerBackend) → parse_poller_backend (parse_poller_backend_name b) ≡ valid b
unfolding parse_poller_backend parse_poller_backend_name
parse_poller-name auto = refl
parse_poller-name poll = refl
parse_poller-name epoll = refl

parse_log_level-text : (l : LogLevel) → parse_log_level (level_text l) ≡ valid l
unfolding parse_log_level
parse_log_level-text debug = refl
parse_log_level-text info = refl
parse_log_level-text warn = refl
parse_log_level-text error = refl
parse_log_level-text off = refl

module _ (cores : ℕ) (c : AppConfig) (rest : List Bytes) where
  apply-separate :
      (s : Setting)
      → IsUsable s
      → apply_argument cores c (option_of s) (text_of s ∷ rest) ≡ valid (effect cores s c, rest)
  unfolding apply_argument matches_option starts_with with_value read_option_value
      require_next_value and_then override_host override_port override_sub_reactors override_poller
      override_log_level
  apply-separate (config_is path) h = rw h
  apply-separate (host_is host) h = rw h
  apply-separate (port_is n) h = rw ((Reads-to_string n).filled, (Reads-to_string n).as_int h)
  apply-separate (sub_reactors_are n) h =
      rw ((Reads-to_string n).filled, (Reads-to_string n).as_size h)
  apply-separate (poller_is b) h = rw (IsUsable-filled (poller_is b) tt, parse_poller-name b)
  apply-separate (log_level_is l) h =
      rw (IsUsable-filled (log_level_is l) tt, parse_log_level-text l)

  apply-joined :
      (s : Setting)
      → IsUsable s
      → apply_argument cores c (option_of s ++ (b'=' ∷ text_of s)) rest
        ≡ valid (effect cores s c, rest)
  unfolding apply_argument matches_option starts_with with_value read_option_value
      parse_inline_value inline_or_mismatch and_then override_host override_port
      override_sub_reactors override_poller override_log_level
  apply-joined (config_is path) h = rw h
  apply-joined (host_is host) h = rw h
  apply-joined (port_is n) h = rw ((Reads-to_string n).filled, (Reads-to_string n).as_int h)
  apply-joined (sub_reactors_are n) h =
      rw ((Reads-to_string n).filled, (Reads-to_string n).as_size h)
  apply-joined (poller_is b) h = rw (IsUsable-filled (poller_is b) tt, parse_poller-name b)
  apply-joined (log_level_is l) h = rw (IsUsable-filled (log_level_is l) tt, parse_log_level-text l)

-- A command line of usable settings, each written `--option value` or `--option=value`, is read as
-- the settings one behind the other, the later over the earlier.
pub apply-render :
    (cores : ℕ) (ss : List (Bool × Setting)) (c : AppConfig)
    → All (λ (s : Bool × Setting). IsUsable s.1) ss
    → apply_command_line_overrides cores (render ss) c ≡ valid (effects cores ss c)
unfolding and_then
apply-render cores [] c h = unfold apply_command_line_overrides in refl
apply-render cores ((true, s) ∷ ss) c (h, hs) =
    rw
      (
        apply_lem cores (option_of s ++ (b'=' ∷ text_of s)) (render ss) c,
        apply-joined cores c (render ss) s h,
      )
      (apply-render cores ss (effect cores s c) hs)
apply-render cores ((false, s) ∷ ss) c (h, hs) =
    rw
      (
        apply_lem cores (option_of s) (text_of s ∷ render ss) c,
        apply-separate cores c (render ss) s h,
      )
      (apply-render cores ss (effect cores s c) hs)
