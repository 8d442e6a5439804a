-- ===== src/Config/CommandLine/Kept.antt =====
-- The command line leaves a sub-reactor: src/config/command_line.cpp.
use tinykvcache.Prelude.{
  ℕ, zero, suc, ◌≤◌, Bool, true, false, List, [], ◌∷◌, arith, length, if◌then◌else◌,
}
use tinykvcache.Prelude.Text.{codes}
use tinykvcache.Core.FrameCodec.{Bytes}
use tinykvcache.Config.{
  AppConfig, ConfigError, Outcome, valid, invalid, and_then, unknown_option, parse_poller_backend,
  parse_log_level,
}
use tinykvcache.Config.CommandLine.{
  apply_command_line_overrides, apply_argument, apply_loop, with_value, override_host,
  override_port, override_poller, override_sub_reactors, override_log_level, parse_int, parse_size,
  matches_option, require_next_value, read_option_value,
}

-- What holds of what a step gives.
unfoldable pub Each : {A : Type 0} → (A → Type 0) → Outcome A → Type 0
Each P (valid a) = P a
Each P (invalid e) = Unit {0}

if-Each :
    {A : Type 0} (P : A → Type 0) (t : Bool) (x y : Outcome A)
    → Each P x
    → Each P y
    → Each P (if t then x else y)
if-Each P true x y a b = a
if-Each P false x y a b = b

valid-Each : {A : Type 0} (P : A → Type 0) (a : A) → P a → Each P (valid a)
unfolding Each
valid-Each P a h = h

invalid-Each : {A : Type 0} (P : A → Type 0) (e : ConfigError) → Each P (invalid e)
unfolding Each
invalid-Each P e = tt

pub any-Each :
    {A B : Type 0} (Q : B → Type 0) (r : Outcome A) (next : A → Outcome B)
    → ((a : A) → Each Q (next a))
    → Each Q (and_then r next)
unfolding and_then Each
any-Each Q (valid a) next h = h a
any-Each Q (invalid e) next h = tt

pub then-Each :
    {A B : Type 0} (P : A → Type 0) (Q : B → Type 0) (r : Outcome A) (next : A → Outcome B)
    → Each P r
    → ((a : A) → P a → Each Q (next a))
    → Each Q (and_then r next)
unfolding and_then Each
then-Each P Q (valid a) next k h = h a k
then-Each P Q (invalid e) next k h = tt

-- There is a sub-reactor.
abbrev pub Counted : AppConfig → Type 0
Counted c = 1 ≤ c.reactor.sub_reactor_count

abbrev FirstCounted : AppConfig × List Bytes → Type 0
FirstCounted r = Counted r.0

module _ (cores : ℕ) (config : AppConfig) (k : 1 ≤ config.reactor.sub_reactor_count) where
  host-Each : (v : Bytes) → Each Counted (override_host cores config v)
  unfolding override_host
  host-Each v = valid-Each Counted _ k

  port-Each : (v : Bytes) → Each Counted (override_port cores config v)
  unfolding override_port
  port-Each v = any-Each Counted (parse_int v) _ (λ n. valid-Each Counted _ k)

  poller-Each : (v : Bytes) → Each Counted (override_poller cores config v)
  unfolding override_poller
  poller-Each v = any-Each Counted (parse_poller_backend v) _ (λ b. valid-Each Counted _ k)

  log_level-Each : (v : Bytes) → Each Counted (override_log_level cores config v)
  unfolding override_log_level
  log_level-Each v = any-Each Counted (parse_log_level v) _ (λ l. valid-Each Counted _ k)

  sub_reactors-Each : (v : Bytes) → Each Counted (override_sub_reactors cores config v)
  unfolding override_sub_reactors
  sub_reactors-Each v = any-Each Counted (parse_size v) _ (λ n. valid-Each Counted _ (ground arith))

  with_value-Each :
      (argument option : Bytes) (rest : List Bytes) (set : Bytes → Outcome AppConfig)
      → ((v : Bytes) → Each Counted (set v))
      → Each FirstCounted (with_value argument option rest set)
  unfolding with_value
  with_value-Each argument option rest set h =
      any-Each FirstCounted (read_option_value argument option rest) _ (λ r.
        then-Each Counted FirstCounted (set r.0) _ (h r.0)
          (λ c l. valid-Each FirstCounted (c, r.1) l))

  argument-Each :
      (argument : Bytes) (rest : List Bytes)
      → Each FirstCounted (apply_argument cores config argument rest)
  unfolding apply_argument
  argument-Each argument rest =
      let skip = λ (r : Bytes × List Bytes). valid-Each FirstCounted (config, r.1) k in
      let w = λ (option : Bytes) (set : Bytes → Outcome AppConfig).
        with_value-Each argument option rest set in
      if-Each FirstCounted _ _ _ (any-Each FirstCounted (require_next_value rest) _ skip) (
        if-Each FirstCounted _ _ _
          (any-Each FirstCounted (read_option_value argument _ rest) _ skip)
          (if-Each FirstCounted (matches_option argument (codes "--host")) _ _
            (w (codes "--host") _ host-Each)
            (if-Each FirstCounted (matches_option argument (codes "--port")) _ _
              (w (codes "--port") _ port-Each)
              (if-Each FirstCounted (matches_option argument (codes "--poller")) _ _
                (w (codes "--poller") _ poller-Each)
                (if-Each FirstCounted (matches_option argument (codes "--sub-reactors")) _ _
                  (w (codes "--sub-reactors") _ sub_reactors-Each)
                  (if-Each FirstCounted (matches_option argument (codes "--log-level")) _ _
                    (w (codes "--log-level") _ log_level-Each)
                    (if-Each FirstCounted _ _ _ (valid-Each FirstCounted (config, rest) k)
                      (invalid-Each FirstCounted unknown_option))))))))

loop-Each :
    (fuel cores : ℕ) (arguments : List Bytes) (config : AppConfig)
    → 1 ≤ config.reactor.sub_reactor_count
    → Each Counted (apply_loop fuel cores arguments config)
unfolding apply_loop
loop-Each zero cores [] config k = valid-Each Counted config k
loop-Each (suc fuel) cores [] config k = valid-Each Counted config k
loop-Each zero cores (a ∷ rest) config k = valid-Each Counted config k
loop-Each (suc fuel) cores (a ∷ rest) config k =
    then-Each FirstCounted Counted (apply_argument cores config a rest) _
      (argument-Each cores config k a rest) (λ r l. loop-Each fuel cores r.1 r.0 l)

pub overrides-Each :
    (cores : ℕ) (arguments : List Bytes) (config : AppConfig)
    → 1 ≤ config.reactor.sub_reactor_count
    → Each Counted (apply_command_line_overrides cores arguments config)
unfolding apply_command_line_overrides
overrides-Each cores arguments config k = loop-Each (length arguments) cores arguments config k
