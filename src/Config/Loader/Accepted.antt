-- ===== src/Config/Loader/Accepted.antt =====
-- src/config/config_loader.cpp against the checks of src/net/tcp_server.cpp.
use tinykvcache.Prelude.{ℕ, ◌≤◌, ◌≡◌, refl, subst, Option, none, some, arith}
use tinykvcache.Prelude.Int.{ℤ}
use tinykvcache.Net.Connection.{NetworkOptions}
use tinykvcache.Net.TcpServer.{check_options}
use tinykvcache.Config.{
  AppConfig, ConfigError, Outcome, valid, invalid, and_then, Document, default_config, when_some,
  to_size, parse_poller_backend, parse_log_level, validate_network, validate_rest, validate,
}
use tinykvcache.Config.Loader.{
  set_host, set_port, read_server_config, set_poller, set_sub_reactors, read_network_config,
  read_reactor_config, set_graceful_timeout, read_shutdown_config, set_sweep_interval,
  read_ttl_config, set_log_level, read_log_config, validated, load_from_file,
}

-- There is a reactor, in what a step gives.
HasReactor : Outcome AppConfig → Type 0
HasReactor (valid c) = 1 ≤ c.reactor.sub_reactor_count
HasReactor (invalid e) = Unit {0}

and_then-HasReactor :
    {A : Type 0} (r : Outcome A) (f : A → Outcome AppConfig)
    → ((a : A) → HasReactor (f a))
    → HasReactor (and_then r f)
unfolding and_then HasReactor
and_then-HasReactor (valid a) f h = h a
and_then-HasReactor (invalid e) f h = tt

chain-HasReactor :
    (r : Outcome AppConfig) (f : AppConfig → Outcome AppConfig)
    → ((c : AppConfig) → 1 ≤ c.reactor.sub_reactor_count → HasReactor (f c))
    → HasReactor r
    → HasReactor (and_then r f)
unfolding and_then HasReactor
chain-HasReactor (valid c) f h k = h c k
chain-HasReactor (invalid e) f h k = tt

when_some-HasReactor :
    {A : Type 0} (set : A → Outcome AppConfig) (c : AppConfig) (v : Option A)
    → ((a : A) → HasReactor (set a))
    → 1 ≤ c.reactor.sub_reactor_count
    → HasReactor (when_some set c v)
unfolding when_some HasReactor
when_some-HasReactor set c none h k = k
when_some-HasReactor set c (some a) h k = h a

-- One optional key.
key-HasReactor :
    {A : Type 0} (r : Outcome (Option A)) (set : A → Outcome AppConfig) (c : AppConfig)
    → ((a : A) → HasReactor (set a))
    → 1 ≤ c.reactor.sub_reactor_count
    → HasReactor (and_then r (when_some set c))
key-HasReactor r set c h k =
    and_then-HasReactor r (when_some set c) (λ v. when_some-HasReactor set c v h k)

module _ (root : Document) where
  server-HasReactor :
      (c : AppConfig) → 1 ≤ c.reactor.sub_reactor_count → HasReactor (read_server_config root c)
  unfolding read_server_config set_host set_port HasReactor
  server-HasReactor c k =
      chain-HasReactor _ _ (λ d l. key-HasReactor _ (set_port root d) d (λ p. ground arith) l)
        (key-HasReactor _ (set_host root c) c (λ h. k) k)

  network-HasReactor :
      (cores : ℕ) (c : AppConfig)
      → 1 ≤ c.reactor.sub_reactor_count
      → HasReactor (read_network_config root cores c)
  unfolding read_network_config set_poller set_sub_reactors HasReactor
  network-HasReactor cores c k =
      chain-HasReactor _ _
        (λ d l. key-HasReactor _ (set_sub_reactors root cores d) d (λ v. ground arith) l)
        (key-HasReactor _ (set_poller root c) c
          (λ b. and_then-HasReactor (parse_poller_backend b) _ (λ p. k)) k)

  size-HasReactor :
      (r : Outcome (Option ℤ)) (c : AppConfig) (put : ℕ → NetworkOptions)
      → 1 ≤ c.reactor.sub_reactor_count
      → HasReactor (
          and_then r
            (when_some (λ v. and_then (to_size v) (λ n. valid (record c { network = put n }))) c))
  unfolding HasReactor
  size-HasReactor r c put k =
      key-HasReactor r _ c (λ v. and_then-HasReactor (to_size v) _ (λ n. k)) k

  reactor-HasReactor :
      (c : AppConfig) → 1 ≤ c.reactor.sub_reactor_count → HasReactor (read_reactor_config root c)
  unfolding read_reactor_config
  reactor-HasReactor c k =
      chain-HasReactor _ _
        (λ c k.
          chain-HasReactor _ _
            (λ c k.
              chain-HasReactor _ _
                (λ c k.
                  chain-HasReactor _ _
                    (λ c k.
                      chain-HasReactor _ _ (λ c k. size-HasReactor _ c _ k)
                        (size-HasReactor _ c _ k))
                    (size-HasReactor _ c _ k))
                (size-HasReactor _ c _ k))
            (size-HasReactor _ c _ k))
        (size-HasReactor _ c _ k)

  shutdown-HasReactor :
      (c : AppConfig) → 1 ≤ c.reactor.sub_reactor_count → HasReactor (read_shutdown_config root c)
  unfolding read_shutdown_config set_graceful_timeout HasReactor
  shutdown-HasReactor c k = key-HasReactor _ (set_graceful_timeout root c) c (λ v. ground arith) k

  ttl-HasReactor :
      (c : AppConfig) → 1 ≤ c.reactor.sub_reactor_count → HasReactor (read_ttl_config root c)
  unfolding read_ttl_config set_sweep_interval HasReactor
  ttl-HasReactor c k = key-HasReactor _ (set_sweep_interval root c) c (λ v. ground arith) k

  log-HasReactor :
      (c : AppConfig) → 1 ≤ c.reactor.sub_reactor_count → HasReactor (read_log_config root c)
  unfolding read_log_config set_log_level HasReactor
  log-HasReactor c k =
      key-HasReactor _ (set_log_level root c) c
        (λ v. and_then-HasReactor (parse_log_level v) _ (λ l. k)) k

-- What the constructor of the server wants, of what a step gives.
unfoldable pub IsAccepted : Outcome AppConfig → Type 0
IsAccepted (valid c) = check_options c.network c.reactor ≡ none
IsAccepted (invalid e) = Unit {0}

check_options-validate :
    (c : AppConfig)
    → 1 ≤ c.reactor.sub_reactor_count
    → validate c ≡ none
    → check_options c.network c.reactor ≡ none
unfolding validate validate_rest validate_network check_options
check_options-validate c k h = ground arith

pub validated-IsAccepted :
    (c : AppConfig) (r : Option ConfigError)
    → 1 ≤ c.reactor.sub_reactor_count
    → validate c ≡ r
    → IsAccepted (validated c r)
unfolding validated IsAccepted
validated-IsAccepted c none k h = check_options-validate c k h
validated-IsAccepted c (some e) k h = tt

chain-IsAccepted :
    (r : Outcome AppConfig) (f : AppConfig → Outcome AppConfig)
    → ((c : AppConfig) → 1 ≤ c.reactor.sub_reactor_count → IsAccepted (f c))
    → HasReactor r
    → IsAccepted (and_then r f)
unfolding and_then HasReactor IsAccepted
chain-IsAccepted (valid c) f h k = h c k
chain-IsAccepted (invalid e) f h k = tt

pub load_from_file-IsAccepted :
    (root : Document) (cores : ℕ) → IsAccepted (load_from_file root cores)
unfolding load_from_file
load_from_file-IsAccepted root cores =
    chain-IsAccepted _ _
      (λ c k.
        chain-IsAccepted _ _
          (λ c k.
            chain-IsAccepted _ _
              (λ c k.
                chain-IsAccepted _ _
                  (λ c k.
                    chain-IsAccepted _ _
                      (λ c k.
                        chain-IsAccepted _ _ (λ c k. validated-IsAccepted c _ k refl)
                          (log-HasReactor root c k))
                      (ttl-HasReactor root c k))
                  (shutdown-HasReactor root c k))
              (network-HasReactor root cores c k))
          (reactor-HasReactor root c k))
      (server-HasReactor root default_config (omega arith))

-- A configuration that `LoadFromFile` returns, for every document and number of cores, passes the
-- checks of the constructor of `TcpServer`.
pub check_options-load_from_file :
    (root : Document) (cores : ℕ) (c : AppConfig)
    → load_from_file root cores ≡ valid c
    → check_options c.network c.reactor ≡ none
unfolding IsAccepted
check_options-load_from_file root cores c h =
    subst IsAccepted h (load_from_file-IsAccepted root cores)

-- Such a configuration has a reactor.
pub count-IsAccepted : (c : AppConfig) → IsAccepted (valid c) → 1 ≤ c.reactor.sub_reactor_count
unfolding IsAccepted check_options
count-IsAccepted c h = ground arith
