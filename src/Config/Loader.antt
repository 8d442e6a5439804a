-- ===== src/Config/Loader.antt =====
-- src/config/config_loader.cpp: the readers of the sections, and the loader.
pub mod Accepted
use tinykvcache.Prelude.{
  ℕ, zero, suc, ◌/◌, ◌≡◌, Bool, true, false, ◌||◌, List, [], ◌∷◌, Option, none, some, ltb, leb,
  ◌==◌, if◌then◌else◌, length, min, max,
}
use tinykvcache.Prelude.Equality.{bytes_beq}
use tinykvcache.Prelude.Int.{ℤ, pos, negsuc}
use tinykvcache.Prelude.Text.{codes}
use tinykvcache.Core.FrameCodec.{Bytes}
use tinykvcache.Net.Connection.{NetworkOptions, default_options}
use tinykvcache.Config.{
  PollerBackend, LogLevel, ReactorOptions, AppConfig, default_config, ConfigError, value_not_string,
  value_not_integer, value_negative, port_out_of_range, sub_reactors_out_of_range,
  graceful_timeout_not_positive, sweep_interval_negative, Outcome, valid, invalid, and_then, Node,
  Section, Document, is_negative, is_not_positive, is_outside, to_nat, read_string, read_integer,
  to_size, parse_poller_backend, parse_log_level, when_some, auto_count, validate,
}

module _ (root : Document) where
  set_host : AppConfig → Bytes → Outcome AppConfig
  set_host c host = valid (record c { host = host })

  set_port : AppConfig → ℤ → Outcome AppConfig
  set_port c port =
      if is_outside 1 65535 port
      then invalid port_out_of_range
      else valid (record c { port = port })

  pub read_server_config : AppConfig → Outcome AppConfig
  unfolding read_string read_integer set_host set_port when_some
  read_server_config c =
      and_then
        (and_then (read_string root (codes "server") (codes "host")) (when_some (set_host c) c))
        (λ d.
          and_then (read_integer root (codes "server") (codes "port")) (when_some (set_port d) d))

  set_poller : AppConfig → Bytes → Outcome AppConfig
  set_poller c value =
      and_then (parse_poller_backend value)
        (λ b. valid (record c { reactor = record c.reactor { poller_backend = b } }))

  -- 0 stands for half of the cores, between 1 and 8.
  set_sub_reactors : ℕ → AppConfig → ℤ → Outcome AppConfig
  set_sub_reactors cores c value =
      let n = to_nat value in
      if is_outside 0 16 value
      then invalid sub_reactors_out_of_range
      else valid (record c {
        reactor = record c.reactor { sub_reactor_count = if n == 0 then auto_count cores else n };
      })

  -- This function reads the section `reactor`, and the next one the section `network`.
  pub read_network_config : ℕ → AppConfig → Outcome AppConfig
  unfolding read_string read_integer set_poller set_sub_reactors when_some
  read_network_config cores c =
      and_then
        (and_then (read_string root (codes "reactor") (codes "poller"))
          (when_some (set_poller c) c))
        (λ d.
          and_then (read_integer root (codes "reactor") (codes "sub_reactors"))
            (when_some (set_sub_reactors cores d) d))

  -- One key of the section `network`.
  read_size : Bytes → (ℕ → NetworkOptions → NetworkOptions) → AppConfig → Outcome AppConfig
  unfolding read_integer to_size when_some
  read_size key put c = and_then (read_integer root (codes "network") key) (
      when_some (λ v. and_then (to_size v) (λ n. valid (record c { network = put n c.network }))) c)

  pub read_reactor_config : AppConfig → Outcome AppConfig
  unfolding read_size
  read_reactor_config c =
      and_then
        (read_size (codes "max_read_buffer_bytes") (λ n w. record w { max_read_buffer_bytes = n })
          c)
        (λ c.
          and_then
            (read_size (codes "write_low_watermark_bytes")
              (λ n w. record w { write_low_watermark_bytes = n }) c)
            (λ c.
              and_then
                (read_size (codes "write_high_watermark_bytes")
                  (λ n w. record w { write_high_watermark_bytes = n }) c)
                (λ c.
                  and_then
                    (read_size (codes "write_hard_limit_bytes")
                      (λ n w. record w { write_hard_limit_bytes = n }) c)
                    (λ c.
                      and_then
                        (read_size (codes "max_write_bytes_per_event")
                          (λ n w. record w { max_write_bytes_per_event = n }) c)
                        (λ c.
                          read_size (codes "max_accepts_per_event")
                            (λ n w. record w { max_accepts_per_event = n }) c)))))

  set_graceful_timeout : AppConfig → ℤ → Outcome AppConfig
  set_graceful_timeout c value =
      if is_not_positive value
      then invalid graceful_timeout_not_positive
      else valid (record c { graceful_timeout = value })

  pub read_shutdown_config : AppConfig → Outcome AppConfig
  unfolding read_integer set_graceful_timeout when_some
  read_shutdown_config c =
      and_then (read_integer root (codes "shutdown") (codes "graceful_timeout_ms"))
        (when_some (set_graceful_timeout c) c)

  set_sweep_interval : AppConfig → ℤ → Outcome AppConfig
  set_sweep_interval c value =
      if is_not_positive value
      then invalid sweep_interval_negative
      else valid (record c { sweep_interval = value })

  pub read_ttl_config : AppConfig → Outcome AppConfig
  unfolding read_integer set_sweep_interval when_some
  read_ttl_config c =
      and_then (read_integer root (codes "ttl") (codes "sweep_interval_ms"))
        (when_some (set_sweep_interval c) c)

  set_log_level : AppConfig → Bytes → Outcome AppConfig
  set_log_level c value = and_then (parse_log_level value) (λ l. valid (record c { log_level = l }))

  pub read_log_config : AppConfig → Outcome AppConfig
  unfolding read_string set_log_level when_some
  read_log_config c =
      and_then (read_string root (codes "logging") (codes "level")) (when_some (set_log_level c) c)

unfoldable pub validated : AppConfig → Option ConfigError → Outcome AppConfig
validated c none = valid c
validated c (some e) = invalid e

-- `cores` is `std::thread::hardware_concurrency()`.
unfoldable pub load_from_file : Document → ℕ → Outcome AppConfig
unfolding read_server_config read_reactor_config read_network_config read_shutdown_config
    read_ttl_config read_log_config validate validated
load_from_file root cores = and_then (read_server_config root default_config) (λ c.
    and_then (read_reactor_config root c) (λ c. and_then (read_network_config root cores c) (λ c.
      and_then (read_shutdown_config root c) (λ c.
        and_then (read_ttl_config root c)
          (λ c. and_then (read_log_config root c) (λ c. validated c (validate c)))))))
