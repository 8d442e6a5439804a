-- ===== src/Config/Startup/Tests.antt =====
-- Runs of app/server_main.cpp.
use tinykvcache.Prelude.{◌≡◌, refl, ap, List, [], ◌∷◌, Bool, true, false, none, arith}
use tinykvcache.Prelude.Int.{pos}
use tinykvcache.Prelude.Text.{codes, to_string}
use tinykvcache.Core.FrameCodec.{Bytes}
use tinykvcache.Net.TcpServer.{check_options}
use tinykvcache.Config.{
  AppConfig, Document, Outcome, no_section, valid, invalid, and_then, default_config,
  parse_poller_backend_name, epoll, help_not_alone, validate,
}
use tinykvcache.Config.Loader.{validated, load_from_file}
use tinykvcache.Config.CommandLine.Rendered.{
  Setting, config_is, port_is, poller_is, render, effects,
}
use tinykvcache.Config.CommandLine.Found.{named}
use tinykvcache.Config.Startup.{start, read_config, read_arguments, show_help, serve}
use tinykvcache.Config.Startup.Accepted.{check_options-start, read_arguments-render}

abbrev documents : Bytes → Outcome Document
documents path = valid (λ section. no_section)

abbrev settings : List (Bool × Setting)
settings = (true, port_is 80) ∷ (false, config_is (codes "a.toml")) ∷ (true, poller_is epoll) ∷ []

abbrev arguments : List Bytes
arguments = codes "--port=80" ∷ codes "--config" ∷ codes "a.toml" ∷ codes "--poller=epoll" ∷ []

settings-render : render settings ≡ arguments
unfolding to_string parse_poller_backend_name
settings-render = refl

abbrev configured : AppConfig
configured = record default_config {
  port = pos 80;
  reactor = record default_config.reactor { poller_backend = epoll };
}

help_with_port :
    start 8 documents (codes "--help" ∷ codes "--port=80" ∷ []) ≡ invalid help_not_alone
unfolding start and_then
help_with_port = refl

help_alone : start 8 documents (codes "-h" ∷ []) ≡ valid show_help
unfolding start and_then
help_alone = refl

read_arguments-render_example :
    read_arguments 8 documents (render settings)
    ≡ and_then (named none settings) (λ path.
      and_then
        (read_config 8 documents path)
        (λ file. validated (effects 8 settings file) (validate (effects 8 settings file))))
read_arguments-render_example =
    read_arguments-render 8 documents settings (omega arith, (refl, (tt, tt)))
      (tt, (refl, (tt, tt)))

arguments-start : start 8 documents arguments ≡ valid (serve configured)
unfolding start and_then read_config load_from_file validated validate to_string
    parse_poller_backend_name
arguments-start = ap (λ r. and_then r (λ c. valid (serve c))) read_arguments-render_example

check_options-start_example : check_options configured.network configured.reactor ≡ none
check_options-start_example = check_options-start 8 documents arguments configured arguments-start
