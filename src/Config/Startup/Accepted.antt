-- ===== src/Config/Startup/Accepted.antt =====
-- What app/server_main.cpp hands to the constructor of `TcpServer`.
use tinykvcache.Prelude.{
  ℕ, ◌≡◌, refl, subst, ap, Bool, true, false, List, Option, none, some, All, arith,
}
use tinykvcache.Core.FrameCodec.{Bytes}
use tinykvcache.Net.TcpServer.{check_options}
use tinykvcache.Config.{AppConfig, Document, Outcome, valid, invalid, and_then, validate}
use tinykvcache.Config.Loader.{validated}
use tinykvcache.Config.Loader.Accepted.{
  IsAccepted, load_from_file-IsAccepted, validated-IsAccepted, count-IsAccepted,
}
use tinykvcache.Config.CommandLine.{find_config_path, apply_command_line_overrides}
use tinykvcache.Config.CommandLine.Unroll.{then_cong}
use tinykvcache.Config.CommandLine.Kept.{Each, any-Each, then-Each, Counted, overrides-Each}
use tinykvcache.Config.CommandLine.Rendered.{Setting, render, effects, IsUsable, apply-render}
use tinykvcache.Config.CommandLine.Found.{named, AllReadable, find_config_path-render}
use tinykvcache.Config.Startup.{
  read_config, read_arguments, start, configure, need_show_help, Startup, show_help, serve,
}

-- What the constructor of the server wants.
abbrev Accepted : AppConfig → Type 0
Accepted c = check_options c.network c.reactor ≡ none

abbrev Served : Startup → Type 0
Served show_help = Unit {0}
Served (serve c) = Accepted c

IsAccepted-Each : (r : Outcome AppConfig) → IsAccepted r → Each Accepted r
unfolding IsAccepted Each
IsAccepted-Each (valid c) h = h
IsAccepted-Each (invalid e) h = tt

IsAccepted-Counted : (r : Outcome AppConfig) → IsAccepted r → Each Counted r
unfolding Each
IsAccepted-Counted (valid c) h = count-IsAccepted c h
IsAccepted-Counted (invalid e) h = tt

module _ (cores : ℕ) (documents : Bytes → Outcome Document) where
  file-Counted : (path : Option Bytes) → Each Counted (read_config cores documents path)
  unfolding read_config Each
  file-Counted none = omega arith
  file-Counted (some path) =
      any-Each Counted (documents path) _
        (λ root. IsAccepted-Counted _ (load_from_file-IsAccepted root cores))

  arguments-Accepted :
      (arguments : List Bytes) → Each Accepted (read_arguments cores documents arguments)
  unfolding read_arguments
  arguments-Accepted arguments = any-Each Accepted (find_config_path arguments) _ (λ path.
      then-Each Counted Accepted (read_config cores documents path) _ (file-Counted path) (λ file k.
        then-Each Counted Accepted (apply_command_line_overrides cores arguments file) _
          (overrides-Each cores arguments file k)
          (λ c l. IsAccepted-Each _ (validated-IsAccepted c _ l refl))))

  configure-Served :
      (arguments : List Bytes) (help : Bool)
      → Each Served (configure cores documents arguments help)
  unfolding configure Each
  configure-Served arguments true = tt
  configure-Served arguments false =
      then-Each Accepted Served (read_arguments cores documents arguments) _
        (arguments-Accepted arguments) (λ c k. k)

  start-Served : (arguments : List Bytes) → Each Served (start cores documents arguments)
  unfolding start
  start-Served arguments = any-Each Served (need_show_help arguments) _ (configure-Served arguments)

  -- A configuration that `main` starts the server with, whatever the command line, the file and
  -- the number of cores, passes the checks of the constructor of `TcpServer`.
  pub check_options-start :
      (arguments : List Bytes) (c : AppConfig)
      → start cores documents arguments ≡ valid (serve c)
      → check_options c.network c.reactor ≡ none
  unfolding Each
  check_options-start arguments c h = subst (Each Served) h (start-Served arguments)

  -- A command line of usable settings, none of whose values stands alone and reads as `--config`:
  -- the configuration is the defaults, or else the file that the settings name, with the settings
  -- put over it one behind the other, and then checked; it is refused where two files are named.
  pub read_arguments-render :
      (ss : List (Bool × Setting))
      → All (λ (s : Bool × Setting). IsUsable s.1) ss
      → AllReadable ss
      → read_arguments cores documents (render ss)
        ≡ and_then (named none ss) (λ path.
          and_then
            (read_config cores documents path)
            (λ file. validated (effects cores ss file) (validate (effects cores ss file))))
  unfolding read_arguments and_then
  read_arguments-render ss h k = rw (find_config_path-render ss k) (
      then_cong (named none ss) _ _ (λ path.
        then_cong (read_config cores documents path) _ _ (λ file.
          ap (λ r. and_then r (λ c. validated c (validate c))) (apply-render cores ss file h))))
