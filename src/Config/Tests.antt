-- ===== src/Config/Tests.antt =====
-- Runs of src/config/config_loader.cpp.
use tinykvcache.Prelude.{◌≡◌, refl, none, some, if◌then◌else◌}
use tinykvcache.Prelude.Equality.{bytes_beq}
use tinykvcache.Prelude.Int.{pos}
use tinykvcache.Prelude.Text.{codes}
use tinykvcache.Config.{AppConfig, Document, no_section, table, valid, default_config, and_then}
use tinykvcache.Config.Loader.{load_from_file}

-- `[reactor]` with `sub_reactors = 0`, on a machine with 12 cores.
abbrev zero_reactors : Document
zero_reactors section =
    if bytes_beq section (codes "reactor")
    then table (λ key.
      if bytes_beq key (codes "sub_reactors")
      then some (record { as_string = none; as_integer = some (pos 0) })
      else none)
    else no_section

abbrev loaded : AppConfig
loaded = record default_config { reactor = record default_config.reactor { sub_reactor_count = 6 } }

zero_reactors_loads : load_from_file zero_reactors 12 ≡ valid loaded
unfolding load_from_file and_then
zero_reactors_loads = refl
