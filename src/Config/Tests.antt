-- ===== src/Config/Tests.antt =====
-- Runs of config.go on small inputs.
use fogping.Prelude.{◌<◌, ◌≡◌, refl, [], codes}
use fogping.Prelude.Int.{pos, ◌≤ℤ◌}
use fogping.Prelude.Result.{ok, err}
use fogping.Strings.{is_control, byte_len, trim_space, itoa, join_host_port}
use fogping.Config.{
  TargetCfg, port_range, icmp, tcp, fast, normalize_target, trim_fields, check_port, bad_host,
  check_pace, bad_interval, bad_name, default_name, target_addr, IsNormal, default_config,
}
use fogping.Config.Normal.{normalize_target-IsNormal}
use fogping.Config.Faults.{normalize_target-err, Violates}
use fogping.Config.Pace.{probe_params, probe_params_bounds}

abbrev pub raw_site : TargetCfg
raw_site = record {
  id = 0;
  name = codes " site ";
  type = [];
  host = codes " example.org ";
  port = pos 9;
  pace = codes "normal";
  interval_sec = pos 0;
}

abbrev pub site : TargetCfg
site = record {
  id = 0;
  name = codes "site";
  type = icmp;
  host = codes "example.org";
  port = pos 0;
  pace = [];
  interval_sec = pos 0;
}

abbrev pub raw_shop : TargetCfg
raw_shop = record {
  id = 0;
  name = [];
  type = tcp;
  host = codes "shop.example";
  port = pos 443;
  pace = fast;
  interval_sec = pos 0;
}

abbrev pub shop : TargetCfg
shop = record raw_shop { name = codes "shop.example:443" }

abbrev no_port : TargetCfg
no_port = record raw_shop { port = pos 0 }

site-ok : normalize_target raw_site ≡ ok site
unfolding normalize_target trim_fields check_port bad_host check_pace bad_interval bad_name
    default_name target_addr trim_space byte_len is_control
site-ok = refl

shop-ok : normalize_target raw_shop ≡ ok shop
unfolding normalize_target trim_fields check_port bad_host check_pace bad_interval bad_name
    default_name target_addr trim_space byte_len is_control join_host_port itoa
shop-ok = refl

no_port-err : normalize_target no_port ≡ err port_range
unfolding normalize_target trim_fields check_port trim_space
no_port-err = refl

pub site-IsNormal : IsNormal site
site-IsNormal = normalize_target-IsNormal raw_site site site-ok

pub shop-IsNormal : IsNormal shop
shop-IsNormal = normalize_target-IsNormal raw_shop shop shop-ok

normalize_target-IsNormal_example : IsNormal shop
normalize_target-IsNormal_example = normalize_target-IsNormal raw_shop shop shop-ok

normalize_target-err_example : Violates (trim_fields no_port) port_range
normalize_target-err_example = normalize_target-err no_port port_range no_port-err

probe_params_bounds_example :
    (pos 1 ≤ℤ (probe_params shop default_config.probe).0)
    × ((probe_params shop default_config.probe).0 ≤ℤ pos 86400)
    × (0 < (probe_params shop default_config.probe).1)
probe_params_bounds_example = probe_params_bounds shop shop-IsNormal
