-- ===== src/Tests/Reload.antt =====
-- A reload on a machine whose parts take every configuration.
use callsignet.Base.{true, some, [], refl, ◌≡◌}
use callsignet.Config.{Config}
use callsignet.Guard.{GuardConfig, guard_config}
use callsignet.Nat.{NatConfig, nat_config}
use callsignet.Reload.{Parts, reload}
use callsignet.Reload.Agree.{Follows, Settled, reload-Settled}
use callsignet.Tests.Checks.{host_a, config_v, tunnel_parsers}

-- What each part follows.
record Machine : Type 0 where
  dev : Config
  guard : GuardConfig
  nat : NatConfig

abbrev willing : Parts Machine
willing = record {
  dev_reload = λ c s. (record s { dev = c }, true);
  guard_check = λ g s. true;
  guard_apply = λ g s. (record s { guard = g }, true);
  nat_check = λ n s. true;
  nat_apply = λ n s. (record s { nat = n }, true);
}

willing-Follows : Follows willing
willing-Follows = record {
  IsDev = λ c s. s.dev ≡ c;
  IsGuard = λ g s. s.guard ≡ g;
  IsNat = λ n s. s.nat ≡ n;
  dev_sets = λ c s done. refl;
  guard_sets = λ g s done. refl;
  nat_sets = λ n s done. refl;
  guard_keeps_dev = λ g c s same. same;
  nat_keeps_dev = λ n c s same. same;
  nat_keeps_guard = λ n g s same. same;
}

-- The configuration before: nothing may go out.
abbrev pub config_before : Config
config_before = record config_v {
  policy = record { inbound = config_v.policy.inbound; outbound = [] };
}

abbrev machine_before : Machine
machine_before = record {
  dev = config_before;
  guard = guard_config tunnel_parsers config_before;
  nat = nat_config tunnel_parsers config_before;
}

reload-Settled_example :
    let (live', (s', a)) =
      reload willing host_a (λ names. names) config_before (some config_v) machine_before in
    Settled willing willing-Follows host_a
      (λ names. names)
      config_before
      (some config_v)
      machine_before
      live'
      s'
      a
reload-Settled_example =
    reload-Settled willing willing-Follows host_a (λ names. names) config_before (some config_v)
      machine_before
