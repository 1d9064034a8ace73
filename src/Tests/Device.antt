-- ===== src/Tests/Device.antt =====
-- The device of srv-a, opened and reloaded.
use callsignet.Base.{
  ℕ, ◌+◌, ◌≡◌, ◌⊎◌, ◌||◌, refl, Bool, true, not, Option, none, some, List, [], ◌∷◌, length, find,
  put, contains, string_key, ok,
}
use callsignet.Net.{masked, addr_beq, addr_key}
use callsignet.Config.{Config, find_peer}
use callsignet.Policy.{target_key}
use callsignet.Policy.Compile.{
  cut, add_services, name_ports, port_at, add_all, add_rule, add_target, add_peers, add_cidrs,
  parse_expires, make_rule, add_inbounds, add_outbounds, new,
}
use callsignet.Flow.{flow_as_key}
use callsignet.Filter.{Moment, allow_in, allow_out}
use callsignet.Filter.Bounds.{IsBounded}
use callsignet.Secrets.Psk.{psks, psk_errors}
use callsignet.Wg.{
  Line, uapi_config, config_lines, uapi_reload, reload_each, peers_by_id, gone_lines, peer_lines,
  write_psk, unchanged, same_endpoint, key_to_hex,
}
use callsignet.Device.{
  DeviceError, psk_unreadable, set_refused, Device, Snapshot, add_peer, add_snapshot, new_snapshot,
  start, begin, open_device, prepare, send, reload_device,
}
use callsignet.Device.Revoke.{asked}
use callsignet.Device.Kept.{lets_stay, reload_device-passes}
use callsignet.Filter.Intent.{lets_from, lets_to}
use callsignet.Device.Settled.{IsSettled, reload_device-fails}
use callsignet.Device.Life.{Step, writes, reloads, run, run-open_device}
use callsignet.Device.Fresh.{Question}
use callsignet.Tests.Samples.{config_a, config_open, rules_a}
use callsignet.Tests.Packets.{syn, syn_packet, syn_parsed}
use callsignet.Tests.Checks.{host_a, as_found}
use callsignet.Tests.Flows.{moment, same_order-IsWalk}
use callsignet.Tests.Wg.{hex}
use callsignet.Status.{parse_status}
use callsignet.Tests.Status.{parse_int, said}

abbrev snap_a : Snapshot
snap_a = record {
  cfg = config_a;
  pub_of = ("srv-b", "bb") ∷ [];
  known = "192.0.2.7:51820" ∷ [];
  psk = [];
}

-- wg counts the lines that it took.
abbrev pub set : List Line → ℕ → ℕ × Bool
set lines n = (n + length lines, true)

abbrev device_a : Device ℕ
device_a = begin config_a snap_a rules_a 8

opened :
    open_device set host_a hex as_found (some 0) (λ n. true) (λ p c. true) config_a ≡ ok device_a
unfolding open_device start find_peer new_snapshot add_snapshot add_peer psks psk_errors uapi_config
    config_lines peer_lines write_psk key_to_hex new cut add_services name_ports port_at add_all
    add_rule add_target add_peers add_cidrs parse_expires make_rule add_inbounds add_outbounds find
    put contains masked addr_beq
opened = refl

-- The times and rules of a reload; wg is not asked for addresses.
abbrev pub ask : Device ℕ → Moment
ask d = moment 20

abbrev step_in : Step ℕ
step_in = writes (λ i. moment (5 + i)) (syn ∷ [])

abbrev steps : List (Step ℕ)
steps = step_in ∷ reloads ask config_open ∷ []

run-open_device_example :
    IsSettled host_a hex (run set host_a hex as_found (parse_status parse_int) device_a steps)
    × IsBounded (run set host_a hex as_found (parse_status parse_int) device_a steps).flt
run-open_device_example =
    run-open_device set host_a hex as_found (parse_status parse_int) (some 0) (λ n. true)
      (λ p c. true) config_a steps opened ((λ i. same_order-IsWalk), (tt, tt))

reloaded_open : (reload_device set host_a hex as_found ask device_a config_open).1 ≡ none
unfolding reload_device prepare send new_snapshot add_snapshot add_peer psks psk_errors uapi_reload
    reload_each peers_by_id gone_lines peer_lines write_psk unchanged same_endpoint key_to_hex new
    cut add_services name_ports port_at add_all add_rule add_target add_peers add_cidrs
    parse_expires make_rule add_inbounds add_outbounds find_peer find put contains masked addr_beq
reloaded_open = refl

abbrev device_o : Device ℕ
device_o = (reload_device set host_a hex as_found ask device_a config_open).0

-- The rules are those that the reload stored.
abbrev later : Moment
later = record (moment 30) { rules = device_o.rules }

abbrev stays : Bool
stays =
    lets_stay host_a.parsers config_open (asked set host_a hex as_found ask device_a device_o)
      syn_packet.dst syn_packet.src syn_packet.proto syn_packet.src_port

reload_device-passes_example :
    ((not (allow_in later device_o.flt syn).1
        || (lets_from host_a.parsers config_open later syn_packet.src syn_packet.proto
              syn_packet.dst_port
            || stays))
      ≡ true)
    × ((not (allow_out later device_o.flt syn).1.1
          || (lets_to host_a.parsers config_open later syn_packet.dst syn_packet.proto
                syn_packet.dst_port
              || stays))
        ≡ true)
reload_device-passes_example =
    reload_device-passes set host_a hex as_found ask device_a config_open later syn syn_packet
      reloaded_open refl syn_parsed

-- The file of srv-b's pre-shared key cannot be read.
abbrev config_bad : Config
config_bad = record config_a {
  secrets = record { private = "K"; private_err = none; psk = []; psk_err = ("srv-b", "bad") ∷ [] };
}

abbrev device_bad : Device ℕ × Option DeviceError
device_bad = reload_device set host_a hex as_found ask device_a config_bad

refused_bad : device_bad.1 ≡ some (psk_unreadable "bad")
unfolding reload_device prepare new_snapshot psks psk_errors find
refused_bad = refl

reload_device-fails_example :
    (device_bad.0 ≡ record device_a { wg = device_bad.0.wg })
    × ((psk_unreadable "bad" ≡ set_refused) ⊎ (device_bad.0 ≡ device_a))
reload_device-fails_example =
    reload_device-fails set host_a hex as_found ask device_a config_bad refused_bad

abbrev asks_at : ℕ → Question
asks_at now = record { now = now; state = some said; snap = snap_a }
