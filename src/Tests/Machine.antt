-- ===== src/Tests/Machine.antt =====
-- A reload of the whole machine of srv-a, on which nft takes every batch.
use callsignet.Base.{ℕ, true, Option, none, some, [], ◌∷◌, ◌≡◌, refl, find, put, contains, list_beq}
use callsignet.Config.{Config}
use callsignet.Guard.{Nft, new_guard, guard_config}
use callsignet.Nat.Table.{new_nat}
use callsignet.Config.Diff.{Changes, diff}
use callsignet.Device.{Device, Snapshot, begin}
use callsignet.Reload.{reload, reloaded}
use callsignet.Reload.Machine.{Machine, parts, Works, reload-Holds}
use callsignet.Tests.Checks.{host_a, config_v, as_found}
use callsignet.Tests.Reload.{config_before}
use callsignet.Tests.Samples.{rules_a}
use callsignet.Tests.Wg.{hex}
use callsignet.Tests.Device.{set, ask}

abbrev willing : Machine ℕ → Nft
willing m = record { found = true; takes = true }

abbrev snap_before : Snapshot
snap_before = record {
  cfg = config_before;
  pub_of = ("srv-b", "bb") ∷ [];
  known = "192.0.2.7:51820" ∷ [];
  psk = [];
}

abbrev before : Machine ℕ
before = record {
  dev = begin config_before snap_before rules_a 8;
  guard = new_guard none;
  nat = new_nat none;
}

abbrev changes : Changes
changes = diff as_found config_before config_v

reload_done :
    (reload
      (parts set host_a hex as_found ask willing willing)
      host_a
      as_found
      config_before
      (some config_v)
      before).1.1
    ≡ reloaded changes
unfolding callsignet.Config.Diff.any_change callsignet.Config.Diff.same_ints
    callsignet.Config.Diff.same_self callsignet.Config.Diff.same_services
    callsignet.Config.Diff.same_peer callsignet.Config.Diff.same_inbounds
    callsignet.Config.Diff.same_policy callsignet.Config.Diff.by_id callsignet.Config.Diff.psk_round
    callsignet.Config.Diff.psk_walk callsignet.Config.Diff.removed_from
    callsignet.Config.Diff.diff_peer callsignet.Config.Diff.diff_peers
    callsignet.Config.Diff.changed_psk callsignet.Config.Diff.diff callsignet.Reload.apply_parts
    callsignet.Reload.settle callsignet.Reload.reload_with callsignet.Reload.reload
    callsignet.Guard.parse_mode callsignet.Guard.has_port callsignet.Guard.insert
    callsignet.Guard.sort callsignet.Guard.once callsignet.Guard.dedup callsignet.Guard.keep_lines
    callsignet.Guard.drop_lines callsignet.Guard.guard_rules callsignet.Guard.new_guard
    callsignet.Guard.check callsignet.Guard.remove_table callsignet.Guard.apply
    callsignet.Guard.guard_config callsignet.Nat.Table.new_nat callsignet.Nat.Table.check
    callsignet.Nat.Table.remove_table callsignet.Nat.Table.apply callsignet.Nat.parse_outgoing
    callsignet.Nat.parse_incoming callsignet.Nat.is_nothing callsignet.Nat.steer_ports
    callsignet.Nat.steer_reals callsignet.Nat.steer_peers callsignet.Nat.present_peers
    callsignet.Nat.nat_rules callsignet.Nat.add_nat_peer callsignet.Nat.add_nat_peers
    callsignet.Nat.nat_config callsignet.Device.add_peer callsignet.Device.add_snapshot
    callsignet.Device.new_snapshot callsignet.Device.prepare callsignet.Device.install
    callsignet.Device.send callsignet.Device.reload_device callsignet.Wg.same_endpoint
    callsignet.Wg.peers_by_id callsignet.Wg.unchanged callsignet.Wg.key_to_hex
    callsignet.Wg.write_psk callsignet.Wg.peer_lines callsignet.Wg.gone_lines
    callsignet.Wg.reload_each callsignet.Wg.uapi_reload callsignet.Secrets.Psk.psk_errors
    callsignet.Secrets.Psk.psks callsignet.Policy.Compile.cut callsignet.Policy.Compile.add_services
    callsignet.Policy.Compile.name_ports callsignet.Policy.Compile.port_at
    callsignet.Policy.Compile.add_all callsignet.Policy.Compile.add_rule
    callsignet.Policy.Compile.add_target callsignet.Policy.Compile.add_peers
    callsignet.Policy.Compile.add_cidrs callsignet.Policy.Compile.parse_expires
    callsignet.Policy.Compile.make_rule callsignet.Policy.Compile.add_inbounds
    callsignet.Policy.Compile.add_outbounds callsignet.Policy.Compile.new callsignet.Config.tun_name
    callsignet.Config.find_peer callsignet.Config.add_real callsignet.Config.add_addresses
    callsignet.Config.add_endpoints callsignet.Config.real_ips callsignet.Config.Own.keep_problems
    callsignet.Config.Own.check_guard callsignet.Config.Own.check_nat
    callsignet.Config.Own.prefixes_of callsignet.Config.Own.interface_prefixes
    callsignet.Config.Own.local_prefixes callsignet.Config.Own.overlap_problems
    callsignet.Config.Own.check_tunnel_cidr callsignet.Config.Own.check_self
    callsignet.Config.Roster.public_key callsignet.Config.Roster.claim
    callsignet.Config.Roster.check_key callsignet.Config.Roster.check_ip
    callsignet.Config.Roster.check_endpoints callsignet.Config.Roster.check_addresses
    callsignet.Config.Roster.claim_real callsignet.Config.Roster.check_reals
    callsignet.Config.Roster.port_owner callsignet.Config.Roster.check_service
    callsignet.Config.Roster.check_services callsignet.Config.Roster.check_peer
    callsignet.Config.Roster.check_each callsignet.Config.Roster.check_real_ip
    callsignet.Config.Roster.check_listed callsignet.Config.Roster.check_peers
    callsignet.Config.Rules.has_app callsignet.Config.Rules.allow_problems
    callsignet.Config.Rules.cidr_problems callsignet.Config.Rules.expires_problems
    callsignet.Config.Rules.app_problems callsignet.Config.Rules.inbound_problems
    callsignet.Config.Rules.target_problems callsignet.Config.Rules.outbound_problems
    callsignet.Config.Rules.check_policy callsignet.Config.Keys.check_pair
    callsignet.Config.Keys.check_key_pair callsignet.Config.Keys.psk_problems
    callsignet.Config.Keys.psk_each callsignet.Config.Keys.check_psk callsignet.Config.Keys.validate
    callsignet.Config.Labels.encode callsignet.Config.Labels.bytes
    callsignet.Config.Labels.check_iface callsignet.Config.Labels.check_label
    callsignet.Net.addr_beq callsignet.Net.unmap callsignet.Net.prefix_contains
    callsignet.Net.masked callsignet.Net.prefix_of callsignet.Net.overlaps find put contains
    list_beq
reload_done = refl

reload-Holds_example :
    let (live', (m', a)) =
      reload
        (parts set host_a hex as_found ask willing willing)
        host_a
        as_found
        config_before
        (some config_v)
        before in
    (◌≡◌ {A = Option Config} (some config_v) (some live'))
    × Works set host_a hex as_found ask willing willing live' m'
reload-Holds_example =
    reload-Holds set host_a hex as_found ask willing willing config_before (some config_v) before
      changes reload_done
