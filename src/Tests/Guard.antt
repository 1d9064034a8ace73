-- ===== src/Tests/Guard.antt =====
-- The table of srv-a's guard.
use callsignet.Base.{true, false, none, [], ◌∷◌, pos, ◌≡◌, refl, ◌||◌, all}
use callsignet.Config.{find_peer, tun_name}
use callsignet.Guard.{
  parse_mode, Guard, GuardConfig, Nft, new_guard, has_port, dedup, guard_rules, guard_config,
  keep_table, apply, insert, sort, once, drop_lines,
}
use callsignet.Guard.Verdict.{Arrival, tcp, accepts, comes_open, mode_accepts, accepts-guard_rules}
use callsignet.Guard.Life.{
  apply_call, close_call, run, life_of, promises, run-promises, refuses, keeps_shut, run-refuses,
}
use callsignet.Tests.Samples.{parsers, config_a}

abbrev shut : GuardConfig
shut = guard_config parsers config_a

-- A connection to the web service that does not come by the tunnel.
abbrev direct : Arrival
direct = record { iif = "eth0"; kind = tcp; dport = pos 8080; established = false }

abbrev works : Nft
works = record { found = true; takes = true }

abbrev held : Guard
held = keep_table (apply works (new_guard none) shut).0

accepts-guard_rules_example :
    accepts (guard_rules shut) direct
    ≡ (comes_open shut direct || mode_accepts shut direct shut.mode)
accepts-guard_rules_example = accepts-guard_rules shut direct

run-promises_example :
    life_of (run (new_guard none) (apply_call works shut ∷ close_call true ∷ []))
    ≡ promises (life_of (new_guard none)) (apply_call works shut ∷ close_call true ∷ [])
run-promises_example = run-promises (new_guard none) (apply_call works shut ∷ close_call true ∷ [])

held-refuses : (held.keep ≡ true) × (refuses held.table direct ≡ true)
unfolding keep_table apply new_guard guard_config guard_rules accepts find_peer parse_mode tun_name
    dedup once has_port insert sort drop_lines
held-refuses = (refl, refl)

shut-keeps_shut : all (keeps_shut direct) (apply_call works shut ∷ close_call true ∷ []) ≡ true
unfolding guard_config guard_rules accepts find_peer parse_mode tun_name dedup once has_port insert
    sort drop_lines
shut-keeps_shut = refl

run-refuses_example :
    refuses (run held (apply_call works shut ∷ close_call true ∷ [])).table direct ≡ true
run-refuses_example =
    run-refuses direct held (apply_call works shut ∷ close_call true ∷ []) held-refuses.0
      held-refuses.1 shut-keeps_shut
