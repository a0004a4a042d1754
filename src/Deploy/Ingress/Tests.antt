-- ===== src/Deploy/Ingress/Tests.antt =====
-- The theorems about deploy/ingress.py at concrete options.
use zhtps.Common.{Option, ℤ, inl, ◌≡◌, ◌↔◌, refl, some, none, ok, newlines, check_all, pos, String}
use zhtps.Deploy.Names.{has_zone, is_interface_name, is_table_name, require_each}
use zhtps.Deploy.Folder.{file, lookup}
use zhtps.Deploy.Folder.Laws.{quiet}
use zhtps.Deploy.Samples.{known_address, gate, empty_folder, old_folder, known_address-KeepsLine}
use zhtps.Deploy.Ingress.{
  validate, explicit_unicast, network_checks, capacity_checks, connection_budget, active_budget,
  idle_per_worker,
}
use zhtps.Deploy.Ingress.Valid.{IsValid, Balances, validate_gate_iff, validate-Balances}
use zhtps.Deploy.Ingress.Config.{nginx_config, nft_config}
use zhtps.Deploy.Ingress.Lines.{
  Agree, generated, nginx_config_valid, generators-Agree, nginx_config_lines,
}
use zhtps.Deploy.Ingress.Bundle.{write_bundle}
use zhtps.Deploy.Ingress.Bundle.Written.{HasFiles}
use zhtps.Deploy.Ingress.Bundle.Writes.{write_gate_keeps, write_gate_written}
use zhtps.Deploy.Ingress.Merge.{
  Snapshot, Given, origin_numbers, origin_numbers_iff, Consistent, first_given,
}

gate_passes : validate known_address gate ≡ ok tt
unfolding validate explicit_unicast has_zone check_all network_checks is_interface_name
    is_table_name require_each capacity_checks connection_budget active_budget idle_per_worker
gate_passes = refl

abbrev gate_valid : IsValid known_address gate
gate_valid = (validate_gate_iff known_address gate).0 gate_passes

validate-Balances_example : Balances gate
validate-Balances_example = validate-Balances known_address gate gate_passes

validate_gate_iff_example : (validate known_address gate ≡ ok tt) ↔ IsValid known_address gate
validate_gate_iff_example = validate_gate_iff known_address gate

-- A file of an earlier configuration stays.
write_gate_keeps_example :
    lookup "limits.json" (write_bundle known_address quiet gate none old_folder).1.entries
    ≡ some (file "{}\n")
write_gate_keeps_example =
    write_gate_keeps known_address quiet gate none old_folder "limits.json" (file "{}\n")
      (λ step f. refl) refl

write_gate_written_example :
    (nginx nft : String) × (nginx_config known_address gate ≡ ok nginx)
    × (nft_config known_address gate ≡ ok nft)
    × ((write_bundle known_address quiet gate none empty_folder).0 ≡ ok tt)
    × HasFiles gate none nginx nft empty_folder
        (write_bundle known_address quiet gate none empty_folder).1
write_gate_written_example =
    write_gate_written known_address gate none empty_folder gate_valid
      (refl, (refl, (refl, (refl, tt)))) (inl refl, (inl refl, (inl refl, tt))) refl

generators-Agree_example :
    Agree (ok tt) (nginx_config known_address gate) (nft_config known_address gate)
generators-Agree_example = generators-Agree known_address gate (ok tt) gate_passes

nginx_config_lines_example : newlines (generated known_address gate gate_valid) ≡ 53
nginx_config_lines_example =
    nginx_config_lines known_address gate (generated known_address gate gate_valid)
      known_address-KeepsLine (nginx_config_valid known_address gate gate_valid)

abbrev snapshot : Snapshot
snapshot = record { workers = some (some (pos 2)); max_connections = some none; max_active = none }

abbrev command_line : Given
command_line = record { workers = none; slots = some (pos 512); active = some (pos 100) }

origin_numbers_iff_example :
    (origin_numbers (some snapshot) command_line ≡ ok (pos 2, pos 512, some (pos 100))) ↔ (
      (workers slots : Option ℤ) × (snapshot.workers ≡ some workers)
      × (snapshot.max_connections ≡ some slots)
      × Consistent command_line.workers workers
      × Consistent command_line.slots slots
      × Consistent command_line.active snapshot.max_active
      × (some (pos 2) ≡ first_given command_line.workers workers)
      × (some (pos 512) ≡ first_given command_line.slots slots)
      × (some (pos 100) ≡ first_given command_line.active snapshot.max_active))
origin_numbers_iff_example =
    origin_numbers_iff snapshot command_line (pos 2) (pos 512) (some (pos 100))

origin_numbers_test :
    origin_numbers (some snapshot) command_line ≡ ok (pos 2, pos 512, some (pos 100))
unfolding origin_numbers
origin_numbers_test = refl
