-- ===== src/Deploy/Connections/Tests.antt =====
-- The theorems about deploy/connections.py at concrete options.
use zhtps.Common.{◌≡◌, ◌↔◌, refl, some, ok, newlines, String, none}
use zhtps.Deploy.Names.{has_zone, is_interface_name, is_table_name, require_each}
use zhtps.Deploy.Folder.{file, lookup}
use zhtps.Deploy.Folder.Laws.{quiet}
use zhtps.Deploy.Samples.{
  known_address, listener, empty_folder, old_folder, known_address-KeepsLine,
}
use zhtps.Deploy.Connections.{validate, nft_config}
use zhtps.Deploy.Connections.Valid.{IsValid, validate_iff}
use zhtps.Deploy.Connections.Lines.{nft_config_lines}
use zhtps.Deploy.Connections.Bundle.{write_bundle}
use zhtps.Deploy.Connections.Bundle.Writes.{
  IsNew, write_bundle_keeps, write_bundle_iff, write_bundle_written, HasFiles, nft_config_valid,
}

listener_passes : validate known_address listener ≡ ok tt
unfolding validate has_zone is_interface_name is_table_name require_each
listener_passes = refl

abbrev listener_valid : IsValid known_address listener
listener_valid = (validate_iff known_address listener).0 listener_passes

-- A file of an earlier configuration stays.
write_bundle_keeps_example :
    lookup "limits.json" (write_bundle known_address quiet listener old_folder).1.entries
    ≡ some (file "{}\n")
write_bundle_keeps_example =
    write_bundle_keeps known_address quiet listener old_folder "limits.json" (file "{}\n")
      (λ step f. refl) refl

write_bundle_iff_example :
    ((write_bundle known_address quiet listener empty_folder).0 ≡ ok tt)
    ↔ (IsValid known_address listener × IsNew empty_folder × (empty_folder.refusal ≡ none))
write_bundle_iff_example = write_bundle_iff known_address listener empty_folder

write_bundle_written_example :
    (nft : String) × (nft_config known_address listener ≡ ok nft)
    × ((write_bundle known_address quiet listener empty_folder).0 ≡ ok tt)
    × HasFiles listener nft empty_folder (write_bundle known_address quiet listener empty_folder).1
write_bundle_written_example =
    write_bundle_written known_address listener empty_folder listener_valid
      (refl, (refl, (refl, tt))) refl

nft_config_lines_example : newlines (nft_config_valid known_address listener listener_valid).0 ≡ 16
nft_config_lines_example =
    nft_config_lines known_address listener
      (nft_config_valid known_address listener listener_valid).0 known_address-KeepsLine
      (nft_config_valid known_address listener listener_valid).1
