-- ===== src/Deploy/Connections/Bundle.antt =====
-- `write_bundle` of deploy/connections.py.
pub mod Writes
use zhtps.Common.{String, ◌<>◌, not, List, [], ◌∷◌, Option, Result, ok, value_error, require}
use zhtps.Deploy.Address.{Address}
use zhtps.Json.{Fields, end, field, number, text, object, dumps}
use zhtps.Deploy.Folder.{
  Folder, Action, ◌>>=◌, ◌>>◌, lift, make_folder, refuse_existing, write_files,
}
use zhtps.Deploy.Connections.{Options, validate, nft_config}

-- `asdict(options)`
abbrev asdict : Options → Fields
asdict o = field "listen_address" (text o.listen_address) (
    field "listen_port" (number o.listen_port) (
      field "interface" (text o.interface) (
        field "connection_rate" (number o.connection_rate) (
          field "connection_burst" (number o.connection_burst) (
            field "reset_rate" (number o.reset_rate)
              (field "reset_burst" (number o.reset_burst) (field "table" (text o.table) end)))))))

-- The files, by name, once the table's text is there.
abbrev pub bundle_files : Options → String → List (String × String)
bundle_files o nft =
    ("connections.nft", nft)
    ∷ ("remove-connections.nft", "delete table inet " <> o.table <> "\n")
    ∷ ("limits.json", dumps 0 (object (asdict o)) <> "\n")
    ∷ []

module _ (ip_address : String → Option Address) (others : String → Folder → Folder) where
  unfoldable pub write_bundle : Options → Action (Unit {0})
  write_bundle o = do
    lift (validate ip_address o)
    nft ← lift (nft_config ip_address o)
    refuse_existing (bundle_files o nft)
    make_folder
    write_files others (bundle_files o nft)
