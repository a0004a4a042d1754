-- ===== src/Deploy/Connections/Bundle/Writes.antt =====
-- What `write_bundle` of deploy/connections.py leaves in the output folder.
use zhtps.Json.{Json, object, fields_of, text, number, dumps}
use zhtps.Common.{
  if◌then◌else◌, ◌∷◌, [], ◌↔◌, refl, ok, String, ◌≡◌, Option, some, err, Error, All, none, ok, true,
  ◌∙◌, ap, ◌<>◌,
}
use zhtps.Deploy.Address.{Address, is_v6}
use zhtps.Deploy.Folder.{
  after-eq-ok, Folder, Entry, lookup, lift, make_folder, write_files, >>=-Keeps, refuse_existing,
  file,
}
use zhtps.Deploy.Folder.Laws.{
  make_folder_made, make_folder-Keeps, unless_refused-eq-ok, quiet, or_old, write_files_free,
  write_files-eq-ok, refuse_existing_free, Spares, Holds, refuse_existing-Keeps, write_files-Keeps,
  quiet, wanted_other, IsOther,
}
use zhtps.Deploy.Connections.{Options, validate, nft_config, table_text}
use zhtps.Deploy.Connections.Valid.{IsValid, validate_iff}
use zhtps.Deploy.Connections.Bundle.{bundle_files, write_bundle}

module _ (ip_address : String → Option Address) (others : String → Folder → Folder) where
  -- No call of the listener's `write_bundle`, successful or not, changes an entry that is in the
  -- output folder before it and that the other processes leave alone, whatever else they do.
  pub write_bundle_keeps :
      (o : Options) (f : Folder) (name : String) (e : Entry)
      → Spares others name
      → lookup name f.entries ≡ some e
      → lookup name (write_bundle ip_address others o f).1.entries ≡ some e
  unfolding write_bundle
  write_bundle_keeps o f name e spared =
      >>=-Keeps (Holds name e) (lift (validate ip_address o)) _ (λ _ h. h)
        (λ _.
          >>=-Keeps (Holds name e) (lift (nft_config ip_address o)) _ (λ _ h. h)
            (λ nft.
              let files = bundle_files o nft in
              >>=-Keeps (Holds name e) (refuse_existing files) _ (refuse_existing-Keeps _ files)
                (λ _.
                  >>=-Keeps (Holds name e) make_folder (λ _. write_files others files)
                    (make_folder-Keeps name e)
                    (λ _. write_files-Keeps others files name e spared))))
        f

  -- A refused configuration leaves the folder as it was.
  pub write_bundle_refused :
      (o : Options) (f : Folder) {e : Error}
      → validate ip_address o ≡ err e
      → write_bundle ip_address others o f ≡ (err e, f)
  unfolding write_bundle
  write_bundle_refused o f h = rw h

-- None of the three files is there, not even as a dangling link.
abbrev pub IsNew : Folder → Type 0
IsNew f =
    All (λ name. lookup name f.entries ≡ none)
      ("connections.nft" ∷ "remove-connections.nft" ∷ "limits.json" ∷ [])

-- The options as JSON, each under its field's name.
abbrev pub options_json : Options → Json
options_json o = object (
    fields_of (
      ("listen_address", text o.listen_address)
      ∷ ("listen_port", number o.listen_port)
      ∷ ("interface", text o.interface)
      ∷ ("connection_rate", number o.connection_rate)
      ∷ ("connection_burst", number o.connection_burst)
      ∷ ("reset_rate", number o.reset_rate)
      ∷ ("reset_burst", number o.reset_burst)
      ∷ ("table", text o.table)
      ∷ []))

-- A folder `g` that has the three files, with this text of the table, beside what `f` has.
abbrev pub HasFiles : Options → String → Folder → Folder → Type 0
HasFiles o nft f g =
    (g.is_dir ≡ true)
    × (lookup "connections.nft" g.entries ≡ some (file nft))
    × (lookup "remove-connections.nft" g.entries
        ≡ some (file ("delete table inet " <> o.table <> "\n")))
    × (lookup "limits.json" g.entries ≡ some (file (dumps 0 (options_json o) <> "\n")))
    × ((name : String)
        → IsOther name ("connections.nft" ∷ "remove-connections.nft" ∷ "limits.json" ∷ [])
        → lookup name g.entries ≡ lookup name f.entries)

module _ (ip_address : String → Option Address) where
  pub nft_config_valid :
      (o : Options) → IsValid ip_address o → (nft : String) × (nft_config ip_address o ≡ ok nft)
  unfolding nft_config
  nft_config_valid o v = (
    table_text o (if is_v6 v.address then "ip6" else "ip"),
    rw ((validate_iff ip_address o).1 v, v.parsed),
  )

  -- With no other process in the folder, which can be made, valid options, and none of the three files
  -- there, the listener's `write_bundle` succeeds. The folder is then a directory, where connections.nft has the
  -- table that `nft_config` returns, remove-connections.nft the line that deletes the table of that name,
  -- and limits.json the options as JSON, each under its field's name; every other entry is as it was.
  pub write_bundle_written :
      (o : Options) (f : Folder)
      → IsValid ip_address o
      → IsNew f
      → f.refusal ≡ none
      → (nft : String) × (nft_config ip_address o ≡ ok nft)
        × ((write_bundle ip_address quiet o f).0 ≡ ok tt)
        × HasFiles o nft f (write_bundle ip_address quiet o f).1
  unfolding write_bundle
  write_bundle_written o f v new makes =
      let (nft, table) = nft_config_valid o v in
      let files = bundle_files o nft in
      let (done, result, dir) =
        write_files_free files (record f { is_dir = true }) (refl, (refl, (refl, tt))) new in
      rw
        (
          (validate_iff ip_address o).1 v,
          table,
          refuse_existing_free files f new,
          make_folder_made f makes,
        )
        (
          nft,
          refl,
          done,
          (
            dir,
            result "connections.nft",
            result "remove-connections.nft",
            result "limits.json",
            λ name other.
                result name
                ∙ ap (λ e. or_old e (lookup name f.entries)) (wanted_other name files other),
          ),
        )

  -- With no other process in the folder, the listener's `write_bundle` succeeds exactly if the options
  -- are valid, none of its three files is there, not even as a dangling link, and making the folder is not
  -- refused.
  pub write_bundle_iff :
      (o : Options) (f : Folder)
      → ((write_bundle ip_address quiet o f).0 ≡ ok tt)
        ↔ (IsValid ip_address o × IsNew f × (f.refusal ≡ none))
  unfolding write_bundle refuse_existing
  write_bundle_iff o f = (to, λ (v, new, makes). (write_bundle_written o f v new makes).2)
    where
      to :
          (write_bundle ip_address quiet o f).0 ≡ ok tt
          → IsValid ip_address o × IsNew f × (f.refusal ≡ none)
      to h =
          let (_, valid, h1) = after-eq-ok (lift (validate ip_address o) f) _ h in
          let (nft, _, h2) = after-eq-ok (lift (nft_config ip_address o) f) _ h1 in
          let (_, _, h3) = after-eq-ok (refuse_existing (bundle_files o nft) f) _ h2 in
          let (_, made, h4) =
            after-eq-ok (make_folder f) (λ _. write_files quiet (bundle_files o nft)) h3 in
          let makes = unless_refused-eq-ok f.refusal f made in
          (
            (validate_iff ip_address o).0 valid,
            write_files-eq-ok (bundle_files o nft) (record f { is_dir = true })
                (rw (make_folder_made f makes) at h4),
            makes,
          )
