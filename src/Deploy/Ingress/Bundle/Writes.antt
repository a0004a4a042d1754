-- ===== src/Deploy/Ingress/Bundle/Writes.antt =====
-- What `write_bundle` of deploy/ingress.py leaves in the output folder.
use zhtps.Common.{
  String, ◌≡◌, ◌↔◌, refl, ◌∙◌, true, List, [], ◌∷◌, Option, none, some, ok, err, Error,
  if◌then◌else◌, All,
}
use zhtps.Deploy.Address.{Address}
use zhtps.Json.{Json}
use zhtps.Deploy.Folder.{
  Folder, Entry, directory, lookup, lift, make_folder, make_directories, refuse_existing,
  write_files, >>=-Keeps, Keeps, ◌>>◌, ◌>>=◌, after-ok,
}
use zhtps.Deploy.Folder.Laws.{
  make_folder_made, make_folder-Keeps, Spares, Holds, quiet, IsFree, refuse_existing-Keeps,
  refuse_existing_free, write_files-Keeps, write_files_free, Distinct,
}
use zhtps.Deploy.Folder.Directories.{CanMake, listed, make_directories-Keeps, make_directories_made}
use zhtps.Deploy.Ingress.{Options, validate}
use zhtps.Deploy.Ingress.Config.{nginx_config, nft_config}
use zhtps.Deploy.Ingress.Valid.{IsValid, validate_gate_iff}
use zhtps.Deploy.Ingress.Lines.{nginx_config_valid, nft_config_valid, generated}
use zhtps.Deploy.Ingress.Bundle.Written.{HasFiles, entries-HasFiles}
use zhtps.Deploy.Ingress.Bundle.{
  bundle_files, directories, write_bundle, write_new, write_generated,
}

module _ (ip_address : String → Option Address) (others : String → Folder → Folder) where
  write_new-Keeps :
      (files : List (String × String)) (name : String) (e : Entry)
      → Spares others name
      → Keeps (Holds name e) (write_new others files)
  write_new-Keeps files name e spared =
      >>=-Keeps (Holds name e) (refuse_existing files)
        (λ _. make_directories directories >> write_files others files)
        (refuse_existing-Keeps (Holds name e) files)
        (λ _.
          >>=-Keeps (Holds name e) (make_directories directories) (λ _. write_files others files)
            (make_directories-Keeps directories name e)
            (λ _. write_files-Keeps others files name e spared))

  write_generated-Keeps :
      (o : Options) (c : Option Json) (name : String) (e : Entry)
      → Spares others name
      → Keeps (Holds name e) (write_generated ip_address others o c)
  write_generated-Keeps o c name e spared =
      >>=-Keeps (Holds name e) (lift (nginx_config ip_address o))
        (λ nginx.
          lift (nft_config ip_address o) >>= λ nft. write_new others (bundle_files o c nginx nft))
        (λ _ h. h)
        (λ nginx.
          >>=-Keeps (Holds name e) (lift (nft_config ip_address o))
            (λ nft. write_new others (bundle_files o c nginx nft)) (λ _ h. h)
            (λ nft. write_new-Keeps (bundle_files o c nginx nft) name e spared))

  -- No call of the gate's `write_bundle`, successful or not, changes an entry that is in the output
  -- folder before it and that the other processes leave alone, whatever else they do.
  pub write_gate_keeps :
      (o : Options) (c : Option Json) (f : Folder) (name : String) (e : Entry)
      → Spares others name
      → lookup name f.entries ≡ some e
      → lookup name (write_bundle ip_address others o c f).1.entries ≡ some e
  unfolding write_bundle
  write_gate_keeps o c f name e spared =
      >>=-Keeps (Holds name e) (lift (validate ip_address o))
        (λ _. make_folder >> write_generated ip_address others o c) (λ _ h. h)
        (λ _.
          >>=-Keeps (Holds name e) make_folder (λ _. write_generated ip_address others o c)
            (make_folder-Keeps name e) (λ _. write_generated-Keeps o c name e spared))
        f

  -- Options that are refused leave the folder as it was.
  pub write_gate_refused :
      (o : Options) (origin_config : Option Json) (f : Folder) {e : Error}
      → validate ip_address o ≡ err e
      → write_bundle ip_address others o origin_config f ≡ (err e, f)
  unfolding write_bundle
  write_gate_refused o origin_config f h = rw h

-- None of the files is there, not even as a dangling link.
abbrev pub IsNew : Option Json → Folder → Type 0
IsNew none f =
    All (λ name. lookup name f.entries ≡ none)
      ("nginx.conf" ∷ "connections.nft" ∷ "remove-connections.nft" ∷ "limits.json" ∷ [])
IsNew (some _) f =
    All (λ name. lookup name f.entries ≡ none)
      ("nginx.conf" ∷ "connections.nft" ∷ "remove-connections.nft" ∷ "limits.json"
        ∷ "origin-config.json" ∷ [])

bundle_files-Distinct :
    (o : Options) (c : Option Json) (nginx nft : String) → Distinct (bundle_files o c nginx nft)
bundle_files-Distinct o none nginx nft = (refl, (refl, (refl, (refl, tt))))
bundle_files-Distinct o (some c) nginx nft = (refl, (refl, (refl, (refl, (refl, tt)))))

bundle_files-IsFree :
    (o : Options) (c : Option Json) (nginx nft : String) (f : Folder)
    → IsFree (bundle_files o c nginx nft) f ↔ IsNew c f
bundle_files-IsFree o none nginx nft f = (λ h. h, λ h. h)
bundle_files-IsFree o (some c) nginx nft f = (λ h. h, λ h. h)

IsNew-dir : (c : Option Json) (f : Folder) → IsNew c f → IsNew c (record f { is_dir = true })
IsNew-dir none f h = h
IsNew-dir (some _) f h = h

-- The new directories are none of the files.
IsNew-made :
    (c : Option Json) (f g : Folder)
    → ((name : String)
        → lookup name g.entries
          ≡ (if listed name directories then some directory else lookup name f.entries))
    → IsNew c f
    → IsNew c g
IsNew-made none f g same (a, (b, (c, (d, _)))) =
    (same _ ∙ a, (same _ ∙ b, (same _ ∙ c, (same _ ∙ d, tt))))
IsNew-made (some _) f g same (a, (b, (c, (d, (e, _))))) =
    (same _ ∙ a, (same _ ∙ b, (same _ ∙ c, (same _ ∙ d, (same _ ∙ e, tt)))))

module _ (ip_address : String → Option Address) where
  -- With no other process in the folder, which can be made, valid options, none of the files there, and each of the three
  -- directories free or a directory, the gate's `write_bundle` succeeds. Then nginx.conf has the text that
  -- `nginx_config` returns, connections.nft that of `nft_config`, remove-connections.nft the line that
  -- deletes the table of that name, limits.json the options and the three budgets as JSON, each under its
  -- name, and origin-config.json the snapshot, if there is one; logs, body_temp and proxy_temp are
  -- directories; and every other entry is as it was.
  pub write_gate_written :
      (o : Options) (c : Option Json) (f : Folder)
      → IsValid ip_address o
      → IsNew c f
      → CanMake directories f
      → f.refusal ≡ none
      → (nginx nft : String) × (nginx_config ip_address o ≡ ok nginx)
        × (nft_config ip_address o ≡ ok nft)
        × ((write_bundle ip_address quiet o c f).0 ≡ ok tt)
        × HasFiles o c nginx nft f (write_bundle ip_address quiet o c f).1
  unfolding write_bundle
  write_gate_written o c f v new can makes =
      let nginx = generated ip_address o v in
      let (nft, _, table) = nft_config_valid ip_address o v in
      let files = bundle_files o c nginx nft in
      let (made, result, _) = make_directories_made directories (record f { is_dir = true }) can in
      let g = (make_directories directories (record f { is_dir = true })).1 in
      let free = (bundle_files-IsFree o c nginx nft g).1 (IsNew-made c f g result new) in
      let (written, holds, _) =
        write_files_free files g (bundle_files-Distinct o c nginx nft) free in
      rw
        (
          (validate_gate_iff ip_address o).1 v,
          make_folder_made f makes,
          nginx_config_valid ip_address o v,
          table,
          refuse_existing_free files (record f { is_dir = true })
              ((bundle_files-IsFree o c nginx nft (record f { is_dir = true })).1
                (IsNew-dir c f new)),
          after-ok (make_directories directories (record f { is_dir = true }))
              (λ _. write_files quiet files) made,
        )
        (
          nginx,
          nft,
          refl,
          refl,
          written,
          entries-HasFiles o c nginx nft f (write_files quiet files g).1
              (λ name. holds name ∙ rw (result name)),
        )
