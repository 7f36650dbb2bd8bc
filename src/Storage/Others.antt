-- ===== src/Storage/Others.antt =====
-- What a write (setWithID) leaves of the other emails, in the three layers and in the engine over them.
use mock_my_mta.Base.{
  Text, lit, ◌==◌, ◌≡◌, refl, ap, ◌∙◌, ok, err, Error, false, if◌then◌else◌, Outcome-cases,
  Option-cases, inl, inr,
}
use mock_my_mta.Std.{Std, Time}
use mock_my_mta.Multipart.Parse.{parse_email}
use mock_my_mta.Storage.Layer.{Layer}
use mock_my_mta.Storage.Memory.{Memory, memory_layer}
use mock_my_mta.Storage.Memory
use mock_my_mta.Storage.Memory.Cache.{get-set_with_id}
use mock_my_mta.Storage.Files.{Files, file_layer, file_name, no_file}
use mock_my_mta.Storage.Files
use mock_my_mta.Storage.Files.Disk.{
  KeepsApart, KeepsApart-Apart, set_with_id-Apart, set_with_id-uncreated, get_raw_body-rejected,
}
use mock_my_mta.Storage.Sqlite.{Json, Database}
use mock_my_mta.Storage.Sqlite.Table.{SqlTable, raw-insert_others}
use mock_my_mta.Storage.Physical.{Physical, in_memory, in_folder, in_database, physical_layer}
use mock_my_mta.Storage.Engine.{get_raw_email, set_with_id}
use mock_my_mta.Storage.Engine.Service.{engine_layer}
use mock_my_mta.Storage.Spared.{first_match-answers, write_until-unseen}

-- A layer in which a write, also one that fails, leaves the raw bytes of the other emails.
pub record KeepsOthers {S : Type 0} (layer : Layer S) : Type 0 where
  pub kept :
      (s : S) (id raw_email j : Text)
      → (id == j) ≡ false
      → layer.get_raw_email (layer.set_with_id s id raw_email).0 j ≡ layer.get_raw_email s j

module _ (std : Std) (now : Time) where
  memory-rejected :
      (s : Memory) (id raw_email : Text) (x : Error)
      → parse_email std raw_email ≡ err x
      → (Memory.set_with_id std s id raw_email).0 ≡ s
  unfolding Memory.set_with_id
  memory-rejected s id raw_email x fails = rw (Memory.set_with_id, fails) refl

  memory-kept :
      (s : Memory) (id raw_email j : Text)
      → (id == j) ≡ false
      → Memory.get_raw_email (Memory.set_with_id std s id raw_email).0 j ≡ Memory.get_raw_email s j
  memory-kept s id raw_email j other = elim (Outcome-cases (parse_email std raw_email)) [
    | inl (mp, parsed) ↦
        (get-set_with_id std s id raw_email mp parsed j).1
        ∙ ap (λ b. if b then ok raw_email else Memory.get_raw_email s j) other
    | inr (x, fails) ↦ ap (λ m. Memory.get_raw_email m j) (memory-rejected s id raw_email x fails)
  ]

  files-kept :
      KeepsApart std
      → (s : Files) (id raw_email j : Text) → (id == j) ≡ false
      → Files.get_raw_body std (Files.set_with_id std s id raw_email).0 j
        ≡ Files.get_raw_body std s j
  files-kept paths s id raw_email j other =
      let apart = KeepsApart-Apart std s id j paths in
      elim (Option-cases (std.create (file_name std s id))) [
        | inl created ↦ elim (Outcome-cases (parse_email std raw_email)) [
          | inl (mp, parsed) ↦
              (set_with_id-Apart std s id raw_email mp j apart created parsed).1
              ∙ ap (λ b. if b then ok raw_email else Files.get_raw_body std s j) other
          | inr (x, fails) ↦
              (get_raw_body-rejected std s id raw_email x j apart created fails).1
              ∙ ap
                  (λ b. if b then err (no_file (file_name std s j)) else Files.get_raw_body std s j)
                  other
        ]
        | inr (text, fails) ↦
            ap (λ r. Files.get_raw_body std r.0 j)
              (set_with_id-uncreated std s id raw_email text fails)
      ]

  module _ {D : Type 0} (db : Database D) (json : Json) (laws : SqlTable db)
      (paths : KeepsApart std) where
    physical-kept :
        (p : Physical D) (id raw_email j : Text)
        → (id == j) ≡ false
        → let layer = physical_layer db json std now in
          layer.get_raw_email (layer.set_with_id p id raw_email).0 j ≡ layer.get_raw_email p j
    physical-kept (in_memory s) = memory-kept s
    physical-kept (in_folder s) = files-kept paths s
    physical-kept (in_database d) = raw-insert_others db json laws std d

    -- Whichever of the three layers it is, a write leaves the other emails; for the filesystem layer if
    -- every id has its own file.
    pub physical-KeepsOthers : KeepsOthers (physical_layer db json std now)
    physical-KeepsOthers = record { kept = physical-kept }

-- An engine over layers that leave the other emails leaves them itself, whatever its tables are.
pub engine-KeepsOthers :
    {S : Type 0} (layer : Layer S) → KeepsOthers layer → KeepsOthers (engine_layer layer)
unfolding get_raw_email set_with_id
engine-KeepsOthers layer laws = record {
  kept = λ e id raw_email j other.
      first_match-answers (lit "GetRawEmail") (λ s. layer.get_raw_email s j) e.raw_layers _
        e.all_layers
        (write_until-unseen (λ s. layer.get_raw_email s j) (λ s. layer.set_with_id s id raw_email)
          (λ s. laws.kept s id raw_email j other) e.write_layers e.all_layers);
}
