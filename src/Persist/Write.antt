-- ===== src/Persist/Write.antt =====
-- What is on the disk after a write.
use kaven_dns.Persist.Defs.{whole, removed, absent, write_json, Disk, Outcome}
use kaven_dns.Prelude.{none, some, true, false, arith, ◌≡◌, ◌⊎◌}

module _ {ℓ} {A : Type ℓ} (o : Outcome) (value : A) (d : Disk A) where
  -- A write that reports success leaves the new value in the file and no temporary file.
  pub write_json_ok :
      (write_json o value d).1 ≡ true
      → ((write_json o value d).0.file ≡ some value) × ((write_json o value d).0.temporary ≡ absent)
  unfolding write_json
  write_json_ok h = ground arith

  -- The file never holds anything but the old value, the new value, or nothing. It is lost in one case
  -- only, which reports an error: the first rename fails, the removal of the old file succeeds and the second
  -- rename fails; then the new value is left in the temporary file.
  pub write_json_file :
      ((write_json o value d).0.file ≡ d.file)
      ⊎ ((write_json o value d).0.file ≡ some value)
      ⊎ (((write_json o value d).0.file ≡ none)
          × ((write_json o value d).1 ≡ false)
          × (o.renamed ≡ false)
          × (o.removal ≡ removed)
          × (o.renamed_again ≡ false)
          × ((write_json o value d).0.temporary ≡ whole value))
  unfolding write_json
  write_json_file = ground arith

  -- Success means the new value; failure means the old value or none.
  pub write_json-cases :
      (((write_json o value d).1 ≡ true) × ((write_json o value d).0.file ≡ some value))
      ⊎ (((write_json o value d).1 ≡ false)
          × (((write_json o value d).0.file ≡ d.file) ⊎ ((write_json o value d).0.file ≡ none)))
  unfolding write_json
  write_json-cases = ground arith
