-- ===== src/Config/Updates.antt =====
-- The store: a change takes effect whole or not at all.
-- Whether the value in memory is clean, and the file holds it if there is a file.
use kaven_dns.Config.Defs.{settle, refused, update, write_failed, sanitize, Config, replace, Store}
use kaven_dns.Config.Sanitize.{sanitize_idem, sanitize-IsClean, IsClean}
use kaven_dns.Persist.{Outcome}
use kaven_dns.Persist.Write.{write_json-cases}
use kaven_dns.Prelude.{none, some, inl, inr, refl, arith, ◌≡◌, Text, sym, ap, ◌∙◌, ◌⊎◌}

pub record IsValid (s : Store) : Type 0 where
  pub clean : IsClean s.value
  pub on_disk : (s.disk.file ≡ none) ⊎ (s.disk.file ≡ some s.value)

module _ (o : Outcome) (s : Store) where
  -- A `Replace` that succeeds puts the sanitized value in memory and in the file. One that fails
  -- leaves the value in memory; the file is as it was, or lost.
  pub replace_lem :
      (c : Config)
      → (((replace o c s).1 ≡ none)
          × ((replace o c s).0.value ≡ sanitize c)
          × ((replace o c s).0.disk.file ≡ some (sanitize c)))
        ⊎ (((replace o c s).1 ≡ some write_failed)
            × ((replace o c s).0.value ≡ s.value)
            × (((replace o c s).0.disk.file ≡ s.disk.file) ⊎ ((replace o c s).0.disk.file ≡ none)))
  unfolding replace
  replace_lem c =
      let same = sanitize_idem c in
      elim (write_json-cases o (sanitize (sanitize c)) s.disk) [
        | inl (done, new) ↦
            inl (ground (arith, done), ground (arith, done), ground (arith, done, new, same))
        | inr (failed, old) ↦
            inr (ground (arith, failed), ground (arith, failed), ground (arith, failed, old))
      ]

  pub replace-IsValid : (c : Config) → IsValid s → IsValid (replace o c s).0
  replace-IsValid c v = elim (replace_lem c) [
    | inl (_, value, file) ↦ record {
      clean = rw value (sanitize-IsClean c);
      on_disk = inr (file ∙ ap some (sym value));
    }
    | inr (_, value, file) ↦ record {
      clean = rw value v.clean;
      on_disk = rw value (ground (arith, file, v.on_disk));
    }
  ]

  settle-IsValid : (r : Config ⊎ Text) → IsValid s → IsValid (settle o s r).0
  unfolding settle
  settle-IsValid (inl next) v = replace-IsValid next v
  settle-IsValid (inr message) v = v

  -- Of a change, what is refused, what is written and what could not be written.
  pub settle-cases :
      (r : Config ⊎ Text)
      → ((message : Text) × (r ≡ inr message) × (settle o s r ≡ (s, some (refused message))))
        ⊎ ((next : Config) × (r ≡ inl next)
            × ((((settle o s r).1 ≡ none)
                  × ((settle o s r).0.value ≡ sanitize next)
                  × ((settle o s r).0.disk.file ≡ some (sanitize next)))
                ⊎ (((settle o s r).1 ≡ some write_failed)
                    × ((settle o s r).0.value ≡ s.value)
                    × (((settle o s r).0.disk.file ≡ s.disk.file)
                        ⊎ ((settle o s r).0.disk.file ≡ none)))))
  unfolding settle
  settle-cases (inl next) = inr (next, refl, replace_lem next)
  settle-cases (inr message) = inl (message, refl, refl)

  -- `Update` keeps a valid store valid, whatever the change and the disk do: the value in memory is
  -- clean, and the file holds that value if there is a file. If the change is refused with a message
  -- nothing is touched and the message is reported. Otherwise either there is no error, and the
  -- sanitized next value is in memory and in the file; or a failed write is reported, the value in
  -- memory is the one before, and the file is as it was, or lost.
  pub update-IsValid :
      (change : Config → Config ⊎ Text)
      → IsValid s
      → IsValid (update o change s).0
        × (((message : Text) × (change s.value ≡ inr message)
              × (update o change s ≡ (s, some (refused message))))
            ⊎ ((next : Config) × (change s.value ≡ inl next)
                × ((((update o change s).1 ≡ none)
                      × ((update o change s).0.value ≡ sanitize next)
                      × ((update o change s).0.disk.file ≡ some (sanitize next)))
                    ⊎ (((update o change s).1 ≡ some write_failed)
                        × ((update o change s).0.value ≡ s.value)
                        × (((update o change s).0.disk.file ≡ s.disk.file)
                            ⊎ ((update o change s).0.disk.file ≡ none))))))
  unfolding update
  update-IsValid change v = (settle-IsValid (change s.value) v, settle-cases (change s.value))
