-- ===== src/Persist/Tests.antt =====
-- Writes at concrete outcomes.
use kaven_dns.Persist.Defs.{whole, removed, absent, write_json, Outcome, Disk}
use kaven_dns.Persist.Write.{write_json_file}
use kaven_dns.Prelude.{◌⊎◌, none, some, true, false, refl, ℕ, ◌≡◌, Bool}

abbrev lossy : Outcome
lossy = record {
  made_directory = true;
  encoded = true;
  wrote = true;
  renamed = false;
  removal = removed;
  renamed_again = false;
}

abbrev old : Disk ℕ
old = record { file = some 1; temporary = absent }

-- The failing second rename loses the old file.
lost : write_json lossy 2 old ≡ (record { file = none; temporary = whole 2 }, false)
unfolding write_json
lost = refl

write_json_file_example :
    ((write_json lossy 2 old).0.file ≡ some 1)
    ⊎ ((write_json lossy 2 old).0.file ≡ some 2)
    ⊎ (((write_json lossy 2 old).0.file ≡ none)
        × ((write_json lossy 2 old).1 ≡ false)
        × (◌≡◌ {A = Bool} false false)
        × (removed ≡ removed)
        × (◌≡◌ {A = Bool} false false)
        × ((write_json lossy 2 old).0.temporary ≡ whole 2))
write_json_file_example = write_json_file lossy 2 old
