-- ===== src/Persist/Defs.antt =====
-- `WriteJSON` over the two files that it touches. The value stands for its JSON text.
use kaven_dns.Prelude.{none, some, true, false, Bool, Option, not, if◌then◌else◌}

pub data Temporary {ℓ} (A : Type ℓ) : Type ℓ where
  absent : Temporary A
  partial : Temporary A
  whole : A → Temporary A

pub record Disk {ℓ} (A : Type ℓ) : Type ℓ where
  pub file : Option A
  pub temporary : Temporary A

pub data Removal : Type 0 where
  removed was_missing remove_failed : Removal

-- What the operating system answers to each call. A write that fails may leave a partial file.
pub record Outcome : Type 0 where
  pub made_directory : Bool
  pub encoded : Bool
  pub wrote : Bool
  pub renamed : Bool
  pub removal : Removal
  pub renamed_again : Bool

module _ {ℓ} {A : Type ℓ} where
  abbrev rename : A → Disk A → Disk A
  rename value d = record { file = some value; temporary = absent }

  -- The `Remove` and the second `Rename`.
  unfoldable pub retry : Removal → Bool → A → Disk A → Disk A × Bool
  retry remove_failed again value d = (d, false)
  retry removed again value d =
      let d' : Disk A = record d { file = none } in
      if again then (rename value d', true) else (d', false)
  retry was_missing again value d = if again then (rename value d, true) else (d, false)

  -- The disk after the call, and whether it succeeded.
  unfoldable pub write_json : Outcome → A → Disk A → Disk A × Bool
  unfolding retry
  write_json o value d =
      let d' : Disk A = record d { temporary = whole value } in
      if not o.made_directory
      then (d, false)
      else if not o.encoded
      then (d, false)
      else if not o.wrote
      then (record d { temporary = partial }, false)
      else if o.renamed
      then (rename value d', true)
      else retry o.removal o.renamed_again value d'
