-- ===== src/Config/Tests.antt =====
-- The configuration at concrete inputs.
use kaven_dns.Config.Defs.{
  write_failed, save, defaults, refused, clamp, update, clean_upstreams, any_address, sanitize,
  replace, parse_upstream, Store, Config,
}
use kaven_dns.Config.Sanitize.{sanitize-IsClean, IsClean}
use kaven_dns.Config.Updates.{update-IsValid, IsValid}
use kaven_dns.Go.{trim_space, atoi, join_host_port, split_host_port, parse_ip}
use kaven_dns.Persist.{write_json, was_missing, absent, Outcome}
use kaven_dns.Prelude.{none, some, [], ◌∷◌, true, false, inl, inr, refl, pos, ◌≡◌, Text, ◌⊎◌, codes}

program : Unit {0}
unfolding sanitize clean_upstreams clamp defaults parse_upstream parse_ip split_host_port
    join_host_port atoi trim_space write_json update replace save
program = tt

abbrev odd : Config
odd = record {
  dns_port = pos 70000;
  web_port = pos 8080;
  bind_address = codes "nowhere";
  web_bind_address = codes "::1";
  upstreams = codes " 8.8.8.8:53 " ∷ codes "x" ∷ [];
  forward_timeout_ms = pos 3000;
  ttl_min = pos 3000;
  ttl_max = pos 20;
  query_retention_days = pos 1;
  query_history_max_entries = pos 100;
  cache_max_entries = pos 100;
  session_ttl_hours = pos 24;
  password_hash = [];
}

cleaned :
    ((sanitize odd).dns_port ≡ pos 53)
    × ((sanitize odd).bind_address ≡ any_address)
    × ((sanitize odd).upstreams ≡ codes "8.8.8.8:53" ∷ [])
    × ((sanitize odd).ttl_max ≡ pos 3600)
unfolding program
cleaned = (refl, refl, refl, refl)

parse_upstream_test :
    (parse_upstream (codes "::1") ≡ some (codes "[::1]:53"))
    × (parse_upstream (codes "1.2.3.4:99999") ≡ none)
unfolding program
parse_upstream_test = (refl, refl)

abbrev fine : Outcome
fine = record {
  made_directory = true;
  encoded = true;
  wrote = true;
  renamed = true;
  removal = was_missing;
  renamed_again = false;
}

abbrev initial : Store
initial = record { value = sanitize odd; disk = record { file = none; temporary = absent } }

sanitize-IsClean_example : IsClean (sanitize odd)
sanitize-IsClean_example = sanitize-IsClean odd

initial-IsValid : IsValid initial
initial-IsValid = record { clean = sanitize-IsClean odd; on_disk = inl refl }

abbrev to_odd : Config → Config ⊎ Text
to_odd c = inl (record c { dns_port = pos 0 })

update-IsValid_example :
    IsValid (update fine to_odd initial).0
    × (((message : Text) × (to_odd initial.value ≡ inr message)
          × (update fine to_odd initial ≡ (initial, some (refused message))))
        ⊎ ((next : Config) × (to_odd initial.value ≡ inl next)
            × ((((update fine to_odd initial).1 ≡ none)
                  × ((update fine to_odd initial).0.value ≡ sanitize next)
                  × ((update fine to_odd initial).0.disk.file ≡ some (sanitize next)))
                ⊎ (((update fine to_odd initial).1 ≡ some write_failed)
                    × ((update fine to_odd initial).0.value ≡ initial.value)
                    × (((update fine to_odd initial).0.disk.file ≡ initial.disk.file)
                        ⊎ ((update fine to_odd initial).0.disk.file ≡ none))))))
update-IsValid_example = update-IsValid fine initial to_odd initial-IsValid
