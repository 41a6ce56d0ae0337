-- ===== src/Config/Sanitize.antt =====
-- What sanitizing guarantees, and what the store keeps of it.
use kaven_dns.Config.Defs.{
  sanitize, or_default, at_most_eight, default_upstreams, clean_address, any_address,
  valid_upstreams, parse_upstream, is_upstream, is_ip, clean_upstreams, clamp, Config,
}
use kaven_dns.Go.{trim_space, parse_ip}
use kaven_dns.Go.Trim.{trim_space_idem}
use kaven_dns.Prelude.{
  [], ◌∷◌, true, inl, inr, refl, pos, arith, ℕ, ◌≡◌, List, Text, ltb→lt, length-take, All-take, ap,
  ltb, ◌≤◌, length, ◌≤ℤ◌, ◌<◌, Bool-cases, ℤ, All,
}

abbrev pub InRange : ℕ → ℕ → ℤ → Type 0
InRange lo hi n = (pos lo ≤ℤ n) × (n ≤ℤ pos hi)

abbrev pub IsUpstream : Text → Type 0
IsUpstream u = (is_upstream u ≡ true) × (trim_space u ≡ u)

-- A configuration that the program can run with.
pub record IsClean (c : Config) : Type 0 where
  pub dns_port : InRange 1 65535 c.dns_port
  pub web_port : InRange 1 65535 c.web_port
  pub bind_address : is_ip c.bind_address ≡ true
  pub web_bind_address : is_ip c.web_bind_address ≡ true
  pub upstreams : All IsUpstream c.upstreams
  pub some_upstream : 0 < length c.upstreams
  pub few_upstreams : length c.upstreams ≤ 8
  pub forward_timeout_ms : InRange 500 30000 c.forward_timeout_ms
  pub ttl_min : InRange 1 3600 c.ttl_min
  pub ttl_order : c.ttl_min ≤ℤ c.ttl_max
  pub ttl_max : c.ttl_max ≤ℤ pos 86400
  pub query_retention_days : InRange 0 30 c.query_retention_days
  pub query_history_max_entries : InRange 100 1_000_000 c.query_history_max_entries
  pub cache_max_entries : InRange 100 100_000 c.cache_max_entries
  pub session_ttl_hours : InRange 1 720 c.session_ttl_hours

clamp-InRange :
    (lo hi : ℕ) (n d : ℤ) → InRange lo hi d → InRange lo hi (clamp n (pos lo) (pos hi) d)
unfolding clamp
clamp-InRange lo hi n d h = ground arith

clamp-upper :
    (n lo hi d : ℤ) → lo ≤ℤ d → d ≤ℤ hi → (lo ≤ℤ clamp n lo hi d) × (clamp n lo hi d ≤ℤ hi)
unfolding clamp
clamp-upper n lo hi d h k = ground arith

clamp_fixed : (n lo hi d : ℤ) → lo ≤ℤ n → n ≤ℤ hi → clamp n lo hi d ≡ n
unfolding clamp
clamp_fixed n lo hi d h k = ground arith

default_address_ip : is_ip any_address ≡ true
unfolding parse_ip
default_address_ip = refl

default_upstreams-IsUpstream : All IsUpstream default_upstreams
unfolding parse_upstream parse_ip trim_space
default_upstreams-IsUpstream = ((refl, refl), ((refl, refl), tt))

clean_address_ip : (s : Text) → is_ip (clean_address s) ≡ true
clean_address_ip s = elim (Bool-cases (is_ip s)) [
  | inl e ↦ rw e e
  | inr e ↦ rw e default_address_ip
]

valid_upstreams-IsUpstream : (us : List Text) → All IsUpstream (valid_upstreams us)
unfolding valid_upstreams
valid_upstreams-IsUpstream [] = tt
valid_upstreams-IsUpstream (u ∷ us) = elim (Bool-cases (is_upstream (trim_space u))) [
  | inl e ↦ rw e ((e, trim_space_idem u), valid_upstreams-IsUpstream us)
  | inr e ↦ rw e (valid_upstreams-IsUpstream us)
]

or_default-IsUpstream :
    (us : List Text)
    → All IsUpstream us
    → All IsUpstream (or_default us) × (0 < length (or_default us))
unfolding or_default
or_default-IsUpstream [] h = (default_upstreams-IsUpstream, omega arith)
or_default-IsUpstream (u ∷ us) h = (h, omega arith)

at_most_eight-IsUpstream :
    (us : List Text)
    → All IsUpstream us
    → 0 < length us
    → All IsUpstream (at_most_eight us)
      × (0 < length (at_most_eight us))
      × (length (at_most_eight us) ≤ 8)
unfolding at_most_eight
at_most_eight-IsUpstream us h p = elim (Bool-cases (ltb 8 (length us))) [
  | inl long ↦ rw long (
    All-take IsUpstream 8 us h,
    omega (arith, length-take 8 us, ltb→lt 8 (length us) long),
    omega (arith, length-take 8 us),
  )
  | inr short ↦ rw short (h, p, ground (arith, short))
]

clean_upstreams_lem :
    (us : List Text)
    → All IsUpstream (clean_upstreams us)
      × (0 < length (clean_upstreams us))
      × (length (clean_upstreams us) ≤ 8)
unfolding clean_upstreams
clean_upstreams_lem us =
    let (good, some_left) =
      or_default-IsUpstream (valid_upstreams us) (valid_upstreams-IsUpstream us) in
    at_most_eight-IsUpstream (or_default (valid_upstreams us)) good some_left

-- Whatever a configuration holds, sanitizing makes it clean.
pub sanitize-IsClean : (c : Config) → IsClean (sanitize c)
unfolding sanitize
sanitize-IsClean c =
    let ttl_min = clamp-InRange 1 3600 c.ttl_min (pos 10) (omega arith, omega arith) in
    let ttl_max =
      clamp-upper c.ttl_max (clamp c.ttl_min (pos 1) (pos 3600) (pos 10)) (pos 86400) (pos 3600)
        ttl_min.1 (omega arith) in
    let (good, some_upstream, few) = clean_upstreams_lem c.upstreams in
    record {
      dns_port = clamp-InRange 1 65535 c.dns_port (pos 53) (omega arith, omega arith);
      web_port = clamp-InRange 1 65535 c.web_port (pos 8080) (omega arith, omega arith);
      bind_address = clean_address_ip c.bind_address;
      web_bind_address = clean_address_ip c.web_bind_address;
      upstreams = good;
      some_upstream = some_upstream;
      few_upstreams = few;
      forward_timeout_ms =
          clamp-InRange 500 30000 c.forward_timeout_ms (pos 3000) (omega arith, omega arith);
      ttl_min = ttl_min;
      ttl_order = ttl_max.0;
      ttl_max = ttl_max.1;
      query_retention_days =
          clamp-InRange 0 30 c.query_retention_days (pos 1) (omega arith, omega arith);
      query_history_max_entries =
          clamp-InRange 100 1_000_000 c.query_history_max_entries (pos 10_000)
            (omega arith, omega arith);
      cache_max_entries =
          clamp-InRange 100 100_000 c.cache_max_entries (pos 2_000) (omega arith, omega arith);
      session_ttl_hours =
          clamp-InRange 1 720 c.session_ttl_hours (pos 24) (omega arith, omega arith);
    }

valid_upstreams_fixed : (us : List Text) → All IsUpstream us → valid_upstreams us ≡ us
unfolding valid_upstreams
valid_upstreams_fixed [] h = refl
valid_upstreams_fixed (u ∷ us) ((valid, trimmed), h) =
    rw (trimmed, valid) (ap (◌∷◌ u) (valid_upstreams_fixed us h))

clean_upstreams_fixed :
    (us : List Text) → All IsUpstream us → 0 < length us → length us ≤ 8 → clean_upstreams us ≡ us
unfolding clean_upstreams
clean_upstreams_fixed [] h p q = absurd (omega arith)
clean_upstreams_fixed (u ∷ us) h p q = rw (valid_upstreams_fixed (u ∷ us) h) (ground arith)

clean_address_fixed : (s : Text) → is_ip s ≡ true → clean_address s ≡ s
clean_address_fixed s h = rw h refl

fixed : (lo hi : ℕ) (n d : ℤ) → InRange lo hi n → clamp n (pos lo) (pos hi) d ≡ n
fixed lo hi n d h = clamp_fixed n (pos lo) (pos hi) d h.0 h.1

ttl_max_fixed :
    (c : Config)
    → IsClean c
    → clamp c.ttl_max (clamp c.ttl_min (pos 1) (pos 3600) (pos 10)) (pos 86400) (pos 3600)
      ≡ c.ttl_max
ttl_max_fixed c h =
    rw (fixed 1 3600 c.ttl_min (pos 10) h.ttl_min)
      (clamp_fixed c.ttl_max c.ttl_min (pos 86400) (pos 3600) h.ttl_order h.ttl_max)

-- A clean configuration is left as it is.
pub sanitize_fixed : (c : Config) → IsClean c → sanitize c ≡ c
unfolding sanitize
sanitize_fixed c h = λ i. record {
  dns_port = fixed 1 65535 c.dns_port (pos 53) h.dns_port i;
  web_port = fixed 1 65535 c.web_port (pos 8080) h.web_port i;
  bind_address = clean_address_fixed c.bind_address h.bind_address i;
  web_bind_address = clean_address_fixed c.web_bind_address h.web_bind_address i;
  upstreams = clean_upstreams_fixed c.upstreams h.upstreams h.some_upstream h.few_upstreams i;
  forward_timeout_ms = fixed 500 30000 c.forward_timeout_ms (pos 3000) h.forward_timeout_ms i;
  ttl_min = fixed 1 3600 c.ttl_min (pos 10) h.ttl_min i;
  ttl_max = ttl_max_fixed c h i;
  query_retention_days = fixed 0 30 c.query_retention_days (pos 1) h.query_retention_days i;
  query_history_max_entries =
      fixed 100 1_000_000 c.query_history_max_entries (pos 10_000) h.query_history_max_entries i;
  cache_max_entries = fixed 100 100_000 c.cache_max_entries (pos 2_000) h.cache_max_entries i;
  session_ttl_hours = fixed 1 720 c.session_ttl_hours (pos 24) h.session_ttl_hours i;
  password_hash = c.password_hash;
}

-- Sanitizing twice is sanitizing once, so that the copy that `Save` sanitizes again is the value itself.
pub sanitize_idem : (c : Config) → sanitize (sanitize c) ≡ sanitize c
sanitize_idem c = sanitize_fixed (sanitize c) (sanitize-IsClean c)
