-- ===== src/History/Defs.antt =====
-- The state and the methods of the history. A time is a number of milliseconds since the epoch, and
-- not before it; a reading of the clock is an argument. A latency is the bit pattern of an int64.
use kaven_dns.Go.{contains, trim_space, to_lower}
use kaven_dns.Prelude.{
  not, ◌&&◌, ◌*◌, ◌||◌, ◌^◌, ◌==◌, ◌++◌, pos_part, ltb_ℤ, get_elem?, codes, ◌-◌, ◌+◌, ◌%◌, ℤ,
  text_eq, ltb, length, is_empty, if◌then◌else◌, drop, none, some, [], ◌∷◌, zero, suc, true, false,
  pos, ℕ, List, Text, Bool, negsuc,
}

pub record Entry : Type 0 where
  pub time : ℕ
  pub sequence : ℕ
  pub client : Text
  pub domain : Text
  pub type : Text
  pub source : Text
  pub rcode : ℕ
  pub latency_ms : ℕ
  pub answers : Text
  pub rule : Text
  pub upstream : Text
  pub error : Text

-- The fields that `Stats` computes from these are left to `report`.
pub record Stats : Type 0 where
  pub started_at : ℕ
  pub total : ℕ
  pub fixed : ℕ
  pub cache : ℕ
  pub forward : ℕ
  pub servfail : ℕ
  pub nxdomain : ℕ
  pub total_latency_ms : ℕ
  pub forward_latency_ms : ℕ

pub record Filter : Type 0 where
  pub limit : ℤ
  pub domain : Text
  pub source : Text
  pub status : Text
  pub type : Text
  pub client : Text
  pub rule : Text
  pub since : ℤ
  pub until : ℤ

-- `retention` is in days: none, or a negative number of days, keeps entries of any age.
pub record Store : Type 0 where
  pub max_entries : ℕ
  pub retention : ℤ
  pub entries : List Entry
  pub sequence : ℕ
  pub stats : Stats

-- 64-bit arithmetic wraps.
abbrev pub u64 : ℕ → ℕ
u64 n = n % 2 ^ 64

abbrev pub day_ms : ℕ
day_ms = 86_400_000

abbrev pub at_least_one : ℤ → ℕ
at_least_one n = if ltb_ℤ n (pos 1) then 1 else pos_part n

unfoldable pub no_stats : ℕ → Stats
no_stats now = record {
  started_at = now;
  total = 0;
  fixed = 0;
  cache = 0;
  forward = 0;
  servfail = 0;
  nxdomain = 0;
  total_latency_ms = 0;
  forward_latency_ms = 0;
}

unfoldable pub new : ℤ → ℤ → ℕ → Store
unfolding no_stats
new max retention_days now = record {
  max_entries = at_least_one max;
  retention = retention_days;
  entries = [];
  sequence = 0;
  stats = no_stats now;
}

-- `now.Add(-retention).UnixMilli()`: before the epoch no entry is older.
unfoldable pub cutoff : ℤ → ℕ → ℕ
cutoff retention now = now - pos_part retention * day_ms

-- The loop of `trimLocked`: what is left of the entries when the old ones in front go.
unfoldable pub drop_old : ℕ → List Entry → List Entry
drop_old limit [] = []
drop_old limit (e ∷ es) = if ltb e.time limit then drop_old limit es else e ∷ es

unfoldable pub trim : Store → ℕ → Store
unfolding drop_old cutoff
trim s now =
    let newest = drop (length s.entries - s.max_entries) s.entries in
    let recent = drop_old (cutoff s.retention now) newest in
    record s { entries = if ltb_ℤ (pos 0) s.retention then recent else newest }

abbrev pub is_source : Entry → Text → Bool
is_source e name = text_eq e.source name

-- The counters after an entry.
unfoldable pub count : Entry → Stats → Stats
count e t = record t {
  total = u64 (t.total + 1);
  total_latency_ms = u64 (t.total_latency_ms + e.latency_ms);
  fixed = if is_source e (codes "fixed") then u64 (t.fixed + 1) else t.fixed;
  cache = if is_source e (codes "cache") then u64 (t.cache + 1) else t.cache;
  forward = if is_source e (codes "forward") then u64 (t.forward + 1) else t.forward;
  forward_latency_ms =
      if is_source e (codes "forward")
      then u64 (t.forward_latency_ms + e.latency_ms)
      else t.forward_latency_ms;
  servfail = if e.rcode == 2 then u64 (t.servfail + 1) else t.servfail;
  nxdomain = if e.rcode == 3 then u64 (t.nxdomain + 1) else t.nxdomain;
}

-- The entry with its number, and with a time if it has none.
unfoldable pub numbered : ℕ → ℕ → Entry → Entry
numbered sequence now e = record e {
  sequence = sequence;
  time = if e.time == 0 then now else e.time;
}

-- `Record` reads the clock for an entry with no time, and for the trimming.
unfoldable pub record_entry : Entry → ℕ → ℕ → Store → Store × Entry
unfolding numbered count trim
record_entry e now now' s =
    let e' = numbered (u64 (s.sequence + 1)) now e in
    (
      trim
          (record s {
            sequence = u64 (s.sequence + 1);
            entries = s.entries ++ e' ∷ [];
            stats = count e' s.stats;
          })
          now',
      e',
    )

abbrev or_any : Text → Text → Bool
or_any wanted value = is_empty wanted || text_eq value wanted

-- The tests of `Search` on one entry, with the domain in lower case.
unfoldable pub matches : Filter → Entry → Bool
matches f e =
    let domain = to_lower (trim_space f.domain) in
    (is_empty domain || contains e.domain domain)
    && or_any f.source e.source
    && not (text_eq f.status (codes "ok") && not (e.rcode == 0))
    && not (text_eq f.status (codes "fail") && e.rcode == 0)
    && or_any f.type e.type
    && or_any f.client e.client
    && (or_any f.rule e.rule || text_eq e.upstream f.rule || text_eq e.error f.rule)
    && not (ltb_ℤ (pos 0) f.since && ltb_ℤ (pos e.time) f.since)
    && not (ltb_ℤ (pos 0) f.until && ltb_ℤ f.until (pos e.time))

-- The loop of `Search`, from the entry at `n - 1` down to the first, with the results so far.
unfoldable pub search_from : Filter → ℕ → List Entry → ℕ → List Entry → List Entry
unfolding matches
search_from f limit entries zero out = out
search_from f limit entries (suc n) out =
    let next = λ (o : List Entry). search_from f limit entries n o in
    elim (ltb (length out) limit) [
      | false ↦ out
      | true ↦ elim (get_elem? entries n) [
        | none ↦ out
        | some e ↦ next (if matches f e then out ++ e ∷ [] else out)
      ]
    ]

-- `Limit` below 1 is 200.
abbrev pub search_limit : ℤ → ℕ
search_limit n = if ltb_ℤ n (pos 1) then 200 else pos_part n

unfoldable pub search : Store → Filter → List Entry
unfolding search_from
search s f = search_from f (search_limit f.limit) s.entries (length s.entries) []

abbrev pub any_entry : ℤ → Filter
any_entry limit = record {
  limit = limit;
  domain = [];
  source = [];
  status = [];
  type = [];
  client = [];
  rule = [];
  since = pos 0;
  until = pos 0;
}

unfoldable pub list : Store → ℤ → List Entry
unfolding search
list s limit = search s (any_entry limit)

unfoldable pub reset : Store → ℕ → Store × ℕ
unfolding no_stats
reset s now = (record s { entries = []; stats = no_stats now }, length s.entries)

unfoldable pub set_limits : Store → ℤ → ℤ → ℕ → Store
unfolding trim
set_limits s max retention_days now =
    trim (record s { max_entries = at_least_one max; retention = retention_days }) now

-- What `Stats` adds: the time since the start, as an integer, and the two averages, as fractions.
pub record Report : Type 0 where
  pub stats : Stats
  pub uptime_ms : ℤ
  pub avg_latency_ms : ℕ × ℕ
  pub forward_avg_ms : ℕ × ℕ

-- `m - n` on int64, with no overflow for readings of a clock.
abbrev pub difference : ℕ → ℕ → ℤ
difference m n = if ltb m n then negsuc (n - m - 1) else pos (m - n)

unfoldable pub report : Store → ℕ → Report
report s now = record {
  stats = s.stats;
  uptime_ms = difference now s.stats.started_at;
  avg_latency_ms =
      if ltb 0 s.stats.total then (s.stats.total_latency_ms, s.stats.total) else (0, 1);
  forward_avg_ms =
      if ltb 0 s.stats.forward then (s.stats.forward_latency_ms, s.stats.forward) else (0, 1);
}

-- `Load` with the snapshot that the file holds: entries, counters and sequence.
unfoldable pub restore : ℤ → ℤ → List Entry → Stats → ℕ → ℕ → Store
unfolding trim
restore max retention_days entries stats sequence now =
    trim
      (record {
        max_entries = at_least_one max;
        retention = retention_days;
        entries = entries;
        sequence = sequence;
        stats = if stats.started_at == 0 then record stats { started_at = now } else stats;
      })
      now
