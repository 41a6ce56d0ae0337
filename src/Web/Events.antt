-- ===== src/Web/Events.antt =====
-- The handlers `setupStatus`, `stats` and `checkUpdate`, and the stream of `events`, from its opening and
-- from one tick to the next.
use kaven_dns.Auth.Defs.{check, Manager}
use kaven_dns.History.Analytics.{analytics}
use kaven_dns.History.Defs.{Entry, report, list}
use kaven_dns.Prelude.{
  none, some, [], ◌∷◌, true, false, pos, ℕ, List, Text, Bool, Option, ◌+◌, not, ◌&&◌, ltb, leb, ◌-◌,
  ◌++◌, is_empty, if◌then◌else◌, codes,
}
use kaven_dns.SystemInfo.Defs.{Monitor, Snapshot, snapshot}
use kaven_dns.Update.Defs.{stable_version, TagsRequest, Reply, Checked, checked}
use kaven_dns.Web.Handlers.{session_ttl}
use kaven_dns.Web.Shown.{
  Moment, Shown, Stream, Frame, snapshot_frame, queries_frame, logs_frame, stats_frame,
}
use kaven_dns.Web.State.{
  Env, Headers, System, Response, token_of, note, fail, done, status_body, shown_body, update_body,
  stream_body, update_failed, too_many_streams, no_streaming,
}
use mathlib.Core.List.{reverse}
use kaven_dns.Cache
use kaven_dns.Update
use kaven_dns.LogStore.Defs
use kaven_dns.History

unfoldable pub runtime_state : Moment → System → Monitor × Snapshot
unfolding kaven_dns.SystemInfo.Defs.snapshot
runtime_state t s = snapshot t.machine t.now t.reading s.monitor

unfoldable pub state : Moment → System → System × Shown
unfolding runtime_state kaven_dns.History.Analytics.analytics kaven_dns.History.Defs.report
state t s =
    let (monitor, shown) = runtime_state t s in
    (
      record s { monitor = monitor },
      record {
        stats = report s.history t.now;
        analytics = analytics t.rank_domains t.rank_clients t.now s.history;
        cache = Cache.info s.cache;
        system = shown;
        dns = s.dns.0.status;
      },
    )

unfoldable pub stats : Env → System → System × Response
unfolding state
stats env s = let (s', shown) = state env.moment s in (s', done (shown_body shown))

unfoldable pub setup_status : Env → System → Response
setup_status env s =
    done (status_body (is_empty s.config.value.password_hash) env.version env.commit)

-- The `UpdateChecker` of `New`, for the version of the build.
unfoldable pub update_checker : (Text → Text) → (TagsRequest → Reply) → Text → Checked
unfolding kaven_dns.Update.check stable_version
update_checker escape client version = Update.check escape client (stable_version version)

unfoldable pub note_failed : Env → System → System
unfolding note
note_failed env s =
    note env (codes "updates") (codes "check failed: " ++ env.error_text) (codes "warn") s

-- The result, or status 502, with a line in the log.
unfoldable pub update_answer : Env → Checked → System → System × Response
unfolding note_failed
update_answer env (checked r) s = (s, done (update_body r))
update_answer env _ s = (note_failed env s, fail 502 update_failed)

unfoldable pub check_update : Env → System → System × Response
unfolding update_checker update_answer
check_update env s = update_answer env (update_checker env.escape env.update_client env.version) s

abbrev is_nil : {A : Type 0} → List A → Bool
is_nil [] = true
is_nil (x ∷ xs) = false

-- The places of `eventSlots`.
abbrev pub event_slots : ℕ
event_slots = 4

abbrev pub newest_number : List Entry → ℕ
newest_number [] = 0
newest_number (e ∷ es) = e.sequence

-- `events` up to its loop.
unfoldable pub open_stream : Env → System → System × Response
unfolding state kaven_dns.History.Defs.list kaven_dns.LogStore.Defs.snapshot
open_stream env s =
    let initial = list s.history (pos 200) in
    let (after, shown) = state env.moment s in
    let stream : Stream = record {
      latest = newest_number initial;
      log_sequence = s.logs.sequence;
    } in
    if leb event_slots s.streams
    then (s, fail 503 too_many_streams)
    else if not env.flushes
    then (s, fail 500 no_streaming)
    else (
      record after { streams = s.streams + 1 },
      done (stream_body stream (snapshot_frame shown initial (Defs.snapshot s.logs (pos 500)))),
    )

-- The loop over the recent entries, the oldest first: those above the highest number so far.
unfoldable pub additions : ℕ → List Entry → List Entry × ℕ
additions latest [] = ([], latest)
additions latest (e ∷ es) =
    let next = if ltb latest e.sequence then e.sequence else latest in
    let (more, last) = additions next es in (if ltb latest e.sequence then e ∷ more else more, last)

unfoldable pub new_entries : ℕ → History.Store → List Entry × ℕ
unfolding additions kaven_dns.History.Defs.list
new_entries latest s = additions latest (reverse (list s (pos 200)))

abbrev pub queries_frames : List Entry → List Frame
queries_frames [] = []
queries_frames (e ∷ es) = queries_frame (e ∷ es) ∷ []

abbrev pub logs_frames : Defs.Snapshot → List Frame
logs_frames updates =
    if is_nil updates.console_logs && is_nil updates.operation_logs
    then []
    else logs_frame updates ∷ []

-- What a stream of a signed-in user gets at a tick.
unfoldable pub frames : Moment → System → Stream → System × Stream × List Frame
unfolding state new_entries kaven_dns.LogStore.Defs.since
frames t s stream =
    let (entries, latest) = new_entries stream.latest s.history in
    let (updates, sequence) = Defs.since s.logs stream.log_sequence in
    let (after, shown) = state t s in
    (
      after,
      record { latest = latest; log_sequence = sequence },
      queries_frames entries ++ (logs_frames updates ++ stats_frame shown ∷ []),
    )

-- A stream ends: its place is free.
unfoldable pub close_stream : System → System
close_stream s = record s { streams = s.streams - 1 }

unfoldable pub ticked :
    Moment → System → Stream → Manager × Bool → System × Option (Stream × List Frame)
unfolding frames close_stream
ticked t s stream (m, false) = (close_stream (record s { auth = m }), none)
ticked t s stream (m, true) =
    let (after, next, out) = frames t (record s { auth = m }) stream in (after, some (next, out))

-- One tick of the loop of `events`, which ends the stream when the session is gone.
unfoldable pub tick : Env → Headers → System → Stream → System × Option (Stream × List Frame)
unfolding ticked token_of session_ttl kaven_dns.Auth.Defs.check
tick env h s stream =
    ticked env.moment s stream
      (check (session_ttl s) env.session_outcome (token_of h) env.checked_at env.extended_at s.auth)
