-- ===== src/Web/Watching.antt =====
-- To show the state of the program and to stream its events keeps it sound.
use kaven_dns.Auth.Defs.{check, Manager}
use kaven_dns.Prelude.{
  true, false, inl, inr, arith, Bool, ◌++◌, codes, leb→lt, ◌+◌, leb, ◌-◌, Bool-cases,
}
use kaven_dns.Update.Defs.{
  Checked, checked, invalid_current, not_decoded, no_stable_tag, request_failed, http_status,
}
use kaven_dns.Web.Events.{
  runtime_state, state, update_checker, update_answer, note_failed, check_update, open_stream,
  event_slots, frames, close_stream, ticked, tick,
}
use kaven_dns.Web.Handlers.{session_ttl}
use kaven_dns.Web.Invariant.{IsSound, with_auth, with_monitor, with_streams, note-IsSound}
use kaven_dns.Web.Shown.{Moment, Stream}
use kaven_dns.Web.State.{Env, Headers, System, token_of}

pub state-IsSound : (t : Moment) (s : System) → IsSound s → IsSound (state t s).0
unfolding state
state-IsSound t s v = with_monitor s (runtime_state t s).0 v

pub open_stream-IsSound : (env : Env) (s : System) → IsSound s → IsSound (open_stream env s).0
unfolding open_stream
open_stream-IsSound env s v = elim (Bool-cases (leb event_slots s.streams)) [
  | inl h ↦ rw h v
  | inr h ↦ elim (Bool-cases env.flushes) [
    | inl k ↦
        rw (h, k)
          (with_streams (state env.moment s).0 (s.streams + 1) (state-IsSound env.moment s v)
            (omega (arith, leb→lt event_slots s.streams h)))
    | inr k ↦ rw (h, k) v
  ]
]

note_failed-IsSound : (env : Env) (s : System) → IsSound s → IsSound (note_failed env s)
unfolding note_failed
note_failed-IsSound env s v =
    note-IsSound env (codes "updates") (codes "check failed: " ++ env.error_text) (codes "warn") s v

update_answer-IsSound :
    (env : Env) (c : Checked) (s : System) → IsSound s → IsSound (update_answer env c s).0
unfolding update_answer
update_answer-IsSound env (checked r) s v = v
update_answer-IsSound env invalid_current s v = note_failed-IsSound env s v
update_answer-IsSound env not_decoded s v = note_failed-IsSound env s v
update_answer-IsSound env no_stable_tag s v = note_failed-IsSound env s v
update_answer-IsSound env (request_failed e) s v = note_failed-IsSound env s v
update_answer-IsSound env (http_status n) s v = note_failed-IsSound env s v

pub check_update-IsSound : (env : Env) (s : System) → IsSound s → IsSound (check_update env s).0
unfolding check_update
check_update-IsSound env s v =
    update_answer-IsSound env (update_checker env.escape env.update_client env.version) s v

pub close_stream-IsSound : (s : System) → IsSound s → IsSound (close_stream s)
unfolding close_stream
close_stream-IsSound s v = with_streams s (s.streams - 1) v (omega (arith, v.streams))

ticked-IsSound :
    (t : Moment) (s : System) (stream : Stream) (x : Manager × Bool)
    → IsSound s
    → IsSound (ticked t s stream x).0
unfolding ticked frames
ticked-IsSound t s stream (m, false) v =
    close_stream-IsSound (record s { auth = m }) (with_auth s m v)
ticked-IsSound t s stream (m, true) v = state-IsSound t (record s { auth = m }) (with_auth s m v)

pub tick-IsSound :
    (env : Env) (h : Headers) (s : System) (stream : Stream)
    → IsSound s
    → IsSound (tick env h s stream).0
unfolding tick
tick-IsSound env h s stream v =
    ticked-IsSound env.moment s stream
      (check (session_ttl s) env.session_outcome (token_of h) env.checked_at env.extended_at s.auth)
      v
