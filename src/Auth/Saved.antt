-- ===== src/Auth/Saved.antt =====
-- The sessions from one run of the program to the next.
use kaven_dns.Auth.Defs.{Manager, persist, close, load, alive}
use kaven_dns.Persist.{Outcome, Disk}
use kaven_dns.Persist.Write.{write_json-cases}
use kaven_dns.Prelude.{
  some, true, false, inl, inr, refl, ℕ, ◌≡◌, List, Text, sym, if◌then◌else◌, ◌⊎◌, ◌∙◌, is_empty, ap,
  Bool-cases,
}

-- There is a file, and it holds the sessions, or the next write will put them there.
abbrev pub IsSaved : Manager → Type 0
IsSaved m = (is_empty m.path ≡ false) × ((m.dirty ≡ true) ⊎ (m.disk.file ≡ some m.sessions))

persist-file :
    (o : Outcome) (m : Manager)
    → is_empty m.path ≡ false
    → m.dirty ≡ true
    → (persist o m).0.dirty ≡ false
    → (persist o m).0.disk.file ≡ some m.sessions
unfolding persist
persist-file o m there dirty clean = elim (write_json-cases o m.sessions m.disk) [
  | inl (ok, file) ↦ rw there file
  | inr (failed, _) ↦ absurd (cc (rw (there, failed) at clean, dirty))
]

close_dirty : (o : Outcome) (m : Manager) → m.dirty ≡ true → close o m ≡ (persist o m).0
unfolding close
close_dirty o m h = ap (λ b. if b then (persist o m).0 else m) h

close_clean : (o : Outcome) (m : Manager) → m.dirty ≡ false → close o m ≡ m
unfolding close
close_clean o m h = ap (λ b. if b then (persist o m).0 else m) h

pub close-file :
    (o : Outcome) (m : Manager)
    → IsSaved m
    → (close o m).dirty ≡ false
    → (close o m).disk.file ≡ some m.sessions
close-file o m (there, known) clean = elim (Bool-cases m.dirty) [
  | inl h ↦
      let wrote = close_dirty o m h in
      ap (λ x. x.disk.file) wrote ∙ persist-file o m there h (sym (ap (λ x. x.dirty) wrote) ∙ clean)
  | inr h ↦ elim known [
    | inl g ↦ absurd (cc (h, g))
    | inr file ↦ ap (λ x. x.disk.file) (close_clean o m h) ∙ file
  ]
]

load_lem :
    (path : Text) (disk : Disk (List (Text × ℕ))) (sessions : List (Text × ℕ)) (now : ℕ)
    → is_empty path ≡ false
    → (load path disk (some sessions) now).sessions ≡ alive now sessions
unfolding load
load_lem path disk sessions now there = rw there refl

-- If `Close` leaves nothing unsaved, the sessions that are read at the next start are those that are still
-- alive then.
pub load-close :
    (o : Outcome) (m : Manager) (now : ℕ)
    → IsSaved m
    → (close o m).dirty ≡ false
    → (load m.path (close o m).disk (close o m).disk.file now).sessions ≡ alive now m.sessions
load-close o m now saved clean =
    ap (λ f. (load m.path (close o m).disk f now).sessions) (close-file o m saved clean)
    ∙ load_lem m.path (close o m).disk m.sessions now saved.0
