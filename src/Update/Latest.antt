-- ===== src/Update/Latest.antt =====
-- The choice of the latest version, and what `Check` answers.
use kaven_dns.Go.{trim_space}
use kaven_dns.Prelude.{
  none, some, [], ◌∷◌, suc, true, false, inl, inr, refl, pos, arith, ℕ, ◌≡◌, List, Text, Option,
  leb, ◌++◌, ltb→le, ◌<◌, ltb→lt, codes, ◌≤◌, sym, max, ap, any, All, ◌+◌, Bool-cases, ◌∙◌, ◌^◌,
  if◌then◌else◌, ◌*◌, ℤ, ltb,
}
use kaven_dns.Prelude.Assoc.{mem}
use kaven_dns.Update.Defs.{
  answered, Reply, tree_url, check_reply, tags_url, later_of, checked, check_stable, latest_of,
  later, check_latest, check, TagsRequest, Checked, Parts, parse_stable, compare_part,
  compare_parts, compare_versions, compare_read, is_newer, is_positive,
}
use kaven_dns.Update.Printing.{parse_stable-print, IsInts, parse_stable-parts}
use mathlib.Core.Path.{subst}

-- A version as one number, which orders three ints by the first, the second and the third.
abbrev pub weight : Parts → ℕ
weight (i, j, k) = (i * 2 ^ 63 + j) * 2 ^ 63 + k

-- How high a tag stands: 0 if it is no stable version.
abbrev pub rank_read : Option (Text × Parts) → ℕ
rank_read none = 0
rank_read (some (_, p)) = suc (weight p)

unfoldable pub rank : Text → ℕ
unfolding parse_stable
rank t = rank_read (parse_stable t)

is_positive_part :
    (m n : ℕ) (next : ℤ)
    → is_positive (some (compare_part m n next))
      ≡ (if ltb n m then true else if ltb m n then false else is_positive (some next))
is_positive_part m n next = elim (Bool-cases (ltb n m)) [
  | inl h ↦ rw h refl
  | inr h ↦ elim (Bool-cases (ltb m n)) [ inl g ↦ rw (h, g) refl | inr g ↦ rw (h, g) refl ]
]

is_positive_parts :
    (p q : Parts)
    → IsInts p
    → IsInts q
    → is_positive (some (compare_parts p q)) ≡ ltb (weight q) (weight p)
unfolding compare_parts
is_positive_parts (i, j, k) (i', j', k') (_, hj, hk) (_, hj', hk') =
    is_positive_part i i' (compare_part j j' (compare_part k k' (pos 0)))
    ∙ rw (is_positive_part j j' (compare_part k k' (pos 0)), is_positive_part k k' (pos 0))
        (ground arith)

is_newer-read :
    (t u v w : Text) (p q : Parts)
    → parse_stable t ≡ some (v, p)
    → parse_stable u ≡ some (w, q)
    → is_newer t u ≡ ltb (weight q) (weight p)
unfolding is_newer compare_versions compare_read
is_newer-read t u v w p q h g =
    rw (h, g) (is_positive_parts p q (parse_stable-parts t v p h).0 (parse_stable-parts u w q g).0)

abbrev pub rank_of : Option (Text × Text) → ℕ
rank_of none = 0
rank_of (some (version, tag)) = rank version

-- What is chosen so far was read from a tag of `tags`.
abbrev IsFrom : List Text → Option (Text × Text) → Type 0
IsFrom tags none = Unit
IsFrom tags (some (version, tag)) =
    (mem tag tags ≡ true)
    × (p : Parts) × (parse_stable tag ≡ some (version, p))
    × (parse_stable version ≡ some (version, p))

read_again : (t v : Text) (p : Parts) → parse_stable t ≡ some (v, p) → parse_stable v ≡ some (v, p)
read_again t v p h =
    let (ints, same) = parse_stable-parts t v p h in
    subst (λ w. parse_stable w ≡ some (w, p)) (sym same) (parse_stable-print p ints)

rank_lem : (t v : Text) (p : Parts) → parse_stable t ≡ some (v, p) → rank t ≡ suc (weight p)
unfolding rank
rank_lem t v p h = ap rank_read h

later-IsFrom :
    (tags : List Text) (latest : Option (Text × Text)) (tag : Text) (read : Option (Text × Parts))
    → mem tag tags ≡ true
    → parse_stable tag ≡ read
    → IsFrom tags latest
    → IsFrom tags (later latest tag read)
      × (rank_of (later latest tag read) ≡ max (rank_of latest) (rank_read read))
unfolding later
later-IsFrom tags latest tag none m h from = (from, omega arith)
later-IsFrom tags none tag (some (v, p)) m h from =
    let again = read_again tag v p h in ((m, p, h, again), rw (rank_lem v v p again) omega arith)
later-IsFrom tags (some (best, best_tag)) tag (some (v, p)) m h (mb, q, hb, again_b) =
    let again = read_again tag v p h in
    let newer = is_newer-read v best v best p q again again_b in
    let high = rank_lem v v p again in
    let high_b = rank_lem best best q again_b in
    elim (Bool-cases (ltb (weight q) (weight p))) [
      | inl l ↦ rw (newer, l) ((m, p, h, again), omega (arith, high, high_b, ltb→lt _ _ l))
      | inr l ↦ rw (newer, l) ((mb, q, hb, again_b), omega (arith, high, high_b, ltb→le _ _ l))
    ]

latest_of-IsFrom :
    (tags ts : List Text) (latest : Option (Text × Text))
    → All (λ t. mem t tags ≡ true) ts
    → IsFrom tags latest
    → IsFrom tags (latest_of ts latest)
      × (rank_of latest ≤ rank_of (latest_of ts latest))
      × All (λ t. rank t ≤ rank_of (latest_of ts latest)) ts
unfolding latest_of later_of rank
latest_of-IsFrom tags [] latest m from = (from, omega arith, tt)
latest_of-IsFrom tags (t ∷ ts) latest (m, ms) from =
    let (from', high) = later-IsFrom tags latest t (parse_stable t) m refl from in
    let (last, above, rest) = latest_of-IsFrom tags ts (later latest t (parse_stable t)) ms from' in
    (last, omega (arith, high, above), (omega (arith, high, above), rest))

mem_later : (t : Text) (x : Text) (ts : List Text) → mem t ts ≡ true → mem t (x ∷ ts) ≡ true
unfolding mem
mem_later t x ts h = ground arith

All-mem_later :
    (x : Text) (ts us : List Text)
    → All (λ t. mem t ts ≡ true) us
    → All (λ t. mem t (x ∷ ts) ≡ true) us
All-mem_later x ts [] h = tt
All-mem_later x ts (u ∷ us) (h, hs) = (mem_later u x ts h, All-mem_later x ts us hs)

mem_self : (x : Text) (ts : List Text) → mem x (x ∷ ts) ≡ true
unfolding mem
mem_self x ts = ground arith

All-mem : (ts : List Text) → All (λ t. mem t ts ≡ true) ts
All-mem [] = tt
All-mem (t ∷ ts) = (mem_self t ts, All-mem_later t ts ts (All-mem ts))

some_rank :
    (ts : List Text) (n : ℕ)
    → any (λ t. ltb 0 (rank t)) ts ≡ true
    → All (λ t. rank t ≤ n) ts
    → 0 < n
some_rank [] n h above = absurd (cc h)
some_rank (t ∷ ts) n h (first, rest) = elim (Bool-cases (ltb 0 (rank t))) [
  | inl p ↦ omega (arith, ltb→lt 0 (rank t) p, first)
  | inr p ↦ some_rank ts n (rw p at h) rest
]

-- The address of the request and its header.
abbrev pub request_of : Text → TagsRequest
request_of current = record { url = tags_url; user_agent = codes "kaven-dns/" ++ current }

-- What the answer says of the chosen tag.
abbrev pub IsLatest : (Text → Text) → Text → List Text → Checked → Type 0
IsLatest escape current tags (checked r) =
    (tag : Text) × (mem tag tags ≡ true)
    × (rank tag ≡ rank r.latest_version)
    × All (λ t. rank t ≤ rank r.latest_version) tags
    × (r.update_available ≡ ltb (rank current) (rank r.latest_version))
    × (r.url ≡ tree_url ++ escape (trim_space tag))
IsLatest escape current tags _ = ⊥

ltb-suc : (m n : ℕ) → ltb m n ≡ ltb (suc m) (suc n)
ltb-suc m n = ground arith

check_latest-IsLatest :
    (escape : Text → Text) (current : Text) (p : Parts) (tags : List Text)
    (chosen : Option (Text × Text))
    → parse_stable current ≡ some (current, p)
    → IsFrom tags chosen
    → All (λ t. rank t ≤ rank_of chosen) tags
    → 0 < rank_of chosen
    → IsLatest escape current tags (check_latest escape current chosen)
unfolding check_latest
check_latest-IsLatest escape current p tags none h from above high = absurd (omega arith)
check_latest-IsLatest escape current p tags (some (version, tag)) h (m, q, read, again) above high =
    let high = rank_lem version version q again in
    let low = rank_lem current current p h in
    let same_order : ltb (weight p) (weight q) ≡ ltb (rank current) (rank version) =
      rw (high, low) (ltb-suc (weight p) (weight q)) in
    (
      tag,
      m,
      rank_lem tag version q read ∙ sym (rank_lem version version q again),
      above,
      is_newer-read version current version current q p again h ∙ same_order,
      refl,
    )

-- If the server answers the request with a status of success and tags of which one is a stable version,
-- then `check` gives, as the latest version, that of one of the tags, which no tag is above; the link ends
-- in that tag; and an update is available exactly if that version is above the current one. Versions
-- compare by the first number, then the second, then the third; a tag that is no version is below all.
pub check-IsLatest :
    (escape : Text → Text) (client : TagsRequest → Reply) (version current : Text) (p : Parts)
    (status : ℕ) (tags : List Text)
    → parse_stable version ≡ some (current, p)
    → client (request_of current) ≡ answered status (some tags)
    → 200 ≤ status
    → status < 300
    → any (λ t. ltb 0 (rank t)) tags ≡ true
    → IsLatest escape current tags (check escape client version)
unfolding check check_stable check_reply
check-IsLatest escape client version current p status tags h answer low high stable =
    let (from, _, above) = latest_of-IsFrom tags tags none (All-mem tags) tt in
    let not_low : ltb status 200 ≡ false = ground arith in
    let not_high : leb 300 status ≡ false = ground arith in
    rw (h, answer, not_low, not_high)
      (check_latest-IsLatest escape current p tags (latest_of tags none)
        (read_again version current p h) from above
        (some_rank tags (rank_of (latest_of tags none)) stable above))
