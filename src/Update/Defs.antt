-- ===== src/Update/Defs.antt =====
-- The reading and the comparison of stable versions, `Check`, and the program's own version. What the
-- HTTP client answers, with the names of the tags decoded, is an argument.
use kaven_dns.Go.{natural, split, trim_prefix, trim_space, itoa}
use kaven_dns.Prelude.{
  none, some, [], ◌∷◌, false, pos, negsuc, ℕ, List, Text, Bool, Option, leb, ◌||◌, ◌==◌, is_empty,
  ◌-◌, ◌^◌, ltb, ◌++◌, ℤ, ltb_ℤ, if◌then◌else◌, codes,
}

abbrev pub Parts : Type 0
Parts = ℕ × ℕ × ℕ

-- `Atoi`, with the error ignored: too large a number gives the largest int.
abbrev pub int_of : ℕ → ℕ
int_of n = if ltb n (2 ^ 63) then n else 2 ^ 63 - 1

abbrev pub three_read : Option ℕ → Option ℕ → Option ℕ → Option Parts
three_read (some i) (some j) (some k) = some (int_of i, int_of j, int_of k)
three_read _ _ _ = none

unfoldable pub three_parts : Text → Text → Text → Option Parts
unfolding natural
three_parts x y z = three_read (natural x) (natural y) (natural z)

-- The groups of the pattern `^v?(\d+)\.(\d+)\.(\d+)$`, as ints.
unfoldable pub parts_of : List Text → Option Parts
unfolding three_parts
parts_of [] = none
parts_of (x ∷ []) = none
parts_of (x ∷ y ∷ []) = none
parts_of (x ∷ y ∷ z ∷ []) = three_parts x y z
parts_of (x ∷ y ∷ z ∷ w ∷ more) = none

unfoldable pub print : Parts → Text
print (i, j, k) = itoa i ++ b'.' ∷ (itoa j ++ b'.' ∷ itoa k)

abbrev pub printed : Option Parts → Option (Text × Parts)
printed none = none
printed (some parts) = some (print parts, parts)

unfoldable pub parse_stable : Text → Option (Text × Parts)
unfolding parts_of print
parse_stable value = printed (parts_of (split (trim_prefix (trim_space value) (codes "v")) b'.'))

-- One round of the loop of `Compare`, with what the next rounds give.
abbrev pub compare_part : ℕ → ℕ → ℤ → ℤ
compare_part m n next = if ltb n m then pos 1 else if ltb m n then negsuc 0 else next

unfoldable pub compare_parts : Parts → Parts → ℤ
compare_parts (i, j, k) (i', j', k') =
    compare_part i i' (compare_part j j' (compare_part k k' (pos 0)))

unfoldable pub compare_read : Option (Text × Parts) → Option (Text × Parts) → Option ℤ
unfolding compare_parts
compare_read none right = none
compare_read (some left) none = none
compare_read (some (_, m)) (some (_, n)) = some (compare_parts m n)

-- `Compare`, where an error is `none`.
unfoldable pub compare_versions : Text → Text → Option ℤ
unfolding parse_stable compare_read
compare_versions left right = compare_read (parse_stable left) (parse_stable right)

-- `comparison > 0`, where the comparison of an error is 0.
abbrev pub is_positive : Option ℤ → Bool
is_positive none = false
is_positive (some c) = ltb_ℤ (pos 0) c

unfoldable pub is_newer : Text → Text → Bool
unfolding compare_versions
is_newer version latest = is_positive (compare_versions version latest)

-- A tag, as it is read, against the latest version so far, with its tag.
unfoldable pub later : Option (Text × Text) → Text → Option (Text × Parts) → Option (Text × Text)
unfolding is_newer
later latest tag none = latest
later none tag (some (version, _)) = some (version, tag)
later (some (best, best_tag)) tag (some (version, _)) =
    if is_newer version best then some (version, tag) else some (best, best_tag)

unfoldable pub later_of : Option (Text × Text) → Text → Option (Text × Text)
unfolding later parse_stable
later_of latest tag = later latest tag (parse_stable tag)

unfoldable pub latest_of : List Text → Option (Text × Text) → Option (Text × Text)
unfolding later_of
latest_of [] latest = latest
latest_of (tag ∷ tags) latest = latest_of tags (later_of latest tag)

pub record Result : Type 0 where
  pub current_version : Text
  pub latest_version : Text
  pub update_available : Bool
  pub url : Text

-- The request: its address, and the header User-Agent.
pub record TagsRequest : Type 0 where
  pub url : Text
  pub user_agent : Text

-- What the client gives: no response, or a status and the names of the tags, unless the body is not such
-- a list.
pub data Reply : Type 0 where
  unanswered : Text → Reply
  answered : ℕ → Option (List Text) → Reply

pub data Checked : Type 0 where
  checked : Result → Checked
  invalid_current not_decoded no_stable_tag : Checked
  request_failed : Text → Checked
  http_status : ℕ → Checked

abbrev pub tags_url : Text
tags_url = codes "https://api.github.com/repos/kaven-universe/kaven-dns/tags?per_page=100"

abbrev pub tree_url : Text
tree_url = codes "https://github.com/kaven-universe/kaven-dns/tree/"

unfoldable pub check_latest : (Text → Text) → Text → Option (Text × Text) → Checked
unfolding is_newer trim_space
check_latest escape current none = no_stable_tag
check_latest escape current (some (latest, tag)) = checked (record {
  current_version = current;
  latest_version = latest;
  update_available = is_newer latest current;
  url = tree_url ++ escape (trim_space tag);
})

unfoldable pub check_reply : (Text → Text) → Text → Reply → Checked
unfolding check_latest latest_of
check_reply escape current (unanswered e) = request_failed e
check_reply escape current (answered status none) =
    if ltb status 200 || leb 300 status then http_status status else not_decoded
check_reply escape current (answered status (some tags)) =
    if ltb status 200 || leb 300 status
    then http_status status
    else check_latest escape current (latest_of tags none)

unfoldable pub check_stable :
    (Text → Text) → (TagsRequest → Reply) → Option (Text × Parts) → Checked
unfolding check_reply
check_stable escape client none = invalid_current
check_stable escape client (some (current, _)) =
    check_reply escape current
      (client (record { url = tags_url; user_agent = codes "kaven-dns/" ++ current }))

-- `Check`, with `url.PathEscape` and the client.
unfoldable pub check : (Text → Text) → (TagsRequest → Reply) → Text → Checked
unfolding check_stable parse_stable
check escape client version = check_stable escape client (parse_stable version)

-- The part in front of the first `+` or `-`.
unfoldable pub before_sign : Text → Text
before_sign [] = []
before_sign (c ∷ s) = if c == b'+' || c == b'-' then [] else c ∷ before_sign s

-- `StableVersion` of package buildinfo.
unfoldable pub stable_version : Text → Text
unfolding before_sign trim_prefix trim_space
stable_version version =
    let value = before_sign (trim_prefix (trim_space version) (codes "v")) in
    if is_empty value then codes "0.0.0" else value
