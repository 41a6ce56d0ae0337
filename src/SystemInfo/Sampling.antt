-- ===== src/SystemInfo/Sampling.antt =====
-- The readings under Linux: the files of /proc, internal/systeminfo/sample_linux.go.
use kaven_dns.Go.{parse_uint, split, trim_suffix, trim_space, is_space}
use kaven_dns.Go.Strconv.{bounded_natural}
use kaven_dns.Prelude.{
  none, some, [], ◌∷◌, zero, suc, ℕ, List, Text, Option, not, ◌||◌, ◌&&◌, ◌^◌, ◌++◌, length, ◌==◌,
  ◌*◌, ◌%◌, text_eq, ltb, is_empty, ◌+◌, if◌then◌else◌, get_elem?, codes, Text-discrete,
}
use kaven_dns.Prelude.Assoc.{lookup, insert}
use kaven_dns.SystemInfo.Defs.{sub_word, Sample}

abbrev pub no_sample : Text → Sample
no_sample platform = record {
  process_ticks = 0;
  total_ticks = 0;
  idle_ticks = 0;
  total_memory = 0;
  used_memory = 0;
  process_rss = 0;
  platform = platform;
  release = [];
}

-- A sum of 64 bits.
abbrev pub add_word : ℕ → ℕ → ℕ
add_word a b = (a + b) % 2 ^ 64

-- The value that `ParseUint` returns where the error is ignored: 0 for a text that is no number, and the
-- largest value for a number out of range.
abbrev pub value_or_zero : Option ℕ → ℕ
value_or_zero none = 0
value_or_zero (some n) = n

unfoldable pub parsed : Text → ℕ
unfolding bounded_natural
parsed s = value_or_zero (bounded_natural s)

-- `strings.Fields`
unfoldable pub white_from : Text → Text → List Text
unfolding is_space
white_from cur [] = if is_empty cur then [] else cur ∷ []
white_from cur (c ∷ s) =
    let rest = white_from (if is_space c then [] else cur ++ c ∷ []) s in
    if is_space c && not (is_empty cur) then cur ∷ rest else rest

unfoldable pub white_fields : Text → List Text
unfolding white_from
white_fields s = white_from [] s

-- The part in front of the first newline.
unfoldable pub first_line : Text → Text
first_line [] = []
first_line (c ∷ s) = if c == b'\n' then [] else c ∷ first_line s

abbrev pub value_before : Option ℕ → List ℕ → List ℕ
value_before none rest = []
value_before (some n) rest = n ∷ rest

-- The values in front of the first field that is no number.
unfoldable pub values_of : List Text → List ℕ
unfolding parse_uint
values_of [] = []
values_of (f ∷ fs) = value_before (parse_uint f) (values_of fs)

-- The sum of the first values.
unfoldable pub total_of : ℕ → ℕ → List ℕ → ℕ
total_of room total [] = total
total_of zero total (v ∷ vs) = total
total_of (suc room) total (v ∷ vs) = total_of room (add_word total v) vs

unfoldable pub ticks_of : List ℕ → ℕ × ℕ
unfolding total_of
ticks_of (a ∷ b ∷ c ∷ idle ∷ []) = (total_of 8 0 (a ∷ b ∷ c ∷ idle ∷ []), idle)
ticks_of (a ∷ b ∷ c ∷ idle ∷ wait ∷ vs) =
    (total_of 8 0 (a ∷ b ∷ c ∷ idle ∷ wait ∷ vs), add_word idle wait)
ticks_of _ = (0, 0)

unfoldable pub cpu_ticks : List Text → ℕ × ℕ
unfolding ticks_of values_of Text-discrete
cpu_ticks [] = (0, 0)
cpu_ticks (name ∷ fields) =
    if ltb (length fields) 4 || not (text_eq name (codes "cpu"))
    then (0, 0)
    else ticks_of (values_of fields)

unfoldable pub parse_cpu_stat : Text → ℕ × ℕ
unfolding cpu_ticks white_fields first_line
parse_cpu_stat text = cpu_ticks (white_fields (first_line text))

abbrev pub behind_or : ℕ → Text → Option Text → Option Text
behind_or c s none = if c == b')' then some s else none
behind_or c s (some t) = some t

-- The part behind the last `)`.
unfoldable pub behind_paren : Text → Option Text
behind_paren [] = none
behind_paren (c ∷ s) = behind_or c s (behind_paren s)

abbrev pub sum_of : Option Text → Option Text → ℕ
sum_of (some user) (some system) = add_word (parsed user) (parsed system)
sum_of _ _ = 0

unfoldable pub ticks_behind : Option Text → ℕ
unfolding parsed white_fields
ticks_behind none = 0
ticks_behind (some rest) =
    let fields = white_fields rest in sum_of (get_elem? fields 11) (get_elem? fields 12)

unfoldable pub parse_process_ticks : Text → ℕ
unfolding behind_paren ticks_behind
parse_process_ticks text = ticks_behind (behind_paren text)

abbrev pub Table : Type 0
Table = List (Text × ℕ)

abbrev pub kept : Text → Table → Option ℕ → Table
kept name values none = values
kept name values (some n) = insert (trim_suffix name (codes ":")) (n * 1024 % 2 ^ 64) values

unfoldable pub memory_line : Table → List Text → Table
unfolding parse_uint trim_suffix insert
memory_line values [] = values
memory_line values (name ∷ []) = values
memory_line values (name ∷ value ∷ more) = kept name values (parse_uint value)

unfoldable pub memory_lines : Table → List Text → Table
unfolding memory_line white_fields
memory_lines values [] = values
memory_lines values (line ∷ lines) = memory_lines (memory_line values (white_fields line)) lines

-- `values[name]`
unfoldable pub value_at : Text → Table → ℕ
unfolding lookup
value_at name values = value_or_zero (lookup name values)

unfoldable pub memory_of : Table → ℕ × ℕ
unfolding value_at
memory_of values =
    let total = value_at (codes "MemTotal") values in
    let free =
      add_word (add_word (value_at (codes "MemFree") values) (value_at (codes "Buffers") values))
        (value_at (codes "Cached") values) in
    let told = value_at (codes "MemAvailable") values in
    let available = if told == 0 then free else told in
    (total, sub_word total (if ltb total available then total else available))

unfoldable pub parse_memory_info : Text → ℕ × ℕ
unfolding memory_of memory_lines split
parse_memory_info text = memory_of (memory_lines [] (split text b'\n'))

abbrev pub pages_rss : ℕ → Option Text → ℕ
pages_rss page_size none = 0
pages_rss page_size (some pages) = parsed pages * page_size % 2 ^ 64

unfoldable pub statm_rss : ℕ → Text → ℕ
unfolding parsed white_fields
statm_rss page_size text = pages_rss page_size (get_elem? (white_fields text) 1)

-- The files that are there.
pub record Proc : Type 0 where
  pub osrelease : Option Text
  pub stat : Option Text
  pub self_stat : Option Text
  pub meminfo : Option Text
  pub statm : Option Text
  pub page_size : ℕ

-- What a file gives, if it is there.
abbrev pub if_read : {A : Type 0} → A → (Text → A) → Option Text → A
if_read absent read none = absent
if_read absent read (some text) = read text

unfoldable pub read_linux : Proc → Sample
unfolding trim_space parse_cpu_stat parse_process_ticks parse_memory_info statm_rss white_fields
read_linux proc =
    let (total, idle) = if_read (0, 0) parse_cpu_stat proc.stat in
    let (memory, used) = if_read (0, 0) parse_memory_info proc.meminfo in
    record (no_sample (codes "Linux")) {
      release = if_read [] trim_space proc.osrelease;
      total_ticks = total;
      idle_ticks = idle;
      process_ticks = if_read 0 parse_process_ticks proc.self_stat;
      total_memory = memory;
      used_memory = used;
      process_rss = if_read 0 (statm_rss proc.page_size) proc.statm;
    }
