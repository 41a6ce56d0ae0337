-- ===== src/LogStore/Defs.antt =====
-- The state and the methods of the log store. A reading of the clock is an argument, in milliseconds.
use kaven_dns.Go.{trim_space}
use kaven_dns.Prelude.{
  ◌-◌, pos_part, codes, ◌^◌, ◌++◌, ltb_ℤ, ltb, length, is_empty, ◌+◌, ◌%◌, ℤ, keep, if◌then◌else◌,
  drop, [], ◌∷◌, pos, ℕ, List, Text,
}

pub record ConsoleEntry : Type 0 where
  pub time : ℕ
  pub level : Text
  pub message : Text
  pub sequence : ℕ

pub record OperationEntry : Type 0 where
  pub time : ℕ
  pub type : Text
  pub level : Text
  pub message : Text
  pub sequence : ℕ

pub record Snapshot : Type 0 where
  pub console_logs : List ConsoleEntry
  pub operation_logs : List OperationEntry

pub record Store : Type 0 where
  pub capacity : ℕ
  pub sequence : ℕ
  pub console : List ConsoleEntry
  pub operations : List OperationEntry

-- A uint64 wraps.
abbrev pub u64 : ℕ → ℕ
u64 n = n % 2 ^ 64

unfoldable pub new : ℤ → Store
new capacity = record {
  capacity = if ltb_ℤ capacity (pos 1) then 1 else pos_part capacity;
  sequence = 0;
  console = [];
  operations = [];
}

-- The last entries, as many as there is room for.
abbrev pub last {ℓ} : {A : Type ℓ} → ℕ → List A → List A
last n xs = drop (length xs - n) xs

unfoldable pub add_console : Text → Text → ℕ → Store → Store
add_console level message now s =
    let entry : ConsoleEntry = record {
      time = now;
      level = level;
      message = message;
      sequence = u64 (s.sequence + 1);
    } in
    record s {
      sequence = u64 (s.sequence + 1);
      console = last s.capacity (s.console ++ entry ∷ []);
    }

-- `Write` of the writer: it reports that all bytes were written.
unfoldable pub write : Text → ℕ → Store → Store × ℕ
unfolding add_console
write bytes now s =
    let message = trim_space bytes in
    (if is_empty message then s else add_console (codes "log") message now s, length bytes)

unfoldable pub record_operation : Text → Text → Text → ℕ → Store → Store
record_operation kind message level now s =
    let entry : OperationEntry = record {
      time = now;
      type = kind;
      level = if is_empty level then codes "log" else level;
      message = message;
      sequence = u64 (s.sequence + 1);
    } in
    record s {
      sequence = u64 (s.sequence + 1);
      operations = last s.capacity (s.operations ++ entry ∷ []);
    }

abbrev pub snapshot_limit : ℤ → ℕ
snapshot_limit n = if ltb_ℤ n (pos 1) then 400 else pos_part n

unfoldable pub snapshot : Store → ℤ → Snapshot
snapshot s limit = record {
  console_logs = last (snapshot_limit limit) s.console;
  operation_logs = last (snapshot_limit limit) s.operations;
}

unfoldable pub since : Store → ℕ → Snapshot × ℕ
since s sequence = (
  record {
    console_logs = keep (λ e. ltb sequence e.sequence) s.console;
    operation_logs = keep (λ e. ltb sequence e.sequence) s.operations;
  },
  s.sequence,
)
