-- ===== src/Web/Shown.antt =====
-- What the console shows of the running program, and the stream of its events.
use kaven_dns.DnsServer.Sockets.{Status}
use kaven_dns.History.Analytics.{Overview, RankedClient, RankedDomain}
use kaven_dns.History.Defs.{Entry, Report}
use kaven_dns.Prelude.{ℕ, List}
use kaven_dns.SystemInfo.Defs.{Machine, Sample, Snapshot}
use kaven_dns.Cache
use kaven_dns.LogStore.Defs

-- What the operating system, the clock and the sorting of package sort give at a moment.
pub record Moment : Type 0 where
  pub now : ℕ
  pub machine : Machine
  pub reading : Sample
  pub rank_domains : List RankedDomain → List RankedDomain
  pub rank_clients : List RankedClient → List RankedClient

pub record Shown : Type 0 where
  pub stats : Report
  pub analytics : Overview
  pub cache : Cache.Info
  pub system : Snapshot
  pub dns : Status

-- A stream: the highest number that it showed, and the sequence of the logs.
pub record Stream : Type 0 where
  pub latest : ℕ
  pub log_sequence : ℕ

pub data Frame : Type 0 where
  snapshot_frame : Shown → List Entry → Defs.Snapshot → Frame
  queries_frame : List Entry → Frame
  logs_frame : Defs.Snapshot → Frame
  stats_frame : Shown → Frame
