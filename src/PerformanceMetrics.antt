-- ===== src/PerformanceMetrics.antt =====
-- src/PerformanceMetrics.cpp: the line about processor and memory on the terminal, printed by a timer. What
-- the operating system says is a sample; times are in seconds. The numbers that the line shows are those
-- of the sample, since doubles print them.
use sec_mon.Prelude.{
  ℕ, ◌+◌, ◌-◌, ◌*◌, ◌%◌, ◌^◌, Bool, true, ◌==◌, if◌then◌else◌, Option, none, some,
}
use sec_mon.Prelude.Text.{Bytes}
use sec_mon.Pipeline.WorkWrapper.{ErrorCode, operation_aborted}
use sec_mon.PerformanceMonitor.{Sample, CpuTimes, times_of, is_skipped, busy, processors_in}

-- The timer, the ticks of the sample before, and the character that turns.
pub record PerformanceMetrics : Type 0 where
  pub interval : ℕ
  pub expiry : ℕ
  pub waiting : Bool
  pub number_of_processors : ℕ
  pub cpu_times : CpuTimes
  pub last_indicator : ℕ

-- The constructor, at a time, with the lines of `/proc/cpuinfo` and a first sample.
abbrev pub new_performance_metrics : ℕ → ℕ → Bytes → Sample → PerformanceMetrics
new_performance_metrics now interval cpuinfo first = record {
  interval = interval;
  expiry = now + interval;
  waiting = true;
  number_of_processors = processors_in cpuinfo;
  cpu_times = times_of first;
  last_indicator = b'/';
}

-- `get_peak_rss` and `get_current_rss`, in bytes.
abbrev pub get_peak_rss : Sample → ℕ
get_peak_rss s = s.max_rss * 1024 % 2 ^ 64

abbrev pub get_current_rss : Sample → ℕ
get_current_rss s = elim s.pages [ none ↦ 0 | some n ↦ n * s.page_size % 2 ^ 64 ]

-- `get_current_cpu_usage`: nothing for a reading that is skipped, or the busy ticks, the ticks and the
-- processors that doubles make a percentage of.
abbrev pub get_current_cpu_usage : ℕ → CpuTimes → Sample → Option (ℕ × ℕ × ℕ) × CpuTimes
get_current_cpu_usage processors c s = (
  if is_skipped c s then none else some (busy c s, s.ticks - c.last_cpu_usage, processors),
  times_of s,
)

-- `get_next_indicator`.
abbrev pub get_next_indicator : ℕ → ℕ
get_next_indicator c =
    if c == b'/' then 92 else if c == 92 then b'|' else if c == b'|' then b'/' else c

-- What the line shows.
pub record StatusLine : Type 0 where
  pub current_rss : ℕ
  pub peak_rss : ℕ
  pub cpu : Option (ℕ × ℕ × ℕ)
  pub indicator : ℕ

-- `get_next_stats`: nothing when the timer is cancelled, or a line and the timer set again.
unfoldable pub get_next_stats :
    ErrorCode → Sample → PerformanceMetrics → Option (StatusLine × PerformanceMetrics)
get_next_stats operation_aborted s m = none
get_next_stats _ s m =
    let (usage, times) = get_current_cpu_usage m.number_of_processors m.cpu_times s in
    let c = get_next_indicator m.last_indicator in
    some (
      record {
        current_rss = get_current_rss s;
        peak_rss = get_peak_rss s;
        cpu = usage;
        indicator = c;
      },
      record m {
        expiry = m.expiry + m.interval;
        waiting = true;
        cpu_times = times;
        last_indicator = c;
      },
    )
