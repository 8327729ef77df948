-- ===== src/PerformanceMonitor.antt =====
-- src/PerformanceMonitor.cpp: the text about processor and memory that is drawn on the frames. What the
-- operating system says is a sample; times are in nanoseconds.
pub mod Sampling
pub mod Processors
use sec_mon.Prelude.{
  ℕ, zero, suc, ◌+◌, ◌-◌, ◌*◌, ◌/◌, ◌%◌, ◌^◌, Bool, true, false, ◌||◌, ◌&&◌, ◌==◌, ltb, leb,
  if◌then◌else◌, Option, none, some, List, [], ◌∷◌, ◌++◌, length,
}
use sec_mon.Prelude.Text.{Bytes, codes, bytes_eq, decimal}

-- What the system calls give: `times` with the ticks spent in the system and in the program, the largest
-- resident set in kilobytes, and the pages of the one at present, if they can be read.
pub record Sample : Type 0 where
  pub ticks : ℕ
  pub system_ticks : ℕ
  pub user_ticks : ℕ
  pub max_rss : ℕ
  pub pages : Option ℕ
  pub page_size : ℕ

-- The ticks of the sample before.
pub record CpuTimes : Type 0 where
  pub last_cpu_usage : ℕ
  pub last_system_cpu_usage : ℕ
  pub last_user_cpu_usage : ℕ

abbrev pub times_of : Sample → CpuTimes
times_of s = record {
  last_cpu_usage = s.ticks;
  last_system_cpu_usage = s.system_ticks;
  last_user_cpu_usage = s.user_ticks;
}

-- The test for a reading that is skipped.
abbrev pub is_skipped : CpuTimes → Sample → Bool
is_skipped c s =
    leb s.ticks c.last_cpu_usage
    || (ltb s.system_ticks c.last_system_cpu_usage || ltb s.user_ticks c.last_user_cpu_usage)

abbrev pub busy : CpuTimes → Sample → ℕ
busy c s = s.system_ticks - c.last_system_cpu_usage + (s.user_ticks - c.last_user_cpu_usage)

-- The members that change, and the interval in milliseconds.
pub record PerformanceMonitor : Type 0 where
  pub interval : ℕ
  pub number_of_processors : ℕ
  pub cpu_times : CpuTimes
  pub last_perf_time : ℕ
  pub peak_rss_mb : ℕ
  pub current_rss_mb : ℕ
  pub cpu_usage : ℕ

-- `get_peak_rss_mb`.
unfoldable pub get_peak_rss_mb : Sample → ℕ
get_peak_rss_mb s = s.max_rss / 1024 % 2 ^ 32

-- `get_current_rss_mb`.
unfoldable pub get_current_rss_mb : Sample → ℕ
get_current_rss_mb s = elim s.pages [
  | none ↦ 0
  | some n ↦ n * s.page_size % 2 ^ 64 / 1048576 % 2 ^ 32
]

-- The percentage that doubles come to for the busy ticks, the ticks and the number of processors.
module _ (percentage : ℕ → ℕ → ℕ → ℕ) where
  -- `get_current_cpu_usage`. A reading that is skipped is -1, as an `unsigned int`.
  unfoldable pub get_current_cpu_usage : ℕ → CpuTimes → Sample → ℕ × CpuTimes
  get_current_cpu_usage processors c s = (
    if is_skipped c s
        then 2 ^ 32 - 1
        else percentage (busy c s) (s.ticks - c.last_cpu_usage) processors,
    times_of s,
  )

  -- The three readings, taken at a time.
  abbrev pub take_readings : ℕ → Sample → PerformanceMonitor → PerformanceMonitor
  take_readings now s m =
      let (usage, times) = get_current_cpu_usage m.number_of_processors m.cpu_times s in
      record m {
        last_perf_time = now;
        peak_rss_mb = get_peak_rss_mb s;
        current_rss_mb = get_current_rss_mb s;
        cpu_usage = usage;
        cpu_times = times;
      }

  -- The text.
  abbrev pub stats_text : PerformanceMonitor → Bytes
  stats_text m =
      codes "CPU: "
      ++ decimal m.cpu_usage
      ++ codes "%  Curr: "
      ++ decimal m.current_rss_mb
      ++ codes "Mb  Peak: "
      ++ decimal m.peak_rss_mb
      ++ codes "Mb"

  -- `get_performance_string`, with the time of the test, that of the readings, and what they would be.
  unfoldable pub get_performance_string :
      ℕ → ℕ → Sample → PerformanceMonitor → Bytes × PerformanceMonitor
  unfolding get_current_cpu_usage get_peak_rss_mb get_current_rss_mb
  get_performance_string now later s m =
      let m' =
        if ltb m.interval ((now - m.last_perf_time) / 1000000)
        then take_readings later s m
        else m in
      (stats_text m', m')

-- `fgets` with a bound on the characters left: the line or its part, and what follows.
unfoldable pub fgets : ℕ → Bytes → Bytes × Bytes
fgets zero cs = ([], cs)
fgets (suc n) [] = ([], [])
fgets (suc n) (c ∷ cs) =
    let (line, rest) = fgets n cs in if c == 10 then (c ∷ [], cs) else (c ∷ line, rest)

-- `strncmp` with a text no longer than the bound.
unfoldable pub starts_with : Bytes → Bytes → Bool
starts_with [] cs = true
starts_with (x ∷ xs) [] = false
starts_with (x ∷ xs) (c ∷ cs) = x == c && starts_with xs cs

-- The loop over the lines of `/proc/cpuinfo`, on fuel.
unfoldable pub count_processors : ℕ → Bytes → ℕ
count_processors zero cs = 0
count_processors (suc fuel) [] = 0
count_processors (suc fuel) (c ∷ cs) =
    let (line, rest) = fgets 127 (c ∷ cs) in
    (if starts_with (codes "processor") line then 1 else 0) + count_processors fuel rest

-- The count over a file; every line has a character at least.
unfoldable pub processors_in : Bytes → ℕ
unfolding count_processors
processors_in cs = count_processors (length cs) cs

-- The constructor, with the samples at its start and its end.
unfoldable pub new_performance_monitor :
    (ℕ → ℕ → ℕ → ℕ) → ℕ → ℕ → Bytes → Sample → Sample → PerformanceMonitor
unfolding get_current_cpu_usage get_peak_rss_mb get_current_rss_mb processors_in
new_performance_monitor percentage interval now cpuinfo first second =
    take_readings percentage now second (record {
      interval = interval;
      number_of_processors = processors_in cpuinfo;
      cpu_times = times_of first;
      last_perf_time = now;
      peak_rss_mb = 0;
      current_rss_mb = 0;
      cpu_usage = 0;
    })
