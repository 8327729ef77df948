-- ===== src/Examples/Monitoring.antt =====
-- Tests: the statistics of a pipeline (src/Pipeline/Pipeline.h) and the performance monitor
-- (src/PerformanceMonitor.cpp).
use sec_mon.Prelude.{ℕ, ◌+◌, ◌*◌, ◌/◌, ◌≤◌, ◌≡◌, refl, false, some, List, [], ◌∷◌, arith}
use sec_mon.Prelude.Text.{Bytes, codes}
use sec_mon.Pipeline.Stats.{Stats, out_of_range}
use sec_mon.Pipeline.Stats.Paused.{rounds, rounds-out_of_range}
use sec_mon.PerformanceMonitor.{Sample, PerformanceMonitor, processors_in}
use sec_mon.PerformanceMonitor.Sampling.{Call, after, readings, readings-rate}
use sec_mon.PerformanceMonitor.Processors.{text_of, processor_lines, processors_in-lines}

-- Two frames have come through both elements.
abbrev two_frames : Stats
two_frames = record {
  queues = ((1000, 2000) ∷ (5000, 6000) ∷ []) ∷ ((3000, 4000) ∷ (7000, 8000) ∷ []) ∷ [];
  last_stats_time = 0;
  interval = 5000;
  expiry = 0;
  waiting = false;
}

rounds-out_of_range_example : rounds 3 two_frames ≡ out_of_range
rounds-out_of_range_example =
    rounds-out_of_range 3 2 two_frames (λ e. cc) (refl, (refl, tt)) (omega arith)

abbrev quiet : Sample
quiet = record {
  ticks = 10;
  system_ticks = 2;
  user_ticks = 3;
  max_rss = 4096;
  pages = some 512;
  page_size = 4096;
}

abbrev share : ℕ → ℕ → ℕ → ℕ
share busy ticks n = busy * 100 / (ticks * n)

abbrev cpuinfo : List Bytes
cpuinfo = codes "processor : 0" ∷ codes "model : 5" ∷ codes "processor : 1" ∷ []

processors_in-lines_example : processors_in (text_of cpuinfo) ≡ processor_lines cpuinfo
processors_in-lines_example = processors_in-lines cpuinfo (ground arith)

abbrev monitor : PerformanceMonitor
monitor = record {
  interval = 1000;
  number_of_processors = 2;
  cpu_times = record { last_cpu_usage = 0; last_system_cpu_usage = 0; last_user_cpu_usage = 0 };
  last_perf_time = 0;
  peak_rss_mb = 0;
  current_rss_mb = 0;
  cpu_usage = 0;
}

abbrev calls : List Call
calls =
    record { now = 500000000; later = 500000001; sample = quiet }
    ∷ record { now = 1500000000; later = 1500000001; sample = quiet }
    ∷ []

readings-rate_example :
    monitor.last_perf_time + readings share monitor calls * ((monitor.interval + 1) * 1000000)
    ≤ (after share monitor calls).last_perf_time
readings-rate_example = readings-rate share monitor calls (omega arith)
