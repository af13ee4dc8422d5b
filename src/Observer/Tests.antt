-- ===== src/Observer/Tests.antt =====
-- Readings of /proc on small inputs.
use herd.Common.{◌≡◌, ◌≤◌, refl, false, [], ◌∷◌, some, arith}
use herd.Common.Int.{pos, ◌+ℤ◌, ◌-ℤ◌, wrap64}
use herd.Common.Text.{Text, codes, text_eq}
use herd.Common.Split.{has_prefix}
use herd.Common.Fields.{fields, split_spaces, drop_empty, trim_suffix}
use herd.Observer.Defs.{
  CpuStat, total, idle_total, panics, parse_stat, stat_line, stat_loop, read_cpu_stat,
  idle_fraction, read_cpu_count, is_cpu_line, count_cpus,
}
use herd.Observer.Cpu.{Later, Fits, IsProper, idle_fraction-IsProper, read_cpu_stat-Reads}
use herd.Observer.Memory.{IsOther}

abbrev first : CpuStat
first = record {
  user = pos 100;
  nice = pos 0;
  system = pos 50;
  idle = pos 1000;
  iowait = pos 4;
  irq = pos 0;
  softirq = pos 1;
  steal = pos 0;
}

abbrev second : CpuStat
second = record first { user = pos 110; idle = pos 1080 }

second-Later : Later first second
second-Later = record {
  user = omega arith;
  nice = omega arith;
  system = omega arith;
  idle = omega arith;
  iowait = omega arith;
  irq = omega arith;
  softirq = omega arith;
  steal = omega arith;
}

first-Fits : Fits first
first-Fits = record { nonneg = refl; small = omega arith }

second-Fits : Fits second
second-Fits = record { nonneg = refl; small = omega arith }

idle_fraction-IsProper_example : IsProper (idle_fraction first second)
idle_fraction-IsProper_example =
    idle_fraction-IsProper first second second-Later first-Fits second-Fits

idle_of_ten : idle_fraction first second ≡ record { numerator = pos 80; denominator = pos 90 }
unfolding idle_fraction total idle_total wrap64 ◌+ℤ◌ ◌-ℤ◌
idle_of_ten = refl

-- An old kernel: five fields.
abbrev short : Text
short = codes "cpu 10 0 20 300"

read_short : read_cpu_stat (some (record { lines = short ∷ []; scan_failed = false })) ≡ panics
unfolding read_cpu_stat stat_loop stat_line parse_stat has_prefix fields drop_empty split_spaces
read_short = refl

read_cpu_stat-Reads_example : (5 ≤ 5) × (5 ≤ 8)
unfolding read_cpu_stat stat_loop stat_line parse_stat has_prefix fields drop_empty split_spaces
read_cpu_stat-Reads_example =
    read_cpu_stat-Reads (codes "intr 1" ∷ []) [] short (refl, tt) refl false

count_two :
    read_cpu_count (
      some (record {
        lines = codes "cpu 1 2" ∷ codes "cpu0 1" ∷ codes "cpu1 1" ∷ codes "ctxt 3" ∷ [];
        scan_failed = false;
      }))
    ≡ some 2
unfolding read_cpu_count count_cpus is_cpu_line has_prefix
count_two = refl

free_line-IsOther : IsOther (codes "MemFree: 5 kB")
unfolding fields drop_empty split_spaces trim_suffix text_eq
free_line-IsOther = record { not_total = refl; not_available = refl }
