-- ===== src/Observer/Defs.antt =====
-- observer/observer_linux.go. A file under /proc is its lines and whether the scan of them ended with an
-- error, or nothing if it cannot be opened. A fraction keeps its numerator and denominator.
use herd.Common.{
  ℕ, ◌+◌, ◌*◌, Bool, false, ◌&&◌, List, [], ◌∷◌, Option, none, some, ◌⊎◌, inl, inr, if◌then◌else◌,
  ◌==◌, ltb, length, get_elem?,
}
use herd.Common.Int.{ℤ, pos, negsuc, ◌+ℤ◌, ◌-ℤ◌, is_positive, wrap64}
use herd.Common.Text.{Text, codes, text_eq}
use herd.Common.Split.{has_prefix}
use herd.Common.Fields.{fields, trim_suffix, parse_int}
use herd.Common.Numerals.{is_digit}

pub record File : Type 0 where
  pub lines : List Text
  pub scan_failed : Bool

pub record MemInfo : Type 0 where
  pub total : ℤ
  pub available : ℤ

-- `val *= 1024`
abbrev pub times_1024 : ℤ → ℤ
times_1024 (pos n) = wrap64 (pos (n * 1024))
times_1024 (negsuc n) = wrap64 (negsuc (n * 1024 + 1023))

-- One line: the new values, and how many of the two keys it had.
unfoldable pub mem_entry : Text → ℤ → MemInfo → MemInfo × ℕ
mem_entry key val info =
    if text_eq (codes "MemTotal") key
    then (record info { total = times_1024 val }, 1)
    else if text_eq (codes "MemAvailable") key
    then (record info { available = times_1024 val }, 1)
    else (info, 0)

unfoldable pub mem_line : List Text → MemInfo → MemInfo × ℕ
mem_line [] info = (info, 0)
mem_line (key ∷ []) info = (info, 0)
mem_line (key ∷ amount ∷ rest) info =
    let (val, parsed) = parse_int amount in
    if parsed then mem_entry (trim_suffix b':' key) val info else (info, 0)

-- The loop over the lines, which ends when it has found two.
unfoldable pub mem_loop : List Text → ℕ → MemInfo → MemInfo
mem_loop [] found info = info
mem_loop (line ∷ lines) found info =
    let (info', n) = mem_line (fields line) info in
    let rest = mem_loop lines (found + n) info' in if ltb found 2 then rest else info

unfoldable pub read_mem_info : Option File → Option MemInfo
read_mem_info none = none
read_mem_info (some f) =
    if f.scan_failed
    then none
    else some (mem_loop f.lines 0 (record { total = pos 0; available = pos 0 }))

-- "cpu" and a digit.
unfoldable pub is_cpu_line : Text → Bool
is_cpu_line line =
    has_prefix (codes "cpu") line && elim (get_elem? line 3) [ none ↦ false | some c ↦ is_digit c ]

unfoldable pub count_cpus : List Text → ℕ
count_cpus [] = 0
count_cpus (line ∷ lines) = (if is_cpu_line line then 1 else 0) + count_cpus lines

unfoldable pub read_cpu_count : Option File → Option ℕ
read_cpu_count none = none
read_cpu_count (some f) = some (if count_cpus f.lines == 0 then 1 else count_cpus f.lines)

pub record CpuStat : Type 0 where
  pub user : ℤ
  pub nice : ℤ
  pub system : ℤ
  pub idle : ℤ
  pub iowait : ℤ
  pub irq : ℤ
  pub softirq : ℤ
  pub steal : ℤ

-- The sums and differences are those of int64, which wrap around; wrapping the result is the same as
-- wrapping after each operation.
abbrev pub sum : CpuStat → ℤ
sum s = s.user +ℤ s.nice +ℤ s.system +ℤ s.idle +ℤ s.iowait +ℤ s.irq +ℤ s.softirq +ℤ s.steal

unfoldable pub total : CpuStat → ℤ
total s = wrap64 (sum s)

unfoldable pub idle_total : CpuStat → ℤ
idle_total s = wrap64 (s.idle +ℤ s.iowait)

-- What `readCPUStat` answers; an index out of range panics.
pub data StatAnswer : Type 0 where
  stat : CpuStat → StatAnswer
  no_file bad_format no_line panics : StatAnswer

abbrev pub parse : Text → ℤ
parse t = (parse_int t).0

-- The fields after "cpu", at the indices 1 to 8.
unfoldable pub parse_stat : List Text → StatAnswer
parse_stat (cpu ∷ a ∷ b ∷ c ∷ d ∷ e ∷ f ∷ g ∷ h ∷ rest) = stat (record {
  user = parse a;
  nice = parse b;
  system = parse c;
  idle = parse d;
  iowait = parse e;
  irq = parse f;
  softirq = parse g;
  steal = parse h;
})
parse_stat _ = panics

unfoldable pub stat_line : Text → StatAnswer
stat_line line = if ltb (length (fields line)) 5 then bad_format else parse_stat (fields line)

unfoldable pub stat_loop : List Text → StatAnswer
stat_loop [] = no_line
stat_loop (line ∷ lines) =
    let rest = stat_loop lines in if has_prefix (codes "cpu ") line then stat_line line else rest

unfoldable pub read_cpu_stat : Option File → StatAnswer
read_cpu_stat none = no_file
read_cpu_stat (some f) = stat_loop f.lines

pub record Fraction : Type 0 where
  pub numerator : ℤ
  pub denominator : ℤ

-- The fraction of the time between two readings that was idle.
unfoldable pub idle_fraction : CpuStat → CpuStat → Fraction
idle_fraction before after =
    let total_delta = wrap64 (total after -ℤ total before) in
    let idle_delta = wrap64 (idle_total after -ℤ idle_total before) in
    if is_positive total_delta
    then record { numerator = idle_delta; denominator = total_delta }
    else record { numerator = pos 1; denominator = pos 1 }

-- `measureCPUIdle`, with /proc/stat as it is at the two readings: the fraction, or the answer that is no
-- reading.
unfoldable pub measure_cpu_idle : Option File → Option File → StatAnswer ⊎ Fraction
measure_cpu_idle first second = elim (read_cpu_stat first) [
  | stat before ↦ elim (read_cpu_stat second) [
    | stat after ↦ inr (idle_fraction before after)
    | other ↦ inl other
  ]
  | other ↦ inl other
]

pub record NodeStats : Type 0 where
  pub total_memory_bytes : ℤ
  pub available_memory_bytes : ℤ
  pub cpu_idle : Fraction
  pub cpu_count : ℕ

-- `pollNodeStats`, with the files as it finds them in this order.
unfoldable pub poll_node_stats :
    Option File → Option File → Option File → Option File → Option NodeStats
poll_node_stats meminfo first second third = elim (read_mem_info meminfo) [
  | none ↦ none
  | some mem ↦ elim (measure_cpu_idle first second) [
    | inl failed ↦ none
    | inr idle ↦ elim (read_cpu_count third) [
      | none ↦ none
      | some count ↦ some (record {
        total_memory_bytes = mem.total;
        available_memory_bytes = mem.available;
        cpu_idle = idle;
        cpu_count = count;
      })
    ]
  ]
]
