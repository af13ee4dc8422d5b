-- ===== src/Observer/Cpu.antt =====
-- Bounds of the idle fraction, and lines of /proc/stat that are too short.
use herd.Common.{
  ℕ, ◌^◌, ◌<◌, get_elem?, ◌+◌, ◌≡◌, ◌≤◌, refl, inl, inr, Bool, true, false, Bool-cases, List, [],
  ◌∷◌, ◌++◌, some, ltb, length, arith, All,
}
use herd.Common.Int.{
  ℤ, pos, negsuc, pos_part, neg_part, ◌+ℤ◌, ◌-ℤ◌, +ℤ_parts, -ℤ_parts, is_positive, wrap64, ◌≤ℤ◌,
  wrap64_small,
}
use herd.Common.Text.{Text, codes}
use herd.Common.Split.{has_prefix}
use herd.Common.Fields.{fields, parse_int}
use herd.Observer.Defs.{
  CpuStat, sum, total, idle_total, StatAnswer, stat, bad_format, panics, parse_stat, stat_line,
  stat_loop, read_cpu_stat, Fraction, idle_fraction,
}

-- No counter went back.
pub record Later (before after : CpuStat) : Type 0 where
  pub user : ◌≤ℤ◌ before.user after.user
  pub nice : ◌≤ℤ◌ before.nice after.nice
  pub system : ◌≤ℤ◌ before.system after.system
  pub idle : ◌≤ℤ◌ before.idle after.idle
  pub iowait : ◌≤ℤ◌ before.iowait after.iowait
  pub irq : ◌≤ℤ◌ before.irq after.irq
  pub softirq : ◌≤ℤ◌ before.softirq after.softirq
  pub steal : ◌≤ℤ◌ before.steal after.steal

abbrev pos_parts : CpuStat → ℕ
pos_parts s =
    pos_part s.user
    + pos_part s.nice
    + pos_part s.system
    + pos_part s.idle
    + pos_part s.iowait
    + pos_part s.irq
    + pos_part s.softirq
    + pos_part s.steal

abbrev neg_parts : CpuStat → ℕ
neg_parts s =
    neg_part s.user
    + neg_part s.nice
    + neg_part s.system
    + neg_part s.idle
    + neg_part s.iowait
    + neg_part s.irq
    + neg_part s.softirq
    + neg_part s.steal

-- No counter is negative, and all together are in the range of an int64.
pub record Fits (s : CpuStat) : Type 0 where
  pub nonneg : neg_parts s ≡ 0
  pub small : pos_parts s < 2 ^ 63

-- The sum of all counters, by its parts.
sum_parts : (s : CpuStat) → pos_part (sum s) + neg_parts s ≡ neg_part (sum s) + pos_parts s
sum_parts s =
    let a = s.user +ℤ s.nice in
    let b = a +ℤ s.system in
    let c = b +ℤ s.idle in
    let d = c +ℤ s.iowait in
    let e = d +ℤ s.irq in
    let f = e +ℤ s.softirq in
    omega (
      arith,
      +ℤ_parts s.user s.nice,
      +ℤ_parts a s.system,
      +ℤ_parts b s.idle,
      +ℤ_parts c s.iowait,
      +ℤ_parts d s.irq,
      +ℤ_parts e s.softirq,
      +ℤ_parts f s.steal,
    )

-- An integer that is not negative has only one part.
one_part : (a : ℤ) → ◌≤ℤ◌ (pos 0) a → neg_part a ≡ 0
one_part (pos n) h = refl
one_part (negsuc n) h = absurd (omega arith)

-- Sums that fit are not wrapped.
total-Fits : (s : CpuStat) → Fits s → total s ≡ sum s
unfolding total
total-Fits s f =
    let e = sum_parts s in
    let p : ◌≤ℤ◌ (pos 0) (sum s) = omega (arith, e, f.nonneg) in
    wrap64_small (sum s) p (omega (arith, e, one_part (sum s) p, f.nonneg, f.small))

idle_total-Fits : (s : CpuStat) → Fits s → idle_total s ≡ s.idle +ℤ s.iowait
unfolding idle_total
idle_total-Fits s f =
    let e = +ℤ_parts s.idle s.iowait in
    let p : ◌≤ℤ◌ (pos 0) (s.idle +ℤ s.iowait) = omega (arith, e, f.nonneg) in
    wrap64_small (s.idle +ℤ s.iowait) p (omega (arith, e, one_part _ p, f.nonneg, f.small))

-- A difference of two integers of which the first is at least the second and fits.
delta_fits : (a b : ℤ) → ◌≤ℤ◌ b a → ◌≤ℤ◌ (pos 0) b → pos_part a < 2 ^ 63 → wrap64 (a -ℤ b) ≡ a -ℤ b
delta_fits a b le nonneg small =
    let e = -ℤ_parts a b in
    let p : ◌≤ℤ◌ (pos 0) (a -ℤ b) = omega (arith, e, le) in
    wrap64_small (a -ℤ b) p (omega (arith, e, one_part _ p, one_part b nonneg, small))

-- A fraction of something, from none to all of it.
pub record IsProper (q : Fraction) : Type 0 where
  pub some_time : is_positive q.denominator ≡ true
  pub nonneg : ◌≤ℤ◌ (pos 0) q.numerator
  pub le : ◌≤ℤ◌ q.numerator q.denominator

module _ (before after : CpuStat) (l : Later before after) (fb : Fits before)
    (fa : Fits after) where
  sum_later : ◌≤ℤ◌ (sum before) (sum after)
  sum_later = omega (
    arith,
    l.user,
    l.nice,
    l.system,
    l.idle,
    l.iowait,
    l.irq,
    l.softirq,
    l.steal,
    sum_parts before,
    sum_parts after,
  )

  sum_delta : wrap64 (total after -ℤ total before) ≡ sum after -ℤ sum before
  sum_delta =
      let eb = sum_parts before in
      let ea = sum_parts after in
      let nonneg : ◌≤ℤ◌ (pos 0) (sum after) = omega (arith, ea, fa.nonneg) in
      rw (total-Fits before fb, total-Fits after fa)
        (delta_fits (sum after) (sum before) sum_later (omega (arith, eb, fb.nonneg))
          (omega (arith, ea, one_part (sum after) nonneg, fa.nonneg, fa.small)))

  idle_delta :
      wrap64 (idle_total after -ℤ idle_total before)
      ≡ (after.idle +ℤ after.iowait) -ℤ (before.idle +ℤ before.iowait)
  idle_delta =
      let eb = +ℤ_parts before.idle before.iowait in
      let ea = +ℤ_parts after.idle after.iowait in
      let nonneg : ◌≤ℤ◌ (pos 0) (after.idle +ℤ after.iowait) = omega (arith, ea, fa.nonneg) in
      rw (idle_total-Fits before fb, idle_total-Fits after fa)
        (delta_fits (after.idle +ℤ after.iowait) (before.idle +ℤ before.iowait)
          (omega (arith, ea, eb, l.idle, l.iowait)) (omega (arith, eb, fb.nonneg))
          (omega (arith, ea, one_part _ nonneg, fa.nonneg, fa.small)))

  -- Not less than none and not more than all of the time that went by was idle.
  idle_delta-le :
      let idle = (after.idle +ℤ after.iowait) -ℤ (before.idle +ℤ before.iowait) in
      ◌≤ℤ◌ (pos 0) idle × ◌≤ℤ◌ idle (sum after -ℤ sum before)
  idle_delta-le =
      let eb = +ℤ_parts before.idle before.iowait in
      let ea = +ℤ_parts after.idle after.iowait in
      let e = -ℤ_parts (after.idle +ℤ after.iowait) (before.idle +ℤ before.iowait) in
      (
        omega (arith, l.idle, l.iowait, eb, ea, e),
        omega (
          arith,
          l.user,
          l.nice,
          l.system,
          l.irq,
          l.softirq,
          l.steal,
          eb,
          ea,
          e,
          sum_parts before,
          sum_parts after,
          -ℤ_parts (sum after) (sum before),
        ),
      )

-- Where none of the counters is negative or went back between the two readings, and the counters of each
-- reading add up to less than 2^63, the idle fraction lies between 0 and 1, and its denominator is
-- positive.
pub idle_fraction-IsProper :
    (before after : CpuStat)
    → Later before after
    → Fits before
    → Fits after
    → IsProper (idle_fraction before after)
unfolding idle_fraction
idle_fraction-IsProper before after l fb fa =
    let (nonneg, le) = idle_delta-le before after l fb fa in
    rw (sum_delta before after l fb fa, idle_delta before after l fb fa)
      (elim (Bool-cases (is_positive (sum after -ℤ sum before))) [
        | inl e ↦ rw e (record { some_time = e; nonneg = nonneg; le = le })
        | inr e ↦ rw e (record { some_time = refl; nonneg = omega arith; le = omega arith })
      ])

-- A counter with the number that is written in the field of this index, counted from 0.
abbrev pub Column : List Text → ℕ → ℤ → Type 0
Column fs i x = (t : Text) × (get_elem? fs i ≡ some t) × (x ≡ (parse_int t).0)

-- The counters in the order of proc(5), behind the name of the line.
pub record Columns (fs : List Text) (s : CpuStat) : Type 0 where
  pub user : Column fs 1 s.user
  pub nice : Column fs 2 s.nice
  pub system : Column fs 3 s.system
  pub idle : Column fs 4 s.idle
  pub iowait : Column fs 5 s.iowait
  pub irq : Column fs 6 s.irq
  pub softirq : Column fs 7 s.softirq
  pub steal : Column fs 8 s.steal

-- What a line for all processors gives, by its fields.
abbrev pub Reads : List Text → StatAnswer → Type 0
Reads fs (stat s) = (9 ≤ length fs) × Columns fs s
Reads fs panics = (5 ≤ length fs) × (length fs ≤ 8)
Reads fs bad_format = length fs ≤ 4
Reads fs _ = ⊥

parse_stat-Reads : (fs : List Text) → 5 ≤ length fs → Reads fs (parse_stat fs)
unfolding parse_stat
parse_stat-Reads [] h = omega arith
parse_stat-Reads (c ∷ []) h = omega arith
parse_stat-Reads (c ∷ d ∷ []) h = omega arith
parse_stat-Reads (c ∷ d ∷ e ∷ []) h = omega arith
parse_stat-Reads (c ∷ d ∷ e ∷ f ∷ []) h = omega arith
parse_stat-Reads (c ∷ d ∷ e ∷ f ∷ g ∷ []) h = omega arith
parse_stat-Reads (c ∷ d ∷ e ∷ f ∷ g ∷ i ∷ []) h = omega arith
parse_stat-Reads (c ∷ d ∷ e ∷ f ∷ g ∷ i ∷ j ∷ []) h = omega arith
parse_stat-Reads (c ∷ d ∷ e ∷ f ∷ g ∷ i ∷ j ∷ k ∷ []) h = omega arith
parse_stat-Reads (c ∷ d ∷ e ∷ f ∷ g ∷ i ∷ j ∷ k ∷ l ∷ fs) h = (
  omega arith,
  record {
    user = (d, refl, refl);
    nice = (e, refl, refl);
    system = (f, refl, refl);
    idle = (g, refl, refl);
    iowait = (i, refl, refl);
    irq = (j, refl, refl);
    softirq = (k, refl, refl);
    steal = (l, refl, refl);
  },
)

stat_line-Reads : (line : Text) → Reads (fields line) (stat_line line)
unfolding stat_line
stat_line-Reads line = elim (Bool-cases (ltb (length (fields line)) 5)) [
  | inl e ↦ rw e (ground arith)
  | inr e ↦ rw e (parse_stat-Reads (fields line) (ground arith))
]

-- `readCPUStat` reads the first line that begins with "cpu ": with nine fields or more it returns
-- the counters, each the number in its own field, with five to eight it panics, and with fewer it
-- returns an error.
pub read_cpu_stat-Reads :
    (skipped rest : List Text) (line : Text)
    → All (λ (l : Text). has_prefix (codes "cpu ") l ≡ false) skipped
    → has_prefix (codes "cpu ") line ≡ true
    → (failed : Bool)
    → Reads
        (fields line)
        (read_cpu_stat (some (record { lines = skipped ++ line ∷ rest; scan_failed = failed })))
unfolding read_cpu_stat stat_loop
read_cpu_stat-Reads [] rest line n h failed = rw h (stat_line-Reads line)
read_cpu_stat-Reads (l ∷ skipped) rest line (n, ns) h failed =
    rw n (read_cpu_stat-Reads skipped rest line ns h failed)
