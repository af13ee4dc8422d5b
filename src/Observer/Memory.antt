-- ===== src/Observer/Memory.antt =====
-- That the lines of /proc/meminfo are read back.
use herd.Common.{
  ℕ, zero, suc, ◌+◌, ◌-◌, ◌*◌, ◌^◌, ◌≡◌, ◌≤◌, ◌<◌, refl, inl, inr, true, false, Bool-cases, List,
  [], ◌∷◌, ◌++◌, some, ◌==◌, ltb, length, arith, All, replicate,
}
use herd.Common.Int.{pos, wrap64_small}
use herd.Common.Text.{Text, codes, text_eq, is_empty}
use herd.Common.Numerals.{value, digits, value-digits, Digits, digits-Digits, length-digits_pos}
use herd.Common.Fields.{
  fields, fields_one, fields-append, fields-space, NoSpace, NoSpace-append, Digits-NoSpace,
  trim_suffix, trim_suffix-snoc, parse_int, signed,
}
use herd.Observer.Defs.{times_1024, MemInfo, mem_entry, mem_line, mem_loop, read_mem_info}

-- "MemTotal:       16384000 kB", with one space or more after the key.
pub mem_text : Text → ℕ → ℕ → Text
mem_text key spaces n =
    (key ++ b':' ∷ []) ++ b' ' ∷ (replicate spaces b' ' ++ (digits 19 n [] ++ b' ' ∷ codes "kB"))

-- The key of a line, without its colon.
abbrev pub key_of : List Text → Text
key_of [] = []
key_of (k ∷ ks) = trim_suffix b':' k

pub record IsOther (line : Text) : Type 0 where
  pub not_total : text_eq (codes "MemTotal") (key_of (fields line)) ≡ false
  pub not_available : text_eq (codes "MemAvailable") (key_of (fields line)) ≡ false

mem_line-other :
    (fs : List Text) (info : MemInfo)
    → text_eq (codes "MemTotal") (key_of fs) ≡ false
    → text_eq (codes "MemAvailable") (key_of fs) ≡ false
    → mem_line fs info ≡ (info, 0)
unfolding mem_line mem_entry
mem_line-other [] info t a = refl
mem_line-other (k ∷ []) info t a = refl
mem_line-other (k ∷ v ∷ fs) info t a = elim (Bool-cases (parse_int v).1) [
  | inl e ↦ rw (e, t, a) refl
  | inr e ↦ rw e refl
]

signed-some :
    (max n : ℕ) (t : Text)
    → 0 < length t
    → value 0 t ≡ some n
    → n ≤ max
    → signed max pos t ≡ (pos n, true)
unfolding signed
signed-some max n [] l e h = absurd (omega arith)
signed-some max n (c ∷ t) l e h = ground arith

parse_int_unsigned :
    (t : Text) (n : ℕ)
    → Digits t
    → 0 < length t
    → value 0 t ≡ some n
    → n ≤ 2 ^ 63 - 1
    → parse_int t ≡ (pos n, true)
unfolding parse_int
parse_int_unsigned [] n d l e h = absurd (omega arith)
parse_int_unsigned (c ∷ t) n (d, ds) l e h =
    let minus : (c == b'-') ≡ false = ground arith in
    let plus : (c == b'+') ≡ false = ground arith in
    rw (minus, plus) (signed-some (2 ^ 63 - 1) n (c ∷ t) l e h)

parse_int-digits : (n : ℕ) → n ≤ 2 ^ 63 - 1 → parse_int (digits 19 n []) ≡ (pos n, true)
unfolding value
parse_int-digits n h =
    parse_int_unsigned (digits 19 n []) n (digits-Digits 19 n [] tt) (length-digits_pos 18 n)
      (value-digits 19 n [] (omega arith)) h

fields-spaces : (k : ℕ) (t : Text) → fields (replicate k b' ' ++ t) ≡ fields t
fields-spaces zero t = refl
fields-spaces (suc k) t = rw (fields-space (replicate k b' ' ++ t) b' ' refl) (fields-spaces k t)

not_empty : (t : Text) → 0 < length t → is_empty t ≡ false
not_empty [] h = absurd (omega arith)
not_empty (c ∷ t) h = refl

colon_not_empty : (t : Text) → is_empty (t ++ b':' ∷ []) ≡ false
colon_not_empty [] = refl
colon_not_empty (c ∷ t) = refl

fields-mem_text :
    (key : Text) (k n : ℕ)
    → NoSpace key
    → fields (mem_text key k n) ≡ (key ++ b':' ∷ []) ∷ digits 19 n [] ∷ codes "kB" ∷ []
unfolding mem_text
fields-mem_text key k n s =
    rw
      (
        fields-append (key ++ b':' ∷ []) (replicate k b' ' ++ (digits 19 n [] ++ b' ' ∷ codes "kB"))
            b' ' (NoSpace-append key (b':' ∷ []) s (refl, tt)) (colon_not_empty key) refl,
        fields-spaces k (digits 19 n [] ++ b' ' ∷ codes "kB"),
        fields-append (digits 19 n []) (codes "kB") b' '
            (Digits-NoSpace (digits 19 n []) (digits-Digits 19 n [] tt))
            (not_empty (digits 19 n []) (length-digits_pos 18 n)) refl,
        fields_one (codes "kB") (refl, (refl, tt)) refl,
      )
      refl

-- A line with a key gives that key's value.
mem_line-mem_text :
    (key : Text) (k n : ℕ) (info : MemInfo)
    → NoSpace key
    → n ≤ 2 ^ 63 - 1
    → mem_line (fields (mem_text key k n)) info ≡ mem_entry key (pos n) info
unfolding mem_line
mem_line-mem_text key k n info s h =
    rw (fields-mem_text key k n s, parse_int-digits n h, trim_suffix-snoc b':' key) refl

-- The loop while it has found at most one of the two keys.
mem_loop-other :
    (skipped rest : List Text) (found : ℕ) (info : MemInfo)
    → found ≤ 1
    → All IsOther skipped
    → mem_loop (skipped ++ rest) found info ≡ mem_loop rest found info
unfolding mem_loop
mem_loop-other [] rest found info f o = refl
mem_loop-other (l ∷ skipped) rest found info f (o, os) =
    let few : ltb found 2 ≡ true = ground arith in
    ground (
      arith,
      few,
      mem_line-other (fields l) info o.not_total o.not_available,
      mem_loop-other skipped rest found info f os,
    )

mem_loop-found :
    (rest : List Text) (line : Text) (found : ℕ) (info info' : MemInfo)
    → found ≤ 1
    → mem_line (fields line) info ≡ (info', 1)
    → mem_loop (line ∷ rest) found info ≡ mem_loop rest (found + 1) info'
unfolding mem_loop
mem_loop-found rest line found info info' f e = ground arith

mem_loop-two : (rest : List Text) (info : MemInfo) → mem_loop rest 2 info ≡ info
unfolding mem_loop
mem_loop-two [] info = refl
mem_loop-two (l ∷ rest) info = refl

-- From a file with a line for MemTotal before one for MemAvailable, in kB and below 2^53, with any
-- number of spaces and any other lines around them, `readMemInfo` returns the two values in bytes.
pub read_mem_info-mem_text :
    (n m j k : ℕ) (before between after : List Text)
    → n < 2 ^ 53
    → m < 2 ^ 53
    → All IsOther before
    → All IsOther between
    → read_mem_info (
        some (record {
          lines =
              before
              ++ mem_text (codes "MemTotal") j n
                ∷ (between ++ mem_text (codes "MemAvailable") k m ∷ after);
          scan_failed = false;
        }))
      ≡ some (record { total = pos (n * 1024); available = pos (m * 1024) })
unfolding read_mem_info mem_entry text_eq
read_mem_info-mem_text n m j k before between after hn hm ob om =
    let zero_info : MemInfo = record { total = pos 0; available = pos 0 } in
    let one_info : MemInfo = record { total = times_1024 (pos n); available = pos 0 } in
    let info : MemInfo = record { total = times_1024 (pos n); available = times_1024 (pos m) } in
    let plain : NoSpace (codes "MemTotal") =
      (refl, (refl, (refl, (refl, (refl, (refl, (refl, (refl, tt)))))))) in
    let plain' : NoSpace (codes "MemAvailable") = (
      refl,
      (refl, (refl, (refl, (refl, (refl, (refl, (refl, (refl, (refl, (refl, (refl, tt))))))))))),
    ) in
    rw
      (
        mem_loop-other before
            (mem_text (codes "MemTotal") j n
              ∷ (between ++ mem_text (codes "MemAvailable") k m ∷ after))
            0 zero_info (omega arith) ob,
        mem_loop-found (between ++ mem_text (codes "MemAvailable") k m ∷ after)
            (mem_text (codes "MemTotal") j n) 0 zero_info one_info (omega arith)
            (mem_line-mem_text (codes "MemTotal") j n zero_info plain (omega (arith, hn))),
        mem_loop-other between (mem_text (codes "MemAvailable") k m ∷ after) 1 one_info
            (omega arith) om,
        mem_loop-found after (mem_text (codes "MemAvailable") k m) 1 one_info info (omega arith)
            (mem_line-mem_text (codes "MemAvailable") k m one_info plain' (omega (arith, hm))),
        mem_loop-two after info,
        wrap64_small (pos (n * 1024)) (omega arith) (omega (arith, hn)),
        wrap64_small (pos (m * 1024)) (omega arith) (omega (arith, hm)),
      )
      refl
