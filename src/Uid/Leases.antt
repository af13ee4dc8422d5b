-- ===== src/Uid/Leases.antt =====
-- Who holds which user id, for callers that return each id they were given once.
use herd.Common.{
  ℕ, zero, suc, ◌+◌, ◌≤◌, ◌<◌, ◌≡◌, ◌↔◌, ◌⊎◌, ◌++◌, ◌&&◌, inl, inr, refl, sym, ap, subst, true,
  false, List, [], ◌∷◌, Option, none, ltb, leb, Bool-cases, ◌==◌, one, if◌then◌else◌, length,
  length-append, total, total-append, arith, ◌^◌,
}
use herd.Common.Int.{ℤ, pos_part, is_positive}
use herd.Uid.Defs.{
  Pool, Error, bad_start, bad_size, exhausted, range, new_pool, checkout, return_uid,
}

abbrev pub count : ℕ → List ℕ → ℕ
count u = total (λ v. one (v == u))

-- A pool and the ids that its callers hold.
pub record House : Type 0 where
  pub pool : Pool
  pub leased : List ℕ

-- Each id of the range is in the channel or leased, once.
pub record IsSound (h : House) : Type 0 where
  pub once :
      (u : ℕ) → count u h.pool.ch + count u h.leased ≡ one (leb h.pool.first u && ltb u h.pool.last)
  pub sized : length h.pool.ch + length h.leased ≡ h.pool.cap

unfoldable pub remove_first : ℕ → List ℕ → List ℕ
remove_first u [] = []
remove_first u (v ∷ vs) = if v == u then vs else v ∷ remove_first u vs

-- A caller checks an id out, or returns one that it holds.
pub data Step : House → House → Type 0 where
  lease :
      (h : House) (uid : ℕ) (q : Pool)
      → checkout h.pool ≡ (q, inr uid)
      → Step h (record { pool = q; leased = uid ∷ h.leased })
  give_back :
      (h : House) (uid : ℕ)
      → 0 < count uid h.leased
      → Step h (record { pool = (return_uid h.pool uid).0; leased = remove_first uid h.leased })

pub data Reach (h : House) : House → Type 0 where
  here : Reach h h
  next : {g k : House} → Reach h g → Step g k → Reach h k

count-range : (u first n : ℕ) → count u (range first n) ≡ one (leb first u && ltb u (first + n))
unfolding range
count-range u first zero = ground arith
count-range u first (suc n) = ground (arith, count-range u (first + 1) n)

length-range : (first n : ℕ) → length (range first n) ≡ n
unfolding range
length-range first zero = refl
length-range first (suc n) = omega (arith, length-range (first + 1) n)

count-remove_first :
    (u v : ℕ) (vs : List ℕ)
    → 0 < count v vs
    → count u (remove_first v vs) + one (v == u) ≡ count u vs
unfolding remove_first
count-remove_first u v [] h = absurd (omega arith)
count-remove_first u v (w ∷ vs) h = ground (arith, count-remove_first u v vs)

length-remove_first :
    (v : ℕ) (vs : List ℕ) → 0 < count v vs → length (remove_first v vs) + 1 ≡ length vs
unfolding remove_first
length-remove_first v [] h = absurd (omega arith)
length-remove_first v (w ∷ vs) h = ground (arith, length-remove_first v vs)

count-pos-length : (v : ℕ) (vs : List ℕ) → 0 < count v vs → 0 < length vs
count-pos-length v [] h = absurd (omega arith)
count-pos-length v (w ∷ vs) h = omega arith

-- `NewPool` of a positive start and size, of which the size is not above the limit of `make` and the sum
-- is an int, gives a sound pool with nothing leased, which hands out the ids of [start, start + size) in
-- ascending order.
pub new_pool-IsSound :
    (limit : ℕ) (start size : ℤ)
    → is_positive start ≡ true
    → is_positive size ≡ true
    → pos_part size ≤ limit
    → pos_part start + pos_part size < 2 ^ 63
    → (p : Pool) × (new_pool limit start size ≡ inr p)
      × (p.ch ≡ range (pos_part start) (pos_part size))
      × IsSound (record { pool = p; leased = [] })
unfolding new_pool
new_pool-IsSound limit start size a b c d = (
  record {
    ch = range (pos_part start) (pos_part size);
    cap = pos_part size;
    first = pos_part start;
    last = pos_part start + pos_part size;
  },
  let fits : ltb limit (pos_part size) ≡ false = ground arith in
      let ends : leb (2 ^ 63) (pos_part start + pos_part size) ≡ false = ground arith in
      rw (a, b, fits, ends),
  refl,
  record {
    once = λ u. omega (arith, count-range u (pos_part start) (pos_part size));
    sized = omega (arith, length-range (pos_part start) (pos_part size));
  },
)

-- `NewPool` refuses a start that is not positive, and otherwise a size that is not positive, each
-- with its own error.
pub new_pool_refused :
    (limit : ℕ) (start size : ℤ)
    → is_positive start && is_positive size ≡ false
    → new_pool limit start size ≡ inl (if is_positive start then bad_size else bad_start)
unfolding new_pool
new_pool_refused limit start size h = elim (Bool-cases (is_positive start)) [
  | inl a ↦ elim (Bool-cases (is_positive size)) [ inl b ↦ ground arith | inr b ↦ rw (a, b) ]
  | inr a ↦ rw a
]

-- A caller that returns an id that it holds gets no error.
pub return_leased :
    (h : House) (uid : ℕ)
    → IsSound h
    → 0 < count uid h.leased
    → return_uid h.pool uid ≡ (record h.pool { ch = h.pool.ch ++ uid ∷ [] }, none)
unfolding return_uid
return_leased h uid s l = ground (arith, s.once uid, s.sized, count-pos-length uid h.leased l)

lease-IsSound :
    (h : House) (uid : ℕ) (rest : List ℕ)
    → h.pool.ch ≡ uid ∷ rest
    → IsSound h
    → IsSound (record { pool = record h.pool { ch = rest }; leased = uid ∷ h.leased })
lease-IsSound h uid rest e s = record {
  once = λ u. ground (arith, s.once u);
  sized = ground (arith, s.sized);
}

-- A successful `Checkout` takes the first id of the channel.
checkout_some :
    (p : Pool) (uid : ℕ) (q : Pool) (l : List ℕ)
    → p.ch ≡ l
    → checkout p ≡ (q, inr uid)
    → (rest : List ℕ) × (p.ch ≡ uid ∷ rest) × (q ≡ record p { ch = rest })
unfolding checkout
checkout_some p uid q [] c e = ground arith
checkout_some p uid q (v ∷ rest) c e = (rest, ground arith, ground arith)

give_back-IsSound :
    (h : House) (uid : ℕ)
    → IsSound h
    → 0 < count uid h.leased
    → IsSound (record {
      pool = record h.pool { ch = h.pool.ch ++ uid ∷ [] };
      leased = remove_first uid h.leased;
    })
give_back-IsSound h uid s l = record {
  once = λ u. ground (
    arith,
    s.once u,
    total-append (λ v. one (v == u)) h.pool.ch (uid ∷ []),
    count-remove_first u uid h.leased l,
  );
  sized =
      ground (
        arith,
        s.sized,
        length-append {0} h.pool.ch (uid ∷ []),
        length-remove_first uid h.leased l,
      );
}

checkout_split :
    (p : Pool) (l : List ℕ)
    → p.ch ≡ l
    → (checkout p ≡ (p, inl exhausted)) ⊎ ((q : Pool) × (uid : ℕ) × (checkout p ≡ (q, inr uid)))
unfolding checkout
checkout_split p [] e = inl (ground arith)
checkout_split p (u ∷ l) e = inr (record p { ch = l }, u, ground arith)

pub checkout-cases :
    (p : Pool)
    → (checkout p ≡ (p, inl exhausted)) ⊎ ((q : Pool) × (uid : ℕ) × (checkout p ≡ (q, inr uid)))
checkout-cases p = checkout_split p p.ch refl

-- `Checkout` of a sound pool that succeeds, and `Return` of a leased id, keep it sound.
pub lease_taken-IsSound :
    (p q : Pool) (uid : ℕ) (us : List ℕ)
    → checkout p ≡ (q, inr uid)
    → IsSound (record { pool = p; leased = us })
    → IsSound (record { pool = q; leased = uid ∷ us })
lease_taken-IsSound p q uid us e s =
    let (rest, c, d) = checkout_some p uid q p.ch refl e in
    subst (λ (r : Pool). IsSound (record { pool = r; leased = uid ∷ us })) (sym d)
      (lease-IsSound (record { pool = p; leased = us }) uid rest c s)

pub give_back_first-IsSound :
    (p : Pool) (uid : ℕ) (us : List ℕ)
    → IsSound (record { pool = p; leased = uid ∷ us })
    → IsSound (record { pool = (return_uid p uid).0; leased = us })
unfolding remove_first
give_back_first-IsSound p uid us s =
    let h : House = record { pool = p; leased = uid ∷ us } in
    let back : 0 < count uid h.leased = ground arith in
    let same : remove_first uid (uid ∷ us) ≡ us = ground arith in
    rw (return_leased h uid s back, ← same) (give_back-IsSound h uid s back)

pub Step-IsSound : {h k : House} → Step h k → IsSound h → IsSound k
Step-IsSound (lease h uid q e) s =
    let (rest, c, d) = checkout_some h.pool uid q h.pool.ch refl e in
    subst (λ (r : Pool). IsSound (record { pool = r; leased = uid ∷ h.leased })) (sym d)
      (lease-IsSound h uid rest c s)
Step-IsSound (give_back h uid l) s =
    subst (λ (r : Pool). IsSound (record { pool = r; leased = remove_first uid h.leased }))
      (sym (ap (λ (r : Pool × Option Error). r.0) (return_leased h uid s l)))
      (give_back-IsSound h uid s l)

pub Reach-IsSound : {h k : House} → IsSound h → Reach h k → IsSound k
Reach-IsSound s here = s
Reach-IsSound s (next r st) = Step-IsSound st (Reach-IsSound s r)

-- Of callers that return each id that they were given once: whatever they have done with a sound
-- pool, an id that `Checkout` gives out is in the pool's range and held by nobody, and afterwards no
-- id at all is held twice.
pub checkout_exclusive :
    (h k : House) (uid : ℕ) (q : Pool)
    → IsSound h
    → Reach h k
    → checkout k.pool ≡ (q, inr uid)
    → (count uid k.leased ≡ 0)
      × (k.pool.first ≤ uid)
      × (uid < k.pool.last)
      × ((u : ℕ) → count u (uid ∷ k.leased) ≤ 1)
checkout_exclusive h k uid q s r e =
    let v = Reach-IsSound s r in
    let (rest, c, d) = checkout_some k.pool uid q k.pool.ch refl e in
    (
      ground (arith, v.once uid, ap (count uid) c),
      ground (arith, v.once uid, ap (count uid) c),
      ground (arith, v.once uid, ap (count uid) c),
      λ u. ground (arith, v.once u, ap (count u) c),
    )

checkout_empty :
    (k : House) (l : List ℕ)
    → k.pool.ch ≡ l
    → IsSound k
    → (checkout k.pool ≡ (k.pool, inl exhausted)) ↔ (length k.leased ≡ k.pool.cap)
unfolding checkout
checkout_empty k [] e v = ground (arith, v.sized)
checkout_empty k (u ∷ l) e v = ground (arith, v.sized)

-- Of such callers: `Checkout` fails exactly when as many ids are leased as the pool has.
pub checkout_exhausted_iff :
    (h k : House)
    → IsSound h
    → Reach h k
    → (checkout k.pool ≡ (k.pool, inl exhausted)) ↔ (length k.leased ≡ k.pool.cap)
checkout_exhausted_iff h k s r = checkout_empty k k.pool.ch refl (Reach-IsSound s r)

-- Outside that discipline: an id of the range whose pool has room for two is accepted twice, and
-- is then twice in the channel, although it may be leased.
pub double_return :
    (p : Pool) (uid : ℕ)
    → p.first ≤ uid
    → uid < p.last
    → length p.ch + 2 ≤ p.cap
    → ((return_uid p uid).1 ≡ none)
      × ((return_uid (return_uid p uid).0 uid).1 ≡ none)
      × (count uid (return_uid (return_uid p uid).0 uid).0.ch ≡ count uid p.ch + 2)
unfolding return_uid
double_return p uid a b c = ground (
  arith,
  length-append {0} p.ch (uid ∷ []),
  total-append (λ v. one (v == uid)) p.ch (uid ∷ []),
  total-append (λ v. one (v == uid)) (p.ch ++ uid ∷ []) (uid ∷ []),
)
