-- ===== src/Vitup/Initials/Templates.antt =====
-- The wallets that `templates` of vitup/src/config/initials.rs makes.
use vit_testing.Prelude.{
  ℕ, zero, suc, ◌+◌, ◌-◌, ◌*◌, ◌^◌, ◌≤◌, ◌<◌, String, ◌≡◌, refl, sym, ap, ◌∙◌, List, [], ◌∷◌, ◌++◌,
  length, length-append, All, All-append, ge→ltb, lt→ltb, arith,
}
use vit_testing.Mock.Run.{Run, returns, ◌>>=◌, checked-eq-returns}
use vit_testing.Vitup.Initials.{
  Initial, above_threshold, below_threshold, zero_funds, wallet, external, Alias, above, below,
  named, Template, Rng, Progress, next_index, draw, add_u64, add_above, add_below, add_initial,
  add_initials, templates, count, count_from, wallets_of, grace_value,
}

-- The generator draws from the range that it is given.
abbrev pub DrawsInRange : Rng → Type 0
DrawsInRange rng =
    (lo hi : ℕ) (seed : rng.Seed)
    → lo ≤ hi
    → (lo ≤ (rng.gen_range lo hi seed).0) × ((rng.gen_range lo hi seed).0 ≤ hi)

abbrev ValueInRange : ℕ → Alias → ℕ → Type 0
ValueInRange threshold (above _ _) value = (threshold < value) × (value < 2 * threshold)
ValueInRange threshold (below _ _) value = (0 < value) × (value < threshold)
ValueInRange threshold (named _) value = Unit

-- A wallet above the threshold has more than it and less than twice as much; one below has less, and
-- something.
abbrev pub IsInRange : ℕ → Template → Type 0
IsInRange threshold t = ValueInRange threshold t.alias t.value

-- The wallets of each kind that an initial stands for.
unfoldable pub above_of : Initial → ℕ
above_of (above_threshold n _) = n
above_of _ = 0

unfoldable pub below_of : Initial → ℕ
below_of (below_threshold n _) = n
below_of _ = 0

unfoldable pub named_of : Initial → ℕ
named_of (wallet _ _ _) = 1
named_of _ = 0

-- Those that are in the map: the ones without funds are left out.
abbrev pub funded_of : Initial → ℕ
funded_of i = above_of i + below_of i + named_of i

unfoldable pub zero_of : Initial → ℕ
zero_of (zero_funds n _) = n
zero_of _ = 0

unfoldable pub total : (Initial → ℕ) → List Initial → ℕ
total f [] = 0
total f (i ∷ is) = f i + total f is

module _ (rng : Rng) (draws : DrawsInRange rng) (threshold : ℕ) (large : 1 < threshold)
    (fits : 2 * threshold ≤ 2 ^ 64) where
  -- So many entries, all in range, after so many wallets above and below the threshold.
  abbrev Holds : ℕ → ℕ → ℕ → Progress rng → Type 0
  Holds k a b s =
      (length s.templates ≡ k)
      × All (IsInRange threshold) s.templates
      × (s.above_threshold_index ≡ a)
      × (s.below_threshold_index ≡ b)

  abbrev Gives : ℕ → ℕ → ℕ → Run (Progress rng) → Type 0
  Gives k a b m = (s : Progress rng) × (m ≡ returns s) × Holds k a b s

  push :
      (k : ℕ) (ts : List Template) (t : Template)
      → (length ts ≡ k) × All (IsInRange threshold) ts
      → IsInRange threshold t
      → (length (ts ++ t ∷ []) ≡ suc k) × All (IsInRange threshold) (ts ++ t ∷ [])
  push k ts t h r = (
    omega (arith, length-append ts (t ∷ [])),
    All-append (IsInRange threshold) ts (t ∷ []) h.1 (r, tt),
  )

  draw-eq-returns :
      (seed : rng.Seed)
      → draw rng threshold seed ≡ returns (rng.gen_range grace_value (threshold - grace_value) seed)
  unfolding draw
  draw-eq-returns seed = rw (ge→ltb threshold 2 (omega arith))

  add_u64-eq-returns : (v : ℕ) → v < threshold → add_u64 rng threshold v ≡ returns (threshold + v)
  unfolding add_u64
  add_u64-eq-returns v h = rw (lt→ltb (threshold + v) (2 ^ 64) (omega arith))

  next_index-eq-returns : (i a : ℕ) → i ≡ a → a + 1 < 2 ^ 31 → next_index rng i ≡ returns (i + 1)
  unfolding next_index
  next_index-eq-returns i a e h = rw (lt→ltb (i + 1) (2 ^ 31) (omega arith))

  -- The progress after one more wallet above the threshold, or below it.
  abbrev next_above : String → Progress rng → Progress rng
  next_above pin s =
      let (v, seed) = rng.gen_range 1 (threshold - 1) s.seed in
      record s {
        seed = seed;
        above_threshold_index = s.above_threshold_index + 1;
        templates =
            s.templates
            ++ record {
              alias = above (s.above_threshold_index + 1) threshold;
              value = threshold + v;
              pin = pin;
            }
              ∷ [];
      }

  abbrev next_below : String → Progress rng → Progress rng
  next_below pin s =
      let (v, seed) = rng.gen_range 1 (threshold - 1) s.seed in
      record s {
        seed = seed;
        below_threshold_index = s.below_threshold_index + 1;
        templates =
            s.templates
            ++ record {
              alias = below (s.below_threshold_index + 1) threshold;
              value = threshold - v;
              pin = pin;
            }
              ∷ [];
      }

  next_above-Holds :
      (k a b : ℕ) (pin : String) (s : Progress rng)
      → Holds k a b s
      → Holds (suc k) (a + 1) b (next_above pin s)
  next_above-Holds k a b pin s (l, r, i, j) =
      let (low, high) = draws 1 (threshold - 1) s.seed (omega arith) in
      let (l', r') =
        push k s.templates (record { alias = above _ _; value = _; pin = pin }) (l, r)
          (omega arith, omega arith) in
      (l', r', ap (λ n. n + 1) i, j)

  next_below-Holds :
      (k a b : ℕ) (pin : String) (s : Progress rng)
      → Holds k a b s
      → Holds (suc k) a (b + 1) (next_below pin s)
  next_below-Holds k a b pin s (l, r, i, j) =
      let (low, high) = draws 1 (threshold - 1) s.seed (omega arith) in
      let (l', r') =
        push k s.templates (record { alias = below _ _; value = _; pin = pin }) (l, r)
          (omega arith, omega arith) in
      (l', r', i, ap (λ n. n + 1) j)

  drawn_small : (s : Progress rng) → (rng.gen_range 1 (threshold - 1) s.seed).0 < threshold
  drawn_small s = omega (arith, (draws 1 (threshold - 1) s.seed (omega arith)).1)

  -- The counts can be given up to an equation.
  counted :
      (k j a c b d : ℕ) (s : Progress rng) → Holds k a b s → j ≡ k → c ≡ a → d ≡ b → Holds j c d s
  counted k j a c b d s (l, r, x, y) e f g = (l ∙ sym e, r, x ∙ sym f, y ∙ sym g)

  add_above-Gives :
      (n k a b : ℕ) (pin : String) (s : Progress rng)
      → Holds k a b s
      → a + n < 2 ^ 31
      → Gives (k + n) (a + n) b (add_above rng threshold n pin s)
  unfolding add_above
  add_above-Gives zero k a b pin s h m =
      (s, refl, counted k (k + 0) a (a + 0) b b s h (omega arith) (omega arith) refl)
  add_above-Gives (suc n) k a b pin s h m =
      rw
        (
          next_index-eq-returns _ a h.2 (omega arith),
          draw-eq-returns s.seed,
          add_u64-eq-returns _ (drawn_small s),
        )
        (let (s', run, h') =
            add_above-Gives n (suc k) (a + 1) b pin (next_above pin s)
              (next_above-Holds k a b pin s h) (omega arith) in
          (s', run, counted _ _ _ _ b b s' h' (omega arith) (omega arith) refl))

  add_below-Gives :
      (n k a b : ℕ) (pin : String) (s : Progress rng)
      → Holds k a b s
      → b + n < 2 ^ 31
      → Gives (k + n) a (b + n) (add_below rng threshold n pin s)
  unfolding add_below
  add_below-Gives zero k a b pin s h m =
      (s, refl, counted k (k + 0) a a b (b + 0) s h (omega arith) refl (omega arith))
  add_below-Gives (suc n) k a b pin s h m =
      rw (next_index-eq-returns _ b h.3 (omega arith), draw-eq-returns s.seed)
        (let (s', run, h') =
            add_below-Gives n (suc k) a (b + 1) pin (next_below pin s)
              (next_below-Holds k a b pin s h) (omega arith) in
          (s', run, counted _ _ a a _ _ s' h' (omega arith) refl (omega arith)))

  add_initial-Gives :
      (i : Initial) (k a b : ℕ) (s : Progress rng)
      → Holds k a b s
      → a + above_of i < 2 ^ 31
      → b + below_of i < 2 ^ 31
      → Gives (k + funded_of i) (a + above_of i) (b + below_of i) (add_initial rng threshold i s)
  unfolding add_initial above_of below_of named_of
  add_initial-Gives (above_threshold n pin) k a b s h x y =
      let (s', run, h') = add_above-Gives n k a b pin s h x in
      (s', run, counted _ _ _ _ _ _ s' h' (omega arith) refl (omega arith))
  add_initial-Gives (below_threshold n pin) k a b s h x y =
      let (s', run, h') = add_below-Gives n k a b pin s h y in
      (s', run, counted _ _ _ _ _ _ s' h' (omega arith) (omega arith) refl)
  add_initial-Gives (zero_funds n pin) k a b s h x y =
      (s, refl, counted _ _ _ _ _ _ s h (omega arith) (omega arith) (omega arith))
  add_initial-Gives (external address f) k a b s h x y =
      (s, refl, counted _ _ _ _ _ _ s h (omega arith) (omega arith) (omega arith))
  add_initial-Gives (wallet name funds pin) k a b s (l, r, i, j) x y =
      let t : Template = record { alias = named name; value = funds; pin = pin } in
      let (l', r') = push k s.templates t (l, r) tt in
      (_, refl, (omega (arith, l'), r', omega (arith, i), omega (arith, j)))

  add_initials-Gives :
      (is : List Initial) (k a b : ℕ) (s : Progress rng)
      → Holds k a b s
      → a + total above_of is < 2 ^ 31
      → b + total below_of is < 2 ^ 31
      → Gives
          (k + total funded_of is)
          (a + total above_of is)
          (b + total below_of is)
          (add_initials rng threshold is s)
  unfolding add_initials total
  add_initials-Gives [] k a b s h x y =
      (s, refl, counted _ _ _ _ _ _ s h (omega arith) (omega arith) (omega arith))
  add_initials-Gives (i ∷ is) k a b s h x y =
      let (s', run, h') = add_initial-Gives i k a b s h (omega arith) (omega arith) in
      let (s'', run', h'') =
        add_initials-Gives is (k + funded_of i) (a + above_of i) (b + below_of i) s' h'
          (omega arith) (omega arith) in
      (
        s'',
        ap (λ m. m >>= add_initials rng threshold is) run ∙ run',
        counted _ _ _ _ _ _ s'' h'' (omega arith) (omega arith) (omega arith),
      )

wallets_of-funded : (i : Initial) → wallets_of i ≡ funded_of i + zero_of i
unfolding wallets_of above_of below_of named_of zero_of
wallets_of-funded (above_threshold n pin) = omega arith
wallets_of-funded (below_threshold n pin) = omega arith
wallets_of-funded (zero_funds n pin) = omega arith
wallets_of-funded (wallet name funds pin) = omega arith
wallets_of-funded (external a f) = omega arith

count_from-total :
    (sum : ℕ) (is : List Initial)
    → sum + (total funded_of is + total zero_of is) < 2 ^ 64
    → count_from sum is ≡ returns (sum + (total funded_of is + total zero_of is))
unfolding count_from total
count_from-total sum [] h = ap returns (omega arith)
count_from-total sum (i ∷ is) h =
    let w = wallets_of-funded i in
    ap (λ m. m >>= λ sum'. count_from sum' is)
      (checked-eq-returns (sum + wallets_of i) (omega (arith, h, w)))
    ∙ (count_from-total (sum + wallets_of i) is (omega (arith, h, w))
        ∙ ap returns (omega (arith, w)))

-- With a threshold of at least 2 that can be doubled in 64 bits, fewer than 2^31 wallets above it and
-- below it each, and fewer than 2^64 in all, and a generator that draws from the range that it is
-- given, neither `templates` nor `count` panics: `templates` inserts as many wallets as `count` says
-- less those without funds, each in the range of its kind.
pub templates-IsInRange :
    (rng : Rng) (seed : rng.Seed) (threshold : ℕ) (is : List Initial)
    → DrawsInRange rng
    → 1 < threshold
    → 2 * threshold ≤ 2 ^ 64
    → total above_of is < 2 ^ 31
    → total below_of is < 2 ^ 31
    → total funded_of is + total zero_of is < 2 ^ 64
    → (ts : List Template) × (templates rng threshold seed is ≡ returns ts)
      × (count is ≡ returns (length ts + total zero_of is))
      × All (IsInRange threshold) ts
unfolding templates count
templates-IsInRange rng seed threshold is draws large fits few_above few_below few =
    let s₀ : Progress rng = record {
      seed = seed;
      above_threshold_index = 0;
      below_threshold_index = 0;
      templates = [];
    } in
    let (s, run, (l, r, _, _)) =
      add_initials-Gives rng draws threshold large fits is 0 0 0 s₀ (refl, tt, refl, refl)
        (omega (arith, few_above)) (omega (arith, few_below)) in
    (
      s.templates,
      ap (λ m. m >>= λ s'. returns s'.templates) run,
      count_from-total 0 is (omega (arith, few)) ∙ ap returns (omega (arith, l)),
      r,
    )
