-- ===== src/Bench/Samples.antt =====
-- What `averageInt64` of perf/avgint.go keeps of its samples.
use gofast.Base.{
  ℕ, ◌+◌, ◌%◌, ◌≤◌, ◌<◌, ◌^◌, ◌≡◌, refl, ap, ◌∙◌, Bool, true, false, List, [], ◌∷◌, ℤ, pos, ltb,
  ltb→lt, lt→ltb, if◌then◌else◌, inl, inr, Bool-cases, length, map, arith,
}
use Prim.Native.Nat.{min, max}
use gofast.Bench.{Average, no_samples, add_int64, add_sample, add_samples}

abbrev pub total : List ℕ → ℕ
total [] = 0
total (x ∷ xs) = x + total xs

abbrev pub least : ℕ → List ℕ → ℕ
least m [] = m
least m (x ∷ xs) = least (min m x) xs

abbrev pub greatest : ℕ → List ℕ → ℕ
greatest m [] = m
greatest m (x ∷ xs) = greatest (max m x) xs

-- The average with samples in it.
abbrev pub kept : ℕ → ℕ → ℕ → ℕ → Average
kept n low high sum = record {
  n = pos n;
  minval = pos low;
  maxval = pos high;
  sum = pos sum;
  init = true;
}

same_kept :
    {n n' sum sum' : ℕ} (low high : ℕ)
    → n ≡ n'
    → sum ≡ sum'
    → kept n low high sum ≡ kept n' low high sum'
same_kept low high a b = cc

add_pos : (a b : ℕ) → a + b < 2 ^ 63 → add_int64 (pos a) (pos b) ≡ pos (a + b)
add_pos a b h =
    let same : (a + b) % 2 ^ 64 ≡ a + b = omega arith in rw (same, lt→ltb (a + b) (2 ^ 63) h)

ltb-min : (low x : ℕ) → ltb x low ≡ true → x ≡ min low x
ltb-min low x t = let h : x < low = ltb→lt x low t in omega arith

not_ltb-min : (low x : ℕ) → ltb x low ≡ false → low ≡ min low x
not_ltb-min low x f = let h : low ≤ x = ground arith in omega arith

ltb-max : (high x : ℕ) → ltb high x ≡ true → x ≡ max high x
ltb-max high x t = let h : high < x = ltb→lt high x t in omega arith

not_ltb-max : (high x : ℕ) → ltb high x ≡ false → high ≡ max high x
not_ltb-max high x f = let h : x ≤ high = ground arith in omega arith

new_least :
    (low x : ℕ)
    → Path
        (Bool × ℤ)
        ((if ltb x low then true else true), (if ltb x low then pos x else pos low))
        (true, pos (min low x))
new_least low x = elim (Bool-cases (ltb x low)) [
  | inl t ↦ rw t (ap (λ (m : ℕ). (true, pos m)) (ltb-min low x t))
  | inr f ↦ rw f (ap (λ (m : ℕ). (true, pos m)) (not_ltb-min low x f))
]

new_greatest : (high x : ℕ) → (if ltb high x then pos x else pos high) ≡ pos (max high x)
new_greatest high x = elim (Bool-cases (ltb high x)) [
  | inl t ↦ rw t (ap pos (ltb-max high x t))
  | inr f ↦ rw f (ap pos (not_ltb-max high x f))
]

add_sample-kept :
    (n low high sum x : ℕ)
    → n + 1 < 2 ^ 63
    → sum + x < 2 ^ 63
    → add_sample (kept n low high sum) (pos x) ≡ kept (n + 1) (min low x) (max high x) (sum + x)
unfolding add_sample
add_sample-kept n low high sum x h k =
    rw (add_pos n 1 h, add_pos sum x k)
      (ap
          (λ (p : Bool × ℤ). record {
            n = pos (n + 1);
            minval = p.1;
            maxval = if ltb high x then pos x else pos high;
            sum = pos (sum + x);
            init = p.0;
          })
          (new_least low x)
        ∙ ap
            (λ (v : ℤ). record {
              n = pos (n + 1);
              minval = pos (min low x);
              maxval = v;
              sum = pos (sum + x);
              init = true;
            })
            (new_greatest high x))

add_samples-kept :
    (xs : List ℕ) (n low high sum : ℕ)
    → n + length xs < 2 ^ 63
    → sum + total xs < 2 ^ 63
    → add_samples (kept n low high sum) (map pos xs)
      ≡ kept (n + length xs) (least low xs) (greatest high xs) (sum + total xs)
unfolding add_samples
add_samples-kept [] n low high sum h k =
    let (a, b) : (n ≡ n + 0) × (sum ≡ sum + 0) = omega arith in same_kept low high a b
add_samples-kept (x ∷ xs) n low high sum h k =
    ap (λ av. add_samples av (map pos xs))
      (add_sample-kept n low high sum x (omega arith) (omega arith))
    ∙ add_samples-kept xs (n + 1) (min low x) (max high x) (sum + x) (omega arith) (omega arith)
    ∙ same_kept (least (min low x) xs) (greatest (max high x) xs) (omega arith) (omega arith)

first_sample : (x : ℕ) → x < 2 ^ 63 → add_sample no_samples (pos x) ≡ kept 1 x x x
unfolding add_sample
first_sample x h =
    let sum : add_int64 (pos 0) (pos x) ≡ pos x =
      add_pos 0 x (omega arith) ∙ ap pos (omega arith) in
    let top : (if ltb 0 x then pos x else pos 0) ≡ pos x =
      new_greatest 0 x ∙ ap pos (omega arith) in
    rw (add_pos 0 1 (omega arith), sum)
      (ap (λ (v : ℤ). record { n = pos 1; minval = pos x; maxval = v; sum = pos x; init = true })
        top)

-- Of samples that are not negative, of which there is one and whose sum is an int64, as their number
-- is, the counters are what they are named for: the number of samples, the least, the greatest and
-- the sum.
pub add_samples-lem :
    (x : ℕ) (xs : List ℕ)
    → length (x ∷ xs) < 2 ^ 63
    → total (x ∷ xs) < 2 ^ 63
    → add_samples no_samples (map pos (x ∷ xs))
      ≡ kept (length (x ∷ xs)) (least x xs) (greatest x xs) (total (x ∷ xs))
unfolding add_samples add_sample
add_samples-lem x xs h k =
    ap (λ av. add_samples av (map pos xs)) (first_sample x (omega arith))
    ∙ add_samples-kept xs 1 x x x (omega arith) (omega arith)
    ∙ same_kept (least x xs) (greatest x xs) (omega arith) refl
