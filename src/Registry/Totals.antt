-- ===== src/Registry/Totals.antt =====
-- What `Stats` adds up.
use gofast.Base.{
  ℕ, ◌+◌, ◌%◌, ◌^◌, ◌<◌, ◌≡◌, refl, subst, ◌∙◌, false, List, [], ◌∷◌, none, some, inl, inr,
  Bool-cases, Option-cases, text_eq, All, arith,
}
use gofast.Registry.Names.{text_eq_refl, text_eq→≡, find-delete_other}
use gofast.Registry.{
  Named, find_name, insert_name, stat, add_counter, add_stats, all_stats, counter,
}
use gofast.Types.{Stats, add_uint64}

-- The keys of a map, each once.
abbrev Distinct : Named ℕ → Type 0
Distinct [] = Unit {0}
Distinct ((k, v) ∷ m) = (find_name k m ≡ none) × Distinct m

counter-insert_same : (k : List ℕ) (v : ℕ) (m : Named ℕ) → counter k (insert_name k v m) ≡ v
unfolding find_name
counter-insert_same k v m = rw (text_eq_refl k, counter)

counter-insert_other :
    (k j : List ℕ) (v : ℕ) (m : Named ℕ)
    → text_eq k j ≡ false
    → counter j (insert_name k v m) ≡ counter j m
unfolding find_name
counter-insert_other k j v m h = rw (h, find-delete_other k j m h, counter)

add_counter_new :
    (k : List ℕ) (v : ℕ) (acc : Named ℕ)
    → find_name k acc ≡ none
    → add_counter k v acc ≡ insert_name k v acc
add_counter_new k v acc n = rw (n, add_counter)

add_counter_more :
    (k : List ℕ) (v a : ℕ) (acc : Named ℕ)
    → find_name k acc ≡ some a
    → add_counter k v acc ≡ insert_name k (add_uint64 a v) acc
add_counter_more k v a acc f = rw (f, add_counter)

-- One counter of one transport is added.
add_one :
    (k : List ℕ) (v : ℕ) (acc : Named ℕ)
    → v < 2 ^ 64
    → counter k (add_counter k v acc) ≡ (counter k acc + v) % 2 ^ 64
add_one k v acc h = elim (Option-cases (find_name k acc)) [
  | inl n ↦
      let zero_there : counter k acc ≡ 0 = rw (n, counter) in
      rw (zero_there, add_counter_new k v acc n) (counter-insert_same k v acc ∙ omega arith)
  | inr (a, f) ↦
      let there : counter k acc ≡ a = rw (f, counter) in
      rw (there, add_counter_more k v a acc f) (counter-insert_same k (add_uint64 a v) acc)
]

add_one_other :
    (k j : List ℕ) (v : ℕ) (acc : Named ℕ)
    → text_eq k j ≡ false
    → counter j (add_counter k v acc) ≡ counter j acc
add_one_other k j v acc h = elim (Option-cases (find_name k acc)) [
  | inl n ↦ rw (add_counter_new k v acc n) (counter-insert_other k j v acc h)
  | inr (a, f) ↦ rw (add_counter_more k v a acc f) (counter-insert_other k j (add_uint64 a v) acc h)
]

counter_other :
    (k j : List ℕ) (v : ℕ) (m : Named ℕ)
    → text_eq k j ≡ false
    → counter j ((k, v) ∷ m) ≡ counter j m
unfolding find_name
counter_other k j v m h = rw (h, counter)

counter_first : (k : List ℕ) (v : ℕ) (m : Named ℕ) → counter k ((k, v) ∷ m) ≡ v
unfolding find_name
counter_first k v m = rw (text_eq_refl k, counter)

counter_missing : (k : List ℕ) (m : Named ℕ) → find_name k m ≡ none → counter k m ≡ 0
counter_missing k m n = rw (n, counter)

-- A counter of the sum is the sum of the counters.
add_stats-counter :
    (acc s : Named ℕ) (j : List ℕ)
    → Distinct s
    → All (λ (p : List ℕ × ℕ). p.1 < 2 ^ 64) s
    → counter j acc < 2 ^ 64
    → counter j (add_stats acc s) ≡ (counter j acc + counter j s) % 2 ^ 64
unfolding add_stats
add_stats-counter acc [] j d small h = rw (counter_missing j [] refl) (omega arith)
add_stats-counter acc ((k, v) ∷ s) j d small h = elim (Bool-cases (text_eq k j)) [
  | inl t ↦
      let same : k ≡ j = text_eq→≡ k j t in
      let added : counter j (add_counter k v acc) ≡ (counter j acc + v) % 2 ^ 64 =
        subst (λ (x : List ℕ). counter x (add_counter k v acc) ≡ (counter x acc + v) % 2 ^ 64) same
          (add_one k v acc small.0) in
      let gone : counter j s ≡ 0 =
        subst (λ (x : List ℕ). counter x s ≡ 0) same (counter_missing k s d.0) in
      let first : counter j ((k, v) ∷ s) ≡ v =
        subst (λ (x : List ℕ). counter x ((k, v) ∷ s) ≡ v) same (counter_first k v s) in
      add_stats-counter (add_counter k v acc) s j d.1 small.1 (omega (arith, added))
      ∙ omega (arith, added, gone, first)
  | inr f ↦
      let kept : counter j (add_counter k v acc) ≡ counter j acc = add_one_other k j v acc f in
      add_stats-counter (add_counter k v acc) s j d.1 small.1 (omega (arith, kept, h))
      ∙ omega (arith, kept, counter_other k j v s f)
]

-- Each counter of a transport is a uint64.
abbrev pub IsStats : Stats → Type 0
IsStats s = All (λ (p : List ℕ × ℕ). p.1 < 2 ^ 64) (stat s)

stat-Distinct : (s : Stats) → Distinct (stat s)
unfolding stat find_name text_eq
stat-Distinct s = (
  refl,
  (
    refl,
    (
      refl,
      (
        refl,
        (
          refl,
          (
            refl,
            (
              refl,
              (
                refl,
                (
                  refl,
                  (
                    refl,
                    (
                      refl,
                      (refl, (refl, (refl, (refl, (refl, (refl, (refl, (refl, (refl, tt))))))))),
                    ),
                  ),
                ),
              ),
            ),
          ),
        ),
      ),
    ),
  ),
)

abbrev pub total : List ℕ → List Stats → ℕ
total j [] = 0
total j (s ∷ rest) = counter j (stat s) + total j rest

-- Each counter of `Stats` is the sum of the transports' counters of that name, modulo 2^64, from
-- any counters that there are at first.
pub all_stats-total :
    (acc : Named ℕ) (ts : List Stats) (j : List ℕ)
    → All IsStats ts
    → counter j acc < 2 ^ 64
    → counter j (all_stats acc ts) ≡ (counter j acc + total j ts) % 2 ^ 64
unfolding all_stats
all_stats-total acc [] j all_small h = omega arith
all_stats-total acc (s ∷ ts) j all_small h =
    let added = add_stats-counter acc (stat s) j (stat-Distinct s) all_small.0 h in
    all_stats-total (add_stats acc (stat s)) ts j all_small.1 (omega (arith, added))
    ∙ omega (arith, added)
