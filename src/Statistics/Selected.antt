-- ===== src/Statistics/Selected.antt =====
-- Which counters Statshandler of http.go shows.
use gofast.Base.{
  ℕ, ◌≡◌, refl, sym, subst, ap, ◌∙◌, Bool, true, false, List, [], ◌∷◌, Option, none, some, inl, inr,
  Bool-cases, if◌then◌else◌, text_eq,
}
use gofast.Registry.Names.{find-delete_other, text_eq→≡, text_eq_refl}
use gofast.Registry.{
  Named, find_name, insert_name, counter, pick_stats, filterstats, stat, stat_of, all_stats,
}
use gofast.Statistics.{
  Answer, invalid_name, counts, timestamp, requested_keys, stats_of_all, shown, statshandler,
}
use gofast.Tags.{has_string}
use gofast.Types.{Stats}

-- The counter under a key: any that there is where no keys are given, else those asked for, of
-- which a missing one is 0.
abbrev pub selected : List (List ℕ) → Named ℕ → List ℕ → Option ℕ
selected [] stats k = find_name k stats
selected (key ∷ keys) stats k = if has_string k (key ∷ keys) then some (counter k stats) else none

find-insert_name :
    (k j : List ℕ) (v : ℕ) (m : Named ℕ)
    → find_name j (insert_name k v m) ≡ (if text_eq k j then some v else find_name j m)
unfolding find_name
find-insert_name k j v m = elim (Bool-cases (text_eq k j)) [
  | inl t ↦ rw t refl
  | inr f ↦ rw f (find-delete_other k j m f)
]

find-pick_stats :
    (stats : Named ℕ) (keys : List (List ℕ)) (m : Named ℕ) (j : List ℕ)
    → find_name j (pick_stats stats keys m)
      ≡ (if has_string j keys then some (counter j stats) else find_name j m)
unfolding pick_stats has_string
find-pick_stats stats [] m j = refl
find-pick_stats stats (key ∷ keys) m j =
    find-pick_stats stats keys (insert_name key (counter key stats) m) j
    ∙ elim (Bool-cases (has_string j keys)) [
      | inl later ↦ rw later (pick_later (text_eq key j))
      | inr never ↦ rw never (
          find-insert_name key j (counter key stats) m ∙ elim (Bool-cases (text_eq key j)) [
            | inl here ↦
                rw here (ap (λ (k : List ℕ). some (counter k stats)) (text_eq→≡ key j here))
            | inr not_here ↦ rw not_here refl
          ])
    ]
  where
    pick_later :
        (b : Bool)
        → some (counter j stats)
          ≡ (if (if b then true else true) then some (counter j stats) else find_name j m)
    pick_later true = refl
    pick_later false = refl

find-filterstats :
    (stats : Named ℕ) (keys : List (List ℕ)) (j : List ℕ)
    → find_name j (filterstats stats keys) ≡ selected keys stats j
unfolding filterstats find_name
find-filterstats stats [] j = refl
find-filterstats stats (key ∷ keys) j = find-pick_stats stats (key ∷ keys) [] j

-- An answer with the time, and of the counters those that are asked for.
pub record Shows (now : ℕ) (keys : List (List ℕ)) (stats : Named ℕ) (a : Answer) : Type 0 where
  pub body : Named ℕ
  pub answers : a ≡ counts body
  pub time : find_name timestamp body ≡ some now
  pub others : (k : List ℕ) → text_eq timestamp k ≡ false → find_name k body ≡ selected keys stats k

shown-Shows :
    (now : ℕ) (keys : List (List ℕ)) (stats : Named ℕ) → Shows now keys stats (shown now keys stats)
unfolding shown
shown-Shows now keys stats = record {
  body = insert_name timestamp now (filterstats stats keys);
  answers = refl;
  time =
      find-insert_name timestamp timestamp now (filterstats stats keys)
      ∙ rw (text_eq_refl timestamp) refl;
  others = λ k apart.
      find-insert_name timestamp k now (filterstats stats keys)
      ∙ rw apart (find-filterstats stats keys k);
}

module _ (now : ℕ) (name : List ℕ) (more keyparam : List (List ℕ)) (transports : Named Stats) where
  statshandler_known :
      (s : Stats)
      → find_name name transports ≡ some s
      → statshandler now (name ∷ more) keyparam transports
        ≡ shown now (requested_keys keyparam) (stat s)
  unfolding statshandler
  statshandler_known s there =
      let found : stat_of name transports ≡ some (stat s) =
        unfold stat_of in (rw (there, stat_of) refl) in
      rw (found, statshandler) refl

  statshandler_missing :
      find_name name transports ≡ none
      → statshandler now (name ∷ more) keyparam transports ≡ invalid_name name
  unfolding statshandler
  statshandler_missing gone =
      let absent : stat_of name transports ≡ none = unfold stat_of in (rw (gone, stat_of) refl) in
      rw (absent, statshandler) refl

-- The statistics of a transport that there is, of one that there is not, and of all of them: the
-- handler answers with the time and with the counters of that transport, or with the sums over all
-- where no name is given; of these it shows all where no keys are given, and else each key that is
-- asked for and no other, a key that is no counter as 0; a name that is not there is an error.
pub statshandler-Shows :
    (now : ℕ) (name missing : List ℕ) (more keyparam : List (List ℕ)) (transports : Named Stats)
    (s : Stats)
    → find_name name transports ≡ some s
    → find_name missing transports ≡ none
    → Shows now
        (requested_keys keyparam)
        (stat s)
        (statshandler now (name ∷ more) keyparam transports)
      × (statshandler now (missing ∷ more) keyparam transports ≡ invalid_name missing)
      × Shows now
          (requested_keys keyparam)
          (all_stats [] (stats_of_all transports))
          (statshandler now [] keyparam transports)
unfolding statshandler
statshandler-Shows now name missing more keyparam transports s there gone = (
  subst (Shows now (requested_keys keyparam) (stat s))
      (sym (statshandler_known now name more keyparam transports s there))
      (shown-Shows now (requested_keys keyparam) (stat s)),
  statshandler_missing now missing more keyparam transports gone,
  shown-Shows now (requested_keys keyparam) (all_stats [] (stats_of_all transports)),
)
