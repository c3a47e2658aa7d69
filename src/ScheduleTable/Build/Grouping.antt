-- ===== src/ScheduleTable/Build/Grouping.antt =====
-- How the tasks are divided among the tables, and that a table's duration is the least common
-- multiple of the periods of its members.
use Prim.Native.Nat.{◌∣◌}
use native.Mathlib.Nat.{dvd_trans, one-dvd}
use mathlib.Core.List.{append_assoc, append-nil}
use architecture_evolution_f.Prelude.{
  >>=-eq-some, ℕ, ◌+◌, ◌*◌, ◌<◌, ◌≡◌, ◌↔◌, sym, ap, subst, ◌∙◌, inl, inr, true, false, some, List,
  [], ◌∷◌, ◌++◌, All, arith, ◌==◌, ltb, Bool-cases, if◌then◌else◌, update,
}
use architecture_evolution_f.Task.{TaskStruct}
use architecture_evolution_f.ScheduleTable.Duration.{lcm, int_max}
use architecture_evolution_f.ScheduleTable.Duration.Lcm.{IsLcm, lcm-IsLcm, lcm-overflow}
use architecture_evolution_f.ScheduleTable.Build.{Groups, group, no_groups}

-- Periods for which the LCM macro is right.
abbrev pub SmallPeriods : List TaskStruct → Type 0
SmallPeriods = All (λ t. (0 < t.period) × (t.period < 55))

-- The indices of the tasks of the table `i`, counted from `k`.
unfoldable pub indices : (i k : ℕ) → List TaskStruct → List ℕ
indices i k [] = []
indices i k (t ∷ ts) = if t.table_id == i then k ∷ indices i (k + 1) ts else indices i (k + 1) ts

-- `c` is a multiple of the periods of the tasks of the table `i`.
abbrev pub IsMultiple : (i c : ℕ) → List TaskStruct → Type 0
IsMultiple i c [] = Unit {0}
IsMultiple i c (t ∷ ts) = (t.table_id ≡ i → t.period ∣ c) × IsMultiple i c ts

lcm_of_some : (a b m : ℕ) → 0 < a → (0 < b) × (b < 55) → lcm a b ≡ some m → IsLcm a b m × (0 < m)
lcm_of_some a b m ha hb e = elim (Bool-cases (ltb int_max (a * b))) [
  | inl over ↦ absurd (cc (lcm-overflow a b over, e))
  | inr fits ↦
      let (m', e', l, p, _) = lcm-IsLcm a b ha hb.0 (inr hb.1) (ground arith) in
      let same : m' ≡ m = cc in subst (λ x. IsLcm a b x × (0 < x)) same (l, p)
]

-- What grouping the tasks `ts`, the first of which is `k`, has made of `g` at the table `i`.
record Grouped (i k : ℕ) (ts : List TaskStruct) (g g' : Groups) : Type 0 where
  members : g'.members i ≡ g.members i ++ indices i k ts
  positive : 0 < g'.duration i
  least : (c : ℕ) → (g'.duration i ∣ c) ↔ ((g.duration i ∣ c) × IsMultiple i c ts)

abbrev Positive : Groups → Type 0
Positive g = (i : ℕ) → 0 < g.duration i

abbrev assigned : Groups → TaskStruct → (i duration : ℕ) → Groups
assigned g t i duration = record {
  duration = update g.duration t.table_id duration;
  members = update g.members t.table_id (g.members t.table_id ++ i ∷ []);
}

module _ (i k : ℕ) (t : TaskStruct) (ts : List TaskStruct) (g g' : Groups) (m : ℕ) where
  Grouped-mine :
      t.table_id ≡ i
      → IsLcm (g.duration i) t.period m
      → Grouped i (k + 1) ts (assigned g t k m) g'
      → Grouped i k (t ∷ ts) g g'
  unfolding indices
  Grouped-mine same l r = record {
    members = rw mine (
        r.members
        ∙ ap (λ ms. ms ++ indices i (k + 1) ts) grown
        ∙ append_assoc (g.members i) (k ∷ []) (indices i (k + 1) ts));
    positive = r.positive;
    least = λ c. (
      λ d.
          let (dm, rest) = (r.least c).0 d in
          let whole : m ∣ c = subst (λ x. x ∣ c) raised dm in
          (dvd_trans (g.duration i) l.left whole, (λ _. dvd_trans t.period l.right whole, rest)),
      λ (d, (own, rest')).
          (r.least c).1 (subst (λ x. x ∣ c) (sym raised) (l.least c d (own same)), rest'),
    );
  }
    where
      mine : (t.table_id == i) ≡ true
      mine = ground arith

      raised : (assigned g t k m).duration i ≡ m
      raised = ground arith

      grown : (assigned g t k m).members i ≡ g.members i ++ k ∷ []
      grown = ground arith

  Grouped-other :
      (t.table_id == i) ≡ false
      → Grouped i (k + 1) ts (assigned g t k m) g'
      → Grouped i k (t ∷ ts) g g'
  unfolding indices
  Grouped-other other r = record {
    members = rw other (r.members ∙ ap (λ ms. ms ++ indices i (k + 1) ts) grown);
    positive = r.positive;
    least = λ c. (
      λ d.
          let (dm, rest) = (r.least c).0 d in
          (subst (λ x. x ∣ c) kept dm, (λ e. absurd (ground arith), rest)),
      λ (d, own). (r.least c).1 (subst (λ x. x ∣ c) (sym kept) d, own.1),
    );
  }
    where
      kept : (assigned g t k m).duration i ≡ g.duration i
      kept = ground arith

      grown : (assigned g t k m).members i ≡ g.members i
      grown = ground arith

Positive-assigned :
    (g : Groups) (t : TaskStruct) (k m : ℕ) → Positive g → 0 < m → Positive (assigned g t k m)
Positive-assigned g t k m p h i = ground (arith, p i)

group-Grouped :
    (i k : ℕ) (ts : List TaskStruct) (g g' : Groups)
    → SmallPeriods ts
    → Positive g
    → group ts k g ≡ some g'
    → Grouped i k ts g g'
unfolding group indices
group-Grouped i k [] g g' s p e =
    let same : g ≡ g' = cc in
    subst (Grouped i k [] g) same (record {
      members = sym (append-nil (g.members i));
      positive = p i;
      least = λ c. (λ d. (d, tt), λ h. h.0);
    })
group-Grouped i k (t ∷ ts) g g' s p e =
    let (m, e₁, e₂) = >>=-eq-some (lcm (g.duration t.table_id) t.period) _ e in
    let (l, pos_m) = lcm_of_some (g.duration t.table_id) t.period m (p t.table_id) s.0 e₁ in
    let r =
      group-Grouped i (k + 1) ts (assigned g t k m) g' s.1 (Positive-assigned g t k m p pos_m) e₂ in
    elim (Bool-cases (t.table_id == i)) [
      | inl mine ↦
          let same : t.table_id ≡ i = ground arith in
          Grouped-mine i k t ts g g' m same (subst (λ x. IsLcm (g.duration x) t.period m) same l) r
      | inr other ↦ Grouped-other i k t ts g g' m other r
    ]

-- If all periods are positive and below 55, grouping gives each table its tasks, in order, and the
-- least common multiple of their periods as its duration: a number is a multiple of the duration
-- exactly when it is one of all these periods. For larger periods the GCD macro may be wrong.
pub group_lem :
    (tasks : List TaskStruct) (g : Groups)
    → SmallPeriods tasks
    → group tasks 0 no_groups ≡ some g
    → (i : ℕ)
    → (g.members i ≡ indices i 0 tasks)
      × (0 < g.duration i)
      × ((c : ℕ) → (g.duration i ∣ c) ↔ IsMultiple i c tasks)
group_lem tasks g s e i =
    let r = group-Grouped i 0 tasks no_groups g s (λ _. omega arith) e in
    (r.members, r.positive, λ c. (λ d. ((r.least c).0 d).1, λ h. (r.least c).1 (one-dvd c, h)))
