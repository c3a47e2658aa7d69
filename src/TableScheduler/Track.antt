-- ===== src/TableScheduler/Track.antt =====
-- One resource followed through a log.
use architecture_evolution_f.Prelude.{
  ℕ, zero, suc, ◌+◌, ◌<◌, ◌≡◌, refl, ap, ◌∙◌, Bool, true, false, Option, none, some, [], ◌∷◌, ◌++◌,
  ◌==◌, arith, if◌then◌else◌, ◌>>=◌, >>=-eq-some, sym,
}
use architecture_evolution_f.TableScheduler.{
  Resource, scheduler_memory, mutex_attr, mutex, init_cond, resume_cond, tables_array, table,
  eps_hashtable, eps_array, Action, acquire, release, delete_infos, create_thread, join_thread, Log,
  each, table_log, eps_log, release_log, init_scheduler_log, table_scheduler_init_log, creation_log,
  table_scheduler_deinit_log,
}

abbrev pub same : Resource → Resource → Bool
same scheduler_memory scheduler_memory = true
same mutex_attr mutex_attr = true
same mutex mutex = true
same init_cond init_cond = true
same resume_cond resume_cond = true
same tables_array tables_array = true
same (table i) (table j) = i == j
same (eps_hashtable i) (eps_hashtable j) = i == j
same (eps_array i) (eps_array j) = i == j
same _ _ = false

-- Whether a resource is held after an action. A resource that is acquired while it is held would be
-- leaked, and one that is released while it is not held would be freed twice: these have no result. Neither
-- has delete_infos without the expiry points that it goes through.
abbrev pub after : Resource → Action → Bool → Option Bool
after r (acquire q) held = if same r q then (if held then none else some true) else some held
after r (release q) held = if same r q then (if held then some false else none) else some held
after r (delete_infos i) held =
    if same r (eps_array i) then (if held then some held else none) else some held
after r (create_thread k) held = some held
after r (join_thread k) held = some held

unfoldable pub track : Resource → Log → Bool → Option Bool
track r [] held = some held
track r (a ∷ log) held = after r a held >>= track r log

pub track-append :
    (r : Resource) (log log' : Log) (held b : Bool)
    → track r log held ≡ some b
    → track r (log ++ log') held ≡ track r log' b
unfolding track
track-append r [] log' held b e = let same_held : held ≡ b = cc in ap (track r log') same_held
track-append r (a ∷ log) log' held b e =
    let (c, first, rest) = >>=-eq-some (after r a held) (track r log) e in
    rw first (track-append r log log' c b rest)

-- A loop whose round `j` takes the resource from `held j` to `held (j + 1)`.
pub track-each :
    (r : Resource) (body : ℕ → Log) (held : ℕ → Bool) (n i : ℕ)
    → ((j : ℕ) → j < i + n → track r (body j) (held j) ≡ some (held (j + 1)))
    → track r (each body n i) (held i) ≡ some (held (i + n))
unfolding each track
track-each r body held zero i h =
    let same_index : i ≡ i + 0 = omega arith in ap (λ j. some (held j)) same_index
track-each r body held (suc n) i h =
    let count : i + 1 + n ≡ i + suc n = omega arith in
    track-append r (body i) (each body n (i + 1)) (held i) (held (i + 1)) (h i (omega arith))
    ∙ (track-each r body held n (i + 1) (λ j l. h j (omega arith)) ∙ ap (λ j. some (held j)) count)

-- The two loops of table_scheduler_init, and what stands in front of them.
pub track-creation :
    (r : Resource) (n : ℕ) (b : Bool) (t e : ℕ → Bool)
    → after r (acquire tables_array) b ≡ some (t 0)
    → track r (acquire scheduler_memory ∷ init_scheduler_log) false ≡ some b
    → ((j : ℕ) → track r (table_log j) (t j) ≡ some (t (j + 1)))
    → ((j : ℕ) → track r (eps_log j) (e j) ≡ some (e (j + 1)))
    → e 0 ≡ t n
    → track r (creation_log n) false ≡ some (e n)
unfolding track
track-creation r n b t e first before ht he same_held =
    let zero_add : 0 + n ≡ n = omega arith in
    let tables : track r (each table_log n 0) (t 0) ≡ some (e 0) =
      track-each r table_log t n 0 (λ j l. ht j) ∙ ap some (ap t zero_add ∙ sym same_held) in
    track-append r (acquire scheduler_memory ∷ init_scheduler_log) (table_scheduler_init_log n)
      false b before
    ∙ (rw first (track-append r (each table_log n 0) (each eps_log n 0) (t 0) (e 0) tables)
        ∙ (track-each r eps_log e n 0 (λ j l. he j) ∙ ap (λ j. some (e j)) zero_add))

-- The loop of table_scheduler_deinit with what stands in front of it and behind it.
pub track-ending :
    (r : Resource) (n : ℕ) (front back : Log) (b : Bool) (d : ℕ → Bool)
    → track r front b ≡ some (d 0)
    → ((j : ℕ) → j < n → track r (release_log j) (d j) ≡ some (d (j + 1)))
    → track r (release tables_array ∷ back) (d n) ≡ some false
    → track r (front ++ (table_scheduler_deinit_log n ++ back)) b ≡ some false
unfolding track
track-ending r n front back b d before h behind =
    let zero_add : 0 + n ≡ n = omega arith in
    let (c, freed, rest) =
      >>=-eq-some (after r (release tables_array) (d n)) (track r back) behind in
    let loop : track r (each release_log n 0) (d 0) ≡ some (d n) =
      track-each r release_log d n 0 (λ j l. h j (omega arith)) ∙ ap (λ j. some (d j)) zero_add in
    let whole : track r (table_scheduler_deinit_log n) (d 0) ≡ some c =
      track-append r (each release_log n 0) (release tables_array ∷ []) (d 0) (d n) loop
      ∙ rw freed refl in
    track-append r front (table_scheduler_deinit_log n ++ back) b (d 0) before
    ∙ (track-append r (table_scheduler_deinit_log n) back (d 0) c whole ∙ rest)
