-- ===== src/TableScheduler/Live.antt =====
-- Each resource followed through the logs of a creation, of its clean-up and of a destruction.
use architecture_evolution_f.Prelude.{
  ℕ, ◌≡◌, refl, Bool, true, false, ◌&&◌, some, [], ◌∷◌, ◌++◌, ltb, leb, arith,
}
use architecture_evolution_f.TableScheduler.{
  Resource, scheduler_memory, mutex_attr, mutex, init_cond, resume_cond, tables_array, table,
  eps_hashtable, eps_array, release, Log, deinit_scheduler_log, table_scheduler_deinit_log,
  creation_log, join_log,
}
use architecture_evolution_f.TableScheduler.Track.{track, track-creation, track-ending}

-- Whether a resource is held by a scheduler of `n` tables.
abbrev pub live : Resource → ℕ → Bool
live mutex_attr n = false
live (table k) n = ltb k n
live (eps_hashtable k) n = false
live (eps_array k) n = ltb k n
live _ n = true

abbrev held : ℕ → Bool
held j = true

abbrev not_held : ℕ → Bool
not_held j = false

pub creation_log-live : (r : Resource) (n : ℕ) → track r (creation_log n) false ≡ some (live r n)
unfolding track
creation_log-live scheduler_memory n =
    track-creation scheduler_memory n true held held refl refl (λ j. refl) (λ j. refl) refl
creation_log-live mutex_attr n =
    track-creation mutex_attr n false not_held not_held refl refl (λ j. refl) (λ j. refl) refl
creation_log-live mutex n =
    track-creation mutex n true held held refl refl (λ j. refl) (λ j. refl) refl
creation_log-live init_cond n =
    track-creation init_cond n true held held refl refl (λ j. refl) (λ j. refl) refl
creation_log-live resume_cond n =
    track-creation resume_cond n true held held refl refl (λ j. refl) (λ j. refl) refl
creation_log-live tables_array n =
    track-creation tables_array n false held held refl refl (λ j. refl) (λ j. refl) refl
creation_log-live (table k) n =
    track-creation (table k) n false (ltb k) (λ j. ltb k n) (ground arith) refl (λ j. ground arith)
      (λ j. refl) refl
creation_log-live (eps_hashtable k) n =
    track-creation (eps_hashtable k) n false not_held not_held refl refl (λ j. refl)
      (λ j. ground arith) refl
creation_log-live (eps_array k) n =
    track-creation (eps_array k) n false not_held (ltb k) refl refl (λ j. refl) (λ j. ground arith)
      (ground arith)

-- Of the tables up to `n` those from `j` on are still there.
abbrev standing : (k n j : ℕ) → Bool
standing k n j = leb j k && ltb k n

abbrev pub behind_deinit : Log
behind_deinit = deinit_scheduler_log ++ release scheduler_memory ∷ []

-- The clean-up of table_scheduler_create.
pub clean_up-live :
    (r : Resource) (n : ℕ)
    → track r (table_scheduler_deinit_log n ++ behind_deinit) (live r n) ≡ some false
unfolding track
clean_up-live scheduler_memory n =
    track-ending scheduler_memory n [] behind_deinit true held refl (λ j l. refl) refl
clean_up-live mutex_attr n =
    track-ending mutex_attr n [] behind_deinit false not_held refl (λ j l. refl) refl
clean_up-live mutex n = track-ending mutex n [] behind_deinit true held refl (λ j l. refl) refl
clean_up-live init_cond n =
    track-ending init_cond n [] behind_deinit true held refl (λ j l. refl) refl
clean_up-live resume_cond n =
    track-ending resume_cond n [] behind_deinit true held refl (λ j l. refl) refl
clean_up-live tables_array n =
    track-ending tables_array n [] behind_deinit true held refl (λ j l. refl) refl
clean_up-live (table k) n =
    track-ending (table k) n [] behind_deinit (ltb k n) (standing k n) (ground arith)
      (λ j l. ground arith) (ground arith)
clean_up-live (eps_hashtable k) n =
    track-ending (eps_hashtable k) n [] behind_deinit false not_held refl (λ j l. refl) refl
clean_up-live (eps_array k) n =
    track-ending (eps_array k) n [] behind_deinit (ltb k n) (standing k n) (ground arith)
      (λ j l. ground arith) (ground arith)

abbrev pub before_deinit : Log
before_deinit = join_log ++ deinit_scheduler_log

abbrev pub last : Log
last = release scheduler_memory ∷ []

-- table_scheduler_destroy, behind the start of the threads.
pub destroy_log-live :
    (r : Resource) (n : ℕ)
    → track r (before_deinit ++ (table_scheduler_deinit_log n ++ last)) (live r n) ≡ some false
unfolding track
destroy_log-live scheduler_memory n =
    track-ending scheduler_memory n before_deinit last true held refl (λ j l. refl) refl
destroy_log-live mutex_attr n =
    track-ending mutex_attr n before_deinit last false not_held refl (λ j l. refl) refl
destroy_log-live mutex n =
    track-ending mutex n before_deinit last true not_held refl (λ j l. refl) refl
destroy_log-live init_cond n =
    track-ending init_cond n before_deinit last true not_held refl (λ j l. refl) refl
destroy_log-live resume_cond n =
    track-ending resume_cond n before_deinit last true not_held refl (λ j l. refl) refl
destroy_log-live tables_array n =
    track-ending tables_array n before_deinit last true held refl (λ j l. refl) refl
destroy_log-live (table k) n =
    track-ending (table k) n before_deinit last (ltb k n) (standing k n) (ground arith)
      (λ j l. ground arith) (ground arith)
destroy_log-live (eps_hashtable k) n =
    track-ending (eps_hashtable k) n before_deinit last false not_held refl (λ j l. refl) refl
destroy_log-live (eps_array k) n =
    track-ending (eps_array k) n before_deinit last (ltb k n) (standing k n) (ground arith)
      (λ j l. ground arith) (ground arith)
