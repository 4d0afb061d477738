-- ===== src/Access/Expiry.antt =====
-- convex/access.ts: the removal of expired sessions takes all of them, and no other.
use fw_gatekeeper.Prelude.{
  ℕ, zero, suc, ◌≤◌, ◌<◌, Bool, true, false, Option, none, some, List, [], ◌∷◌, ◌++◌, map, ◌≡◌, ◌≢◌,
  ◌⊎◌, refl, ◌∙◌, inl, inr, arith,
}
use fw_gatekeeper.Prelude.Tests.{Bool-cases, leb, nat_beq, nat_beq_iff, if◌then◌else◌, ◌==◌, nat_eq}
use fw_gatekeeper.Prelude.Lists.{
  All, All-map, All-take, All-filter, All-sort_by, any, filter, length, take-short, sort_by,
  insert_by,
}
use fw_gatekeeper.Prelude.Table.{get_row, delete_row, get_row-delete_row}
use fw_gatekeeper.Prelude.Deletes.{InIds, InIds-self, length-delete_row, delete_row-shorter}
use fw_gatekeeper.Prelude.Ids.{DistinctIds, found_self}
use fw_gatekeeper.Schema.{AuthSession, session_row, Db}
use fw_gatekeeper.Access.{
  Job, remove_tokens, expire_more, has_expired, delete_sessions, expired_batch, expire_sessions,
  session_cleanup_batch,
}

abbrev by_expiration : AuthSession → ℕ
by_expiration s = s.expiration_time

get_row-delete_sessions :
    (i : ℕ) (batch xs : List AuthSession)
    → All (λ b. b.id ≢ i) batch
    → get_row i (delete_sessions batch xs) ≡ get_row i xs
unfolding delete_sessions
get_row-delete_sessions i [] xs h = refl
get_row-delete_sessions i (b ∷ batch) xs (n, h) =
    get_row-delete_sessions i batch (delete_row b.id xs) h
    ∙ get_row-delete_row b.id i xs
    ∙ ground arith

All-expired :
    (now : ℕ) (xs : List AuthSession)
    → All (λ s. has_expired now s ≡ true) (filter (has_expired now) xs)
unfolding filter
All-expired now [] = tt
All-expired now (x ∷ xs) = elim (Bool-cases (has_expired now x)) [
  | inl e ↦ rw e (e, All-expired now xs)
  | inr e ↦ rw e (All-expired now xs)
]

All-batch :
    (P : AuthSession → Type 0) (now : ℕ) (db : Db)
    → All P (filter (has_expired now) db.sessions)
    → All P (expired_batch now db)
All-batch P now db h =
    All-take P session_cleanup_batch _
      (All-sort_by by_expiration P (filter (has_expired now) db.sessions) h)

both :
    (P Q : AuthSession → Type 0) (xs : List AuthSession)
    → All P xs
    → All Q xs
    → All (λ x. P x × Q x) xs
both P Q [] h k = tt
both P Q (x ∷ xs) (p, h) (q, k) = ((p, q), both P Q xs h k)

-- A session that has not expired is kept, as it is.
pub expire_sessions_keeps_live :
    (now i : ℕ) (s : AuthSession) (db : Db)
    → DistinctIds db.sessions
    → get_row i db.sessions ≡ some s
    → now < s.expiration_time
    → get_row i (expire_sessions now db).1.sessions ≡ some s
unfolding expire_sessions
expire_sessions_keeps_live now i s db d found live =
    get_row-delete_sessions i (expired_batch now db) db.sessions (
      All-batch (λ b. b.id ≢ i) now db
        (All-map _ (λ (b : AuthSession). b.id ≢ i) (filter (has_expired now) db.sessions)
          (λ b h e. ground (arith, h.0, h.1))
          (both (λ b. has_expired now b ≡ true) (λ b. get_row b.id db.sessions ≡ some b) _
            (All-expired now db.sessions)
            (All-filter _ (has_expired now) db.sessions (found_self db.sessions d)))))
    ∙ found

InIds-filter :
    (t : AuthSession → Bool) (i : ℕ) (x : AuthSession) (xs : List AuthSession)
    → InIds i (filter t xs)
    → InIds i (filter t (x ∷ xs))
unfolding filter
InIds-filter t i x xs h = elim (Bool-cases (t x)) [ inl e ↦ rw e (inr h) | inr e ↦ rw e h ]

filter_finds :
    (t : AuthSession → Bool) (xs : List AuthSession)
    → All (λ x. (t x ≡ false) ⊎ InIds x.id (filter t xs)) xs
unfolding filter
filter_finds t [] = tt
filter_finds t (x ∷ xs) = (
  elim (Bool-cases (t x)) [ inl e ↦ inr (rw e (inl refl)) | inr e ↦ inl e ],
  All-map (λ y. (t y ≡ false) ⊎ InIds y.id (filter t xs))
      (λ y. (t y ≡ false) ⊎ InIds y.id (filter t (x ∷ xs))) xs
      (λ y h. elim h [ inl e ↦ inl e | inr k ↦ inr (InIds-filter t y.id x xs k) ])
      (filter_finds t xs),
)

InIds-insert_by :
    (i : ℕ) (x : AuthSession) (xs : List AuthSession)
    → InIds i (x ∷ xs)
    → InIds i (insert_by by_expiration x xs)
unfolding insert_by
InIds-insert_by i x [] h = h
InIds-insert_by i x (y ∷ xs) h = elim (Bool-cases (leb (by_expiration x) (by_expiration y))) [
  | inl e ↦ rw e h
  | inr e ↦ rw e (elim h [
    | inl same ↦ inr (InIds-insert_by i x xs (inl same))
    | inr (inl head) ↦ inl head
    | inr (inr tail) ↦ inr (InIds-insert_by i x xs (inr tail))
  ])
]

InIds-sort_by : (i : ℕ) (xs : List AuthSession) → InIds i xs → InIds i (sort_by by_expiration xs)
unfolding sort_by
InIds-sort_by i [] h = h
InIds-sort_by i (x ∷ xs) (inl e) = InIds-insert_by i x (sort_by by_expiration xs) (inl e)
InIds-sort_by i (x ∷ xs) (inr h) =
    InIds-insert_by i x (sort_by by_expiration xs) (inr (InIds-sort_by i xs h))

module _ (P : AuthSession → Type 0) where
  delete_row_rest :
      (b : AuthSession) (batch xs : List AuthSession)
      → All (λ s. P s ⊎ InIds s.id (b ∷ batch)) xs
      → All (λ s. P s ⊎ InIds s.id batch) (delete_row b.id xs)
  unfolding delete_row
  delete_row_rest b batch [] h = tt
  delete_row_rest b batch (x ∷ xs) (q, h) = elim (Bool-cases (nat_beq x.id b.id)) [
    | inl e ↦ rw e (delete_row_rest b batch xs h)
    | inr e ↦ rw e (
      elim q [ inl p ↦ inl p | inr (inl same) ↦ absurd (ground arith) | inr (inr k) ↦ inr k ],
      delete_row_rest b batch xs h,
    )
  ]

  delete_sessions_rest :
      (batch xs : List AuthSession)
      → All (λ s. P s ⊎ InIds s.id batch) xs
      → All P (delete_sessions batch xs)
  unfolding delete_sessions
  delete_sessions_rest [] xs h =
      All-map (λ s. P s ⊎ ⊥) P xs (λ s q. elim q [ inl p ↦ p | inr bad ↦ elim bad [ ] ]) h
  delete_sessions_rest (b ∷ batch) xs h =
      delete_sessions_rest batch (delete_row b.id xs) (delete_row_rest b batch xs h)

-- A batch that is not full is the last.
last_batch :
    (now : ℕ) (db : Db)
    → length (expired_batch now db) ≢ session_cleanup_batch
    → All (λ s. has_expired now s ≡ false) (expire_sessions now db).1.sessions
unfolding expire_sessions
last_batch now db short =
    let ordered = sort_by by_expiration (filter (has_expired now) db.sessions) in
    delete_sessions_rest (λ s. has_expired now s ≡ false) (expired_batch now db) db.sessions
      (rw (take-short session_cleanup_batch ordered short) (
        All-map
          (λ s. (has_expired now s ≡ false) ⊎ InIds s.id (filter (has_expired now) db.sessions))
          (λ s. (has_expired now s ≡ false) ⊎ InIds s.id ordered) db.sessions
          (λ s h. elim h [
            | inl e ↦ inl e
            | inr k ↦ inr (InIds-sort_by s.id (filter (has_expired now) db.sessions) k)
          ])
          (filter_finds (has_expired now) db.sessions)))

length-delete_sessions :
    (batch xs : List AuthSession) → length (delete_sessions batch xs) ≤ length xs
unfolding delete_sessions
length-delete_sessions [] xs = omega arith
length-delete_sessions (b ∷ batch) xs =
    omega (arith, length-delete_sessions batch (delete_row b.id xs), length-delete_row b.id xs)

some_deleted :
    (batch xs : List AuthSession)
    → All (λ b. InIds b.id xs) batch
    → length batch ≡ session_cleanup_batch
    → length (delete_sessions batch xs) < length xs
unfolding delete_sessions
some_deleted [] xs h full = absurd (omega arith)
some_deleted (b ∷ batch) xs (k, h) full =
    omega (arith, length-delete_sessions batch (delete_row b.id xs), delete_row-shorter b.id xs k)

abbrev reschedules : Job → Bool
reschedules (remove_tokens session) = false
reschedules expire_more = true

-- `expireSessions`, and the runs of it that are among the jobs that it schedules, with nothing else in
-- between that concerns sessions; each takes a unit of fuel, and `none` is that the fuel is spent and a
-- run is still to come.
unfoldable pub expire_runs : ℕ → ℕ → Db → Option Db
expire_runs zero now db = none
expire_runs (suc fuel) now db =
    let answer = expire_sessions now db in
    let rest = expire_runs fuel now answer.1 in
    if any reschedules answer.0.1 then rest else some answer.1

only_tokens :
    (batch : List AuthSession) (jobs : List Job)
    → any reschedules (map (λ (s : AuthSession). remove_tokens s.id) batch ++ jobs)
      ≡ any reschedules jobs
unfolding any
only_tokens [] jobs = refl
only_tokens (s ∷ batch) jobs = ground (arith, only_tokens batch jobs)

-- A run is scheduled after a batch that is full, and after no other.
full_reschedules :
    (now : ℕ) (db : Db)
    → any reschedules (expire_sessions now db).0.1
      ≡ (length (expired_batch now db) == session_cleanup_batch)
unfolding expire_sessions any
full_reschedules now db =
    only_tokens (expired_batch now db) _
    ∙ elim (Bool-cases (length (expired_batch now db) == session_cleanup_batch)) [
      | inl e ↦ rw e refl
      | inr e ↦ rw e refl
    ]

batch_shrinks :
    (now : ℕ) (db : Db)
    → All (λ (b : AuthSession). InIds b.id db.sessions) (expired_batch now db)
    → length (expired_batch now db) ≡ session_cleanup_batch
    → length (expire_sessions now db).1.sessions < length db.sessions
unfolding expire_sessions
batch_shrinks now db within full = some_deleted (expired_batch now db) db.sessions within full

-- The removal, with the runs that it schedules, comes to an end within one run more than there are
-- sessions, and then no session is left that had expired.
pub expire_runs_remove_all :
    (fuel now : ℕ) (db : Db)
    → length db.sessions < fuel
    → (db' : Db) × (expire_runs fuel now db ≡ some db')
      × All (λ s. has_expired now s ≡ false) db'.sessions
unfolding expire_runs
expire_runs_remove_all zero now db h = absurd (omega arith)
expire_runs_remove_all (suc fuel) now db h =
    elim (Bool-cases (length (expired_batch now db) == session_cleanup_batch)) [
      | inl full ↦
          let within =
            All-batch (λ b. InIds b.id db.sessions) now db
              (All-filter _ (has_expired now) db.sessions (InIds-self db.sessions)) in
          let less = batch_shrinks now db within ((nat_beq_iff _ session_cleanup_batch).0 full) in
          rw (full_reschedules now db ∙ full)
            (expire_runs_remove_all fuel now (expire_sessions now db).1 (omega arith))
      | inr short ↦ (
        (expire_sessions now db).1,
        rw (full_reschedules now db ∙ short) refl,
        last_batch now db (λ e. ground arith),
      )
    ]
