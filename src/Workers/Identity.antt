-- ===== src/Workers/Identity.antt =====
-- convex/workers.ts: by what a worker is recognised.
use fw_gatekeeper.Prelude.{Bool, true, false, ◌&&◌, ◌||◌, Option, none, some, List, [], ◌∷◌}
use fw_gatekeeper.Prelude.Tests.{ltb, if◌then◌else◌, ◌==◌, option_eq}
use fw_gatekeeper.Prelude.Lists.{take, find, filter, length, sole}
use fw_gatekeeper.Prelude.Text.{Text, text_eq, trim, is_space}
use fw_gatekeeper.Prelude.Result.{Result, ok, ◌>>◌, refuse, present}
use fw_gatekeeper.Schema.{Worker, Db, Platform}
use fw_gatekeeper.Access.{AccessError}
use fw_gatekeeper.Roster.Sequence.{RosterError}
use fw_gatekeeper.Workers.Photos.{PhotoError}

pub data WorkerError : Type 0 where
  denied : AccessError → WorkerError
  roster : RosterError → WorkerError
  photos : PhotoError → WorkerError
  name_required bad_encoding stale_consent photo_limit not_in_directory : WorkerError
  identity_scan_limit duplicate_identities name_taken employee_id_taken : WorkerError
  worker_missing reason_required : WorkerError
  inactive_worker admins_only identity_conflict employee_id_of_another : WorkerError

-- `replace(/\s+/g, " ")`; `within` is whether the last unit was a space.
unfoldable pub collapse : Bool → Text → Text
collapse within [] = []
collapse within (c ∷ t) =
    let inside = collapse true t in
    let outside = collapse false t in
    if is_space c then (if within then inside else 32 ∷ inside) else c ∷ outside

-- `normalizeName`.
abbrev pub normalize_name : Text → Text
normalize_name t = collapse false (trim t)

-- `normalizeDepartment`.
abbrev pub normalize_department : Option Text → Text
normalize_department none = []
normalize_department (some t) = trim t

abbrev not_empty : Text → Option Text
not_empty [] = none
not_empty (c ∷ t) = some (c ∷ t)

-- `readWorkerIdentities`.
unfoldable pub read_identities : Db → Result WorkerError (List Worker)
read_identities db = do
  refuse (ltb 1000 (length (take 1001 db.workers))) identity_scan_limit
  ok db.workers

abbrev first_worker : List Worker → Option Worker
first_worker [] = none
first_worker (w ∷ ws) = some w

-- `matches.find(candidate => candidate.active) ?? matches[0] ?? null`.
abbrev pub preferred : List Worker → Option Worker
preferred ws = elim (find (λ (w : Worker). w.active) ws) [
  | some w ↦ some w
  | none ↦ first_worker ws
]

module _ (p : Platform) where
  -- `normalizeEmployeeId`.
  abbrev pub normalize_employee_id : Option Text → Option Text
  normalize_employee_id none = none
  normalize_employee_id (some t) = not_empty (p.upper (trim t))

  -- `findWorkerByName`.
  unfoldable pub find_by_name : Text → List Worker → Option Worker
  find_by_name name workers = elim (not_empty (p.lower (normalize_name name))) [
    | none ↦ none
    | some key ↦ preferred (filter (λ (w : Worker). p.lower (normalize_name w.name) == key) workers)
  ]

  -- `findWorkerByEmployeeId`: a second worker of the id is an error.
  unfoldable pub find_by_employee_id :
      Option Text → Bool → List Worker → Result WorkerError (Option Worker)
  find_by_employee_id employee_id inactive_too workers = elim (normalize_employee_id employee_id) [
    | none ↦ ok none
    | some key ↦
        present
          (sole (
            filter
              (λ (w : Worker).
                (w.active || inactive_too) && normalize_employee_id w.employee_id == some key)
              workers))
          duplicate_identities
  ]
