-- ===== src/Attendance/Corrections/Voids.antt =====
-- convex/attendanceCorrections.ts: at any time, a punch is voided by one correction at most.
use fw_gatekeeper.Prelude.{
  ℕ, Bool, true, false, not, ◌&&◌, Option, none, some, List, [], ◌∷◌, ◌++◌, ◌≡◌, ◌≢◌, ◌⊎◌, refl,
  sym, ◌∙◌, subst, inl, inr, arith,
}
use fw_gatekeeper.Prelude.Tests.{
  Bool-cases, Option-cases, if◌then◌else◌, ltb, ◌==◌, nat_eq, option_eq,
}
use fw_gatekeeper.Prelude.Lists.{All, All-append, filter, any, sole, length, take-short}
use fw_gatekeeper.Prelude.Text.{Text}
use fw_gatekeeper.Prelude.Result.{ok, Result-cases}
use fw_gatekeeper.Prelude.Table.{get_row}
use fw_gatekeeper.Schema.{attendance_row, void_event, action_eq, Correction, Reversal, Db, Platform}
use fw_gatekeeper.Access.{Caller}
use fw_gatekeeper.Attendance.Corrections.{
  Evidences, CorrectionArgs, CorrectionAnswer, prior_corrections, no_active_void, correction_row_of,
  check_void, create,
}
use fw_gatekeeper.Attendance.Corrections.Created.{replayed, committed, create_lem}

-- The punch that a correction voids, unless the correction has been reversed.
abbrev pub voided : List Reversal → Correction → Option ℕ
voided rs c =
    if c.action == void_event && not (any (λ (r : Reversal). r.correction_id == c.id) rs)
    then c.original_attendance_id
    else none

-- Not both void one punch.
abbrev pub Clear : List Reversal → Correction → Correction → Type 0
Clear rs c d = (voided rs c ≡ none) ⊎ (voided rs d ≢ voided rs c)

abbrev pub SingleVoid : List Reversal → List Correction → Type 0
SingleVoid rs [] = Unit
SingleVoid rs (c ∷ cs) = All (Clear rs c) cs × SingleVoid rs cs

SingleVoid-append :
    (rs : List Reversal) (cs : List Correction) (x : Correction)
    → All (λ c. Clear rs c x) cs
    → SingleVoid rs cs
    → SingleVoid rs (cs ++ x ∷ [])
SingleVoid-append rs [] x a h = (tt, tt)
SingleVoid-append rs (c ∷ cs) x (n, a) (b, h) =
    (All-append (Clear rs c) cs (x ∷ []) b (n, tt), SingleVoid-append rs cs x a h)

any-sole :
    (t : Reversal → Bool) (rs : List Reversal) (r : Reversal)
    → sole (filter t rs) ≡ some (some r)
    → any t rs ≡ true
unfolding filter any
any-sole t [] r h = cc
any-sole t (x ∷ rs) r h = elim (Bool-cases (t x)) [
  | inl e ↦ rw e refl
  | inr e ↦ rw e (any-sole t rs r (rw e at h))
]

no_active_void_lem :
    (rs : List Reversal) (cs : List Correction)
    → no_active_void rs cs ≡ ok tt
    → All (λ c. voided rs c ≡ none) cs
unfolding no_active_void
no_active_void_lem rs [] h = tt
no_active_void_lem rs (c ∷ cs) h = elim (Bool-cases (c.action == void_event)) [
  | inr other ↦ (ground arith, no_active_void_lem rs cs (ground arith))
  | inl v ↦ elim (Option-cases (sole (filter (λ (r : Reversal). r.correction_id == c.id) rs))) [
    | inl many ↦ absurd (ground arith)
    | inr (none, e) ↦ absurd (ground arith)
    | inr (some r, e) ↦
        let gone = any-sole (λ (x : Reversal). x.correction_id == c.id) rs r e in
        (rw v (rw gone refl), no_active_void_lem rs cs (ground arith))
  ]
]

All-unfilter :
    (P : Correction → Type 0) (t : Correction → Bool) (cs : List Correction)
    → All P (filter t cs)
    → All (λ c. (t c ≡ false) ⊎ P c) cs
unfolding filter
All-unfilter P t [] h = tt
All-unfilter P t (c ∷ cs) h = elim (Bool-cases (t c)) [
  | inl e ↦ let k : P c × All P (filter t cs) = rw e at h in (inr k.0, All-unfilter P t cs k.1)
  | inr e ↦ (inl e, All-unfilter P t cs (rw e at h))
]

voided_original :
    (rs : List Reversal) (c : Correction) (o : ℕ)
    → voided rs c ≡ some o
    → c.original_attendance_id ≡ some o
voided_original rs c o h = ground arith

not_void-Clear :
    (rs : List Reversal) (cs : List Correction) (x : Correction)
    → voided rs x ≡ none
    → All (λ c. Clear rs c x) cs
not_void-Clear rs [] x h = tt
not_void-Clear rs (c ∷ cs) x h = (
  elim (Option-cases (voided rs c)) [
    | inl n ↦ inl n
    | inr (o, s) ↦ inr (λ same. let k : none ≡ some o = sym h ∙ same ∙ s in ground arith)
  ],
  not_void-Clear rs cs x h,
)

other_punch :
    (rs : List Reversal) (o : ℕ) (c x : Correction)
    → x.original_attendance_id ≡ some o
    → (c.original_attendance_id == some o) ≡ false
    → Clear rs c x
other_punch rs o c x e other = elim (Option-cases (voided rs c)) [
  | inl n ↦ inl n
  | inr (k, s) ↦ inr (λ same.
      let mine = voided_original rs c k s in
      let theirs = voided_original rs x k (same ∙ s) in ground arith)
]

void-Clear :
    (rs : List Reversal) (o : ℕ) (cs : List Correction) (x : Correction)
    → x.original_attendance_id ≡ some o
    → All (λ c. ((c.original_attendance_id == some o) ≡ false) ⊎ (voided rs c ≡ none)) cs
    → All (λ c. Clear rs c x) cs
void-Clear rs o [] x e h = tt
void-Clear rs o (c ∷ cs) x e (inr n, h) = (inl n, void-Clear rs o cs x e h)
void-Clear rs o (c ∷ cs) x e (inl other, h) =
    (other_punch rs o c x e other, void-Clear rs o cs x e h)

module _ (p : Platform) (e : Evidences) where
  check_void_lem :
      (a : CorrectionArgs) (db : Db)
      → check_void p e a db ≡ ok tt
      → (o : ℕ) × (a.original_attendance_id ≡ some o)
        × All
            (λ c. voided db.reversals c ≡ none)
            (filter (λ (c : Correction). c.original_attendance_id == some o) db.corrections)
  unfolding check_void
  check_void_lem a db h = elim (Option-cases a.original_attendance_id) [
    | inl none_ ↦ absurd (ground arith)
    | inr (o, e1) ↦ elim (Option-cases (get_row o db.attendance)) [
      | inl gone ↦ absurd (ground arith)
      | inr (w, e2) ↦ elim (Bool-cases (ltb 500 (length (prior_corrections o db)))) [
        | inl long ↦ absurd (ground arith)
        | inr short ↦ elim (Result-cases (no_active_void db.reversals (prior_corrections o db))) [
          | inr (bad, e3) ↦ absurd (ground arith)
          | inl (tt, e3) ↦
              let all =
                take-short 501
                  (filter (λ (c : Correction). c.original_attendance_id == some o) db.corrections)
                  (λ full. ground arith) in
              (
                o,
                e1,
                subst (All (λ c. voided db.reversals c ≡ none)) all
                    (no_active_void_lem db.reversals (prior_corrections o db) e3),
              )
        ]
      ]
    ]
  ]

  -- What a first commit needs of the corrections that are there.
  commit-Clear :
      (a : CorrectionArgs) (db : Db) (x : Correction)
      → x.action ≡ a.action
      → x.original_attendance_id ≡ a.original_attendance_id
      → ((a.action == void_event) ≡ false) ⊎ (check_void p e a db ≡ ok tt)
      → All (λ c. Clear db.reversals c x) db.corrections
  commit-Clear a db x same_action same_punch (inl v) =
      not_void-Clear db.reversals db.corrections x (rw same_action (rw v refl))
  commit-Clear a db x same_action same_punch (inr h) =
      let (o, e1, clear) = check_void_lem a db h in
      void-Clear db.reversals o db.corrections x (same_punch ∙ e1) (
        All-unfilter (λ c. voided db.reversals c ≡ none)
          (λ (c : Correction). c.original_attendance_id == some o) db.corrections clear)

  module _ (session_id_of : Text → Option ℕ) where
    -- An accepted `create` keeps it so that no punch is voided by two corrections.
    pub create-SingleVoid :
        (a : CorrectionArgs) (c : Caller) (db : Db) (r : CorrectionAnswer) (db' : Db)
        → create p e session_id_of a c db ≡ ok (r, db')
        → SingleVoid db.reversals db.corrections
        → SingleVoid db'.reversals db'.corrections
    create-SingleVoid a c db r db' h v = elim (create_lem p e session_id_of a c db r db' h) [
      | replayed x actor reason h1 h2 h3 h4 answer same ↦ rw same v
      | committed actor reason h1 h2 h3 void_ok add_ok answer new ↦ rw new (
          SingleVoid-append db.reversals db.corrections
            (correction_row_of p e db.next_id (p.iso c.now) actor reason a)
            (commit-Clear a db (correction_row_of p e db.next_id (p.iso c.now) actor reason a) refl
              refl void_ok)
            v)
    ]
