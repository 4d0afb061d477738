-- ===== src/Attendance/Reversals/Single.antt =====
-- convex/attendanceCorrections.ts: a correction is reversed once at most, and a punch is voided by
-- one correction at most, whatever is created and reversed.
use fw_gatekeeper.Prelude.{
  ℕ, Bool, ◌||◌, Option, none, some, List, [], ◌∷◌, ◌++◌, ◌≡◌, ◌≢◌, ◌⊎◌, refl, sym, ◌∙◌, subst, inl,
  inr, arith,
}
use fw_gatekeeper.Prelude.Tests.{Bool-cases, nat_beq, ◌==◌, nat_eq}
use fw_gatekeeper.Prelude.Lists.{All, All-append, All-map, filter, any, sole-none}
use fw_gatekeeper.Prelude.Text.{Text}
use fw_gatekeeper.Prelude.Result.{ok}
use fw_gatekeeper.Prelude.Table.{row_id-get_row}
use fw_gatekeeper.Schema.{Correction, correction_row, Reversal, action_eq, Db, Platform}
use fw_gatekeeper.Access.{Caller}
use fw_gatekeeper.Attendance.Corrections.{Evidences, CorrectionArgs, CorrectionAnswer, create}
use fw_gatekeeper.Attendance.Corrections.Created.{Created, create_lem}
use fw_gatekeeper.Attendance.Corrections.Voids.{voided, Clear, SingleVoid, create-SingleVoid}
use fw_gatekeeper.Attendance.Reversals.{
  ReversalArgs, reversal_row_of, reverse, Change, created, reversed, Changes, unchanged, more,
}
use fw_gatekeeper.Attendance.Reversals.Outcomes.{replayed, committed, reverse_lem}

-- No two reversals are of one correction.
abbrev pub OneReversal : List Reversal → Type 0
OneReversal [] = Unit
OneReversal (r ∷ rs) = All (λ (x : Reversal). x.correction_id ≢ r.correction_id) rs × OneReversal rs

OneReversal-append :
    (rs : List Reversal) (x : Reversal)
    → All (λ (r : Reversal). x.correction_id ≢ r.correction_id) rs
    → OneReversal rs
    → OneReversal (rs ++ x ∷ [])
OneReversal-append [] x a h = (tt, tt)
OneReversal-append (r ∷ rs) x (n, a) (b, h) = (
  All-append (λ (y : Reversal). y.correction_id ≢ r.correction_id) rs (x ∷ []) b (n, tt),
  OneReversal-append rs x a h,
)

unreversed :
    (i : ℕ) (rs : List Reversal)
    → filter (λ (y : Reversal). y.correction_id == i) rs ≡ []
    → All (λ (r : Reversal). i ≢ r.correction_id) rs
unfolding filter
unreversed i [] h = tt
unreversed i (r ∷ rs) h = elim (Bool-cases (nat_beq r.correction_id i)) [
  | inl e ↦ absurd (ground arith)
  | inr e ↦ ((λ same. ground arith), unreversed i rs (rw e at h))
]

any-append :
    (t : Reversal → Bool) (rs : List Reversal) (x : Reversal)
    → any t (rs ++ x ∷ []) ≡ (any t rs || t x)
unfolding any
any-append t [] x = ground arith
any-append t (r ∷ rs) x = ground (arith, any-append t rs x)

-- A reversal takes voids away, and adds none.
voided-append :
    (rs : List Reversal) (x : Reversal) (c : Correction)
    → (voided (rs ++ x ∷ []) c ≡ none) ⊎ (voided (rs ++ x ∷ []) c ≡ voided rs c)
voided-append rs x c = ground (arith, any-append (λ (r : Reversal). r.correction_id == c.id) rs x)

still_apart :
    (c c' d d' : Option ℕ)
    → (c' ≡ none) ⊎ (c' ≡ c)
    → (d' ≡ none) ⊎ (d' ≡ d)
    → (c ≡ none) ⊎ (d ≢ c)
    → (c' ≡ none) ⊎ (d' ≢ c')
still_apart c c' d d' (inl n) q h = inl n
still_apart c c' d d' (inr s) q (inl n) = inl (s ∙ n)
still_apart c none d d' (inr s) q (inr n) = inl refl
still_apart c (some k) d d' (inr s) (inl gone) (inr n) =
    inr (λ same. let bad : none ≡ some k = sym gone ∙ same in ground arith)
still_apart c (some k) d d' (inr s) (inr kept) (inr n) = inr (λ same. n (sym kept ∙ same ∙ s))

Clear-append :
    (rs : List Reversal) (x : Reversal) (c d : Correction) → Clear rs c d → Clear (rs ++ x ∷ []) c d
Clear-append rs x c d h =
    still_apart (voided rs c) (voided (rs ++ x ∷ []) c) (voided rs d) (voided (rs ++ x ∷ []) d)
      (voided-append rs x c) (voided-append rs x d) h

SingleVoid-reversal :
    (rs : List Reversal) (x : Reversal) (cs : List Correction)
    → SingleVoid rs cs
    → SingleVoid (rs ++ x ∷ []) cs
SingleVoid-reversal rs x [] h = tt
SingleVoid-reversal rs x (c ∷ cs) (a, h) = (
  All-map (Clear rs c) (Clear (rs ++ x ∷ []) c) cs (Clear-append rs x c) a,
  SingleVoid-reversal rs x cs h,
)

-- The two rules of the evidence.
pub record CorrectionsAreValid (db : Db) : Type 0 where
  pub one_reversal : OneReversal db.reversals
  pub single_void : SingleVoid db.reversals db.corrections

module _ (p : Platform) (e : Evidences) (session_id_of : Text → Option ℕ) where
  reverse-IsValid :
      (a : ReversalArgs) (c : Caller) (db : Db) (r : CorrectionAnswer) (db' : Db)
      → reverse p e session_id_of a c db ≡ ok (r, db')
      → CorrectionsAreValid db
      → CorrectionsAreValid db'
  reverse-IsValid a c db r db' h v = elim (reverse_lem p e session_id_of a c db r db' h) [
    | replayed x reason h1 h2 h3 h4 answer same ↦ rw same v
    | committed k actor reason h1 h2 h3 found h5 answer new ↦
        let x = reversal_row_of db.next_id (p.iso c.now) actor reason a.request_id k in
        let same = row_id-get_row a.correction_id db.corrections k found in
        let apart = unreversed a.correction_id db.reversals (
          sole-none (filter (λ (y : Reversal). y.correction_id == a.correction_id) db.reversals)
            h5) in
        rw new (record {
          one_reversal =
              OneReversal-append db.reversals x
                (subst (λ i. All (λ (y : Reversal). i ≢ y.correction_id) db.reversals) (sym same)
                  apart)
                v.one_reversal;
          single_void = SingleVoid-reversal db.reversals x db.corrections v.single_void;
        })
  ]

  created_reversals :
      (a : CorrectionArgs) (c : Caller) (db : Db) (r : CorrectionAnswer) (db' : Db)
      → create p e session_id_of a c db ≡ ok (r, db')
      → db'.reversals ≡ db.reversals
  created_reversals a c db r db' h = elim (create_lem p e session_id_of a c db r db' h) [
    | Created.replayed x actor reason h1 h2 h3 h4 answer same ↦ rw same refl
    | Created.committed actor reason h1 h2 h3 void_ok add_ok answer new ↦ rw new refl
  ]

  create-IsValid :
      (a : CorrectionArgs) (c : Caller) (db : Db) (r : CorrectionAnswer) (db' : Db)
      → create p e session_id_of a c db ≡ ok (r, db')
      → CorrectionsAreValid db
      → CorrectionsAreValid db'
  create-IsValid a c db r db' h v = record {
    one_reversal = subst OneReversal (sym (created_reversals a c db r db' h)) v.one_reversal;
    single_void = create-SingleVoid p e session_id_of a c db r db' h v.single_void;
  }

  Change-IsValid :
      {db db' : Db}
      → Change p e session_id_of db db'
      → CorrectionsAreValid db
      → CorrectionsAreValid db'
  Change-IsValid {db} {db'} (created a c r h) v = create-IsValid a c db r db' h v
  Change-IsValid {db} {db'} (reversed a c r h) v = reverse-IsValid a c db r db' h v

  -- Whatever corrections are created and reversed, in whatever order and by whichever operators, no
  -- correction is ever reversed twice and no punch is ever voided by two corrections at a time.
  pub Changes-IsValid :
      {db db' : Db}
      → Changes p e session_id_of db db'
      → CorrectionsAreValid db
      → CorrectionsAreValid db'
  Changes-IsValid unchanged v = v
  Changes-IsValid (more run step) v = Change-IsValid step (Changes-IsValid run v)
