-- ===== src/Kiosks/Secrets.antt =====
-- convex/kiosks.ts: a rotated credential lets its kiosk in, and a revoked one nobody.
use fw_gatekeeper.Prelude.{
  ℕ, Bool, true, false, Option, none, some, List, [], ◌∷◌, ◌≡◌, refl, sym, ap, ◌∙◌, subst, inl, inr,
  arith,
}
use fw_gatekeeper.Prelude.Tests.{
  Bool-cases, Option-cases, if◌then◌else◌, nat_beq, nat_beq_iff, ◌==◌, nat_eq, option_eq,
}
use fw_gatekeeper.Prelude.Lists.{All, find, filter, sole, sole-none, sole-some}
use fw_gatekeeper.Prelude.Text.{Text, text_eq, text_beq_iff}
use fw_gatekeeper.Prelude.Result.{ok, Result-cases}
use fw_gatekeeper.Prelude.Table.{get_row, patch_row, get_row-patch_row}
use fw_gatekeeper.Prelude.Ids.{Absent, DistinctIds, patch_row-Absent}
use fw_gatekeeper.Schema.{Kiosk, kiosk_row, Db, Platform}
use fw_gatekeeper.Access.{Caller}
use fw_gatekeeper.Attendance.Ingest.{is_digest}
use fw_gatekeeper.Kiosks.Registry.{administrator}
use fw_gatekeeper.Kiosks.Credentials.{
  Identity, with_hash, identity_for, authenticate_device, is_other, rotated, revoked, rotate,
  revoke, rotate_credential, revoke_credential,
}

abbrev has_hash : Text → Kiosk → Bool
has_hash hash k = k.credential_hash == some hash

all_of_filter :
    (t : Kiosk → Bool) (P : Kiosk → Type 0) (ks : List Kiosk)
    → All P (filter t ks)
    → All (λ x. t x ≡ true → P x) ks
unfolding filter
all_of_filter t P [] h = tt
all_of_filter t P (x ∷ ks) h = elim (Bool-cases (t x)) [
  | inl e ↦ let k : P x × All P (filter t ks) = rw e at h in ((λ _. k.0), all_of_filter t P ks k.1)
  | inr e ↦ ((λ yes. absurd (ground arith)), all_of_filter t P ks (rw e at h))
]

none_pass :
    (t : Kiosk → Bool) (i : ℕ) (ks : List Kiosk)
    → Absent i ks
    → All (λ x. t x ≡ true → x.id ≡ i) ks
    → filter t ks ≡ []
unfolding filter
none_pass t i [] a h = refl
none_pass t i (x ∷ ks) (n, a) (q, h) = elim (Bool-cases (t x)) [
  | inl e ↦ absurd (n (q e))
  | inr e ↦ rw e (none_pass t i ks a h)
]

-- The rows that pass a test which only the row `i` may pass, once that row is patched.
only_patched :
    (t : Kiosk → Bool) (i : ℕ) (f : Kiosk → Kiosk) (ks : List Kiosk) (k : Kiosk)
    → DistinctIds ks
    → get_row i ks ≡ some k
    → All (λ x. t x ≡ true → x.id ≡ i) ks
    → filter t (patch_row i f ks) ≡ (if t (f k) then f k ∷ [] else [])
unfolding filter get_row patch_row find
only_patched t i f [] k d found h = absurd (ground arith)
only_patched t i f (x ∷ ks) k (a, d) found (q, h) = elim (Bool-cases (nat_beq x.id i)) [
  | inl hit ↦
      let same : x ≡ k = ground arith in
      let at : x.id ≡ i = ground arith in
      let gone = subst (λ j. Absent j ks) at a in
      rw hit (rw (patch_row-Absent i f ks gone) (rw (none_pass t i ks gone h) (rw same refl)))
  | inr miss ↦ elim (Bool-cases (t x)) [
    | inl passes ↦ absurd (let at = q passes in ground arith)
    | inr fails ↦ rw miss (rw fails (only_patched t i f ks k d (rw miss at found) h))
  ]
]

only_holder :
    (p : Platform) (hash : Text) (id : ℕ) (db : Db) (o : Option Kiosk)
    → sole (with_hash hash db) ≡ some o
    → is_other p id o ≡ false
    → All (λ (x : Kiosk). has_hash hash x ≡ true → x.id ≡ id) db.kiosks
only_holder p hash id db none e h =
    all_of_filter (has_hash hash) (λ x. x.id ≡ id) db.kiosks
      (subst (All (λ (x : Kiosk). x.id ≡ id)) (sym (sole-none (with_hash hash db) e)) tt)
only_holder p hash id db (some k) e h =
    all_of_filter (has_hash hash) (λ x. x.id ≡ id) db.kiosks
      (subst (All (λ (x : Kiosk). x.id ≡ id)) (sym (sole-some (with_hash hash db) k e))
        (ground arith, tt))

module _ (p : Platform) (session_id_of : Text → Option ℕ) where
  rotate_lem :
      (id : ℕ) (hash : Text) (actor now : ℕ) (db : Db) (t : Text) (db' : Db)
      → rotate p id hash actor now db ≡ ok (t, db')
      → (k : Kiosk) × (get_row id db.kiosks ≡ some k)
        × (k.active ≡ true)
        × All (λ (x : Kiosk). has_hash hash x ≡ true → x.id ≡ id) db.kiosks
        × (db'.kiosks ≡ patch_row id (rotated p hash (p.iso now) k) db.kiosks)
  unfolding rotate
  rotate_lem id hash actor now db t db' h = elim (Option-cases (get_row id db.kiosks)) [
    | inl gone ↦ absurd (ground arith)
    | inr (k, found) ↦ elim (Bool-cases k.active) [
      | inr off ↦ absurd (ground arith)
      | inl on ↦ elim (Bool-cases (is_digest hash)) [
        | inr bad ↦ absurd (ground arith)
        | inl good ↦ elim (Option-cases (sole (with_hash hash db))) [
          | inl many ↦ absurd (ground arith)
          | inr (o, e) ↦ elim (Bool-cases (is_other p id o)) [
            | inl taken ↦ absurd (ground arith)
            | inr mine ↦ (k, found, on, only_holder p hash id db o e mine, ground arith)
          ]
        ]
      ]
    ]
  ]

  let_in :
      (id : ℕ) (hash now : Text) (db db' : Db) (k : Kiosk)
      → DistinctIds db.kiosks
      → get_row id db.kiosks ≡ some k
      → k.active ≡ true
      → All (λ (x : Kiosk). has_hash hash x ≡ true → x.id ≡ id) db.kiosks
      → db'.kiosks ≡ patch_row id (rotated p hash now k) db.kiosks
      → (x : Kiosk) × (get_row id db'.kiosks ≡ some x)
        × (authenticate_device p hash db' ≡ ok (some (identity_for p x)))
  unfolding authenticate_device
  let_in id hash now db db' k ids found on only same =
      let f = rotated p hash now k in
      (
        f k,
        rw same (
            get_row-patch_row id id f db.kiosks (λ x. refl)
            ∙ rw ((nat_beq_iff id id).1 refl) (rw found refl)),
        rw same (
            rw (only_patched (has_hash hash) id f db.kiosks k ids found only)
              (rw ((text_beq_iff hash hash).1 refl) (rw on refl))),
      )

  -- A credential that is rotated in lets its kiosk in, and no other.
  pub rotated_credential_lets_in :
      (id : ℕ) (hash : Text) (c : Caller) (db : Db) (t : Text) (db' : Db)
      → DistinctIds db.kiosks
      → rotate_credential p session_id_of id hash c db ≡ ok (t, db')
      → (k : Kiosk) × (get_row id db'.kiosks ≡ some k)
        × (authenticate_device p hash db' ≡ ok (some (identity_for p k)))
  unfolding rotate_credential authenticate_device
  rotated_credential_lets_in id hash c db t db' ids h =
      elim (Result-cases (administrator p session_id_of c db)) [
        | inr (bad, e) ↦ absurd (ground arith)
        | inl (m, e) ↦
            let (k, found, on, only, same) =
              rotate_lem id hash m.user_id c.now db t db' (ground arith) in
            let_in id hash (p.iso c.now) db db' k ids found on only same
      ]

  revoke_lem :
      (id : ℕ) (confirmed : Bool) (actor now : ℕ) (db db' : Db)
      → revoke p id confirmed actor now db ≡ ok db'
      → (k : Kiosk) × (get_row id db.kiosks ≡ some k)
        × (db'.kiosks ≡ patch_row id (revoked p (p.iso now) k) db.kiosks)
  unfolding revoke
  revoke_lem id confirmed actor now db db' h = elim (Option-cases (get_row id db.kiosks)) [
    | inl gone ↦ absurd (ground arith)
    | inr (k, found) ↦ elim (Bool-cases k.active) [
      | inr off ↦ absurd (ground arith)
      | inl on ↦ elim (Bool-cases confirmed) [
        | inr bad ↦ absurd (ground arith)
        | inl good ↦ (k, found, ground arith)
      ]
    ]
  ]

  holder :
      (hash : Text) (db : Db) (i : Identity)
      → authenticate_device p hash db ≡ ok (some i)
      → (k : Kiosk) × (sole (with_hash hash db) ≡ some (some k)) × (i ≡ identity_for p k)
  unfolding authenticate_device
  holder hash db i h = elim (Option-cases (sole (with_hash hash db))) [
    | inl many ↦ absurd (ground arith)
    | inr (none, e) ↦ absurd (ground arith)
    | inr (some k, e) ↦ elim (Bool-cases k.active) [
      | inr off ↦ absurd (ground arith)
      | inl on ↦ (k, e, ground arith)
    ]
  ]

  shut_out :
      (id : ℕ) (hash now : Text) (db db' : Db) (k : Kiosk)
      → DistinctIds db.kiosks
      → get_row id db.kiosks ≡ some k
      → All (λ (x : Kiosk). has_hash hash x ≡ true → x.id ≡ id) db.kiosks
      → db'.kiosks ≡ patch_row id (revoked p now k) db.kiosks
      → authenticate_device p hash db' ≡ ok none
  unfolding authenticate_device
  shut_out id hash now db db' k ids found only same =
      rw same
        (rw (only_patched (has_hash hash) id (revoked p now k) db.kiosks k ids found only) refl)

  -- Once a kiosk's access is revoked, the credential that let it in lets nobody in.
  pub revoked_credential_shuts_out :
      (id : ℕ) (hash : Text) (i : Identity) (confirmed : Bool) (c : Caller) (db db' : Db)
      → DistinctIds db.kiosks
      → authenticate_device p hash db ≡ ok (some i)
      → i.document_id ≡ id
      → revoke_credential p session_id_of id confirmed c db ≡ ok db'
      → authenticate_device p hash db' ≡ ok none
  unfolding revoke_credential
  revoked_credential_shuts_out id hash i confirmed c db db' ids before mine h =
      elim (Result-cases (administrator p session_id_of c db)) [
        | inr (bad, e) ↦ absurd (ground arith)
        | inl (m, e) ↦
            let (x, held, who) = holder hash db i before in
            let same_id : x.id ≡ id = ap (λ (j : Identity). j.document_id) (sym who) ∙ mine in
            let (k, found, same) = revoke_lem id confirmed m.user_id c.now db db' (ground arith) in
            shut_out id hash (p.iso c.now) db db' k ids found
              (only_holder p hash id db (some x) held (ground arith)) same
      ]
